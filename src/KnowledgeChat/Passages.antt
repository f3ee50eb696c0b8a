-- ===== src/KnowledgeChat/Passages.antt =====
-- The passages of a turn of knowledge_chat.py: their numbers, their keys, and the context budget.
use core_heartbeat.Prelude.{
  not, keep, ℕ, zero, suc, ◌+◌, ◌≤◌, ◌≡◌, refl, sym, ap, ◌∙◌, Bool, Option, none, some, List, [],
  ◌∷◌, ◌++◌, length, same_codes, ltb, if_cases, arith, is_empty, strip, is_space, codes,
}
use core_heartbeat.KnowledgeChat.Text.{Text}
use core_heartbeat.KnowledgeChat.Context.{
  Passage, TurnContext, Found, Dict, dict_get, add, with_passage, numbered, known_or_new,
}
use core_heartbeat.KnowledgeChat.Lines.{add_each, or_full}
use core_heartbeat.KnowledgeChat.World.{
  Args, World, Call, Chunk, Fetched, Reading, found, not_found, raised,
}
use core_heartbeat.KnowledgeChat.Tools.{
  search_text, search_result, tool_search, search_chunks, relevant, search_found, search_line,
  read_result, tool_read, read_found, read_line, run_tool,
}
use core_heartbeat.KnowledgeChat.Calls.{Slot, waiting, done, settle, settle_at, settle_all, gather}

-- The passages are numbered in order from one on.
abbrev pub NumberedFrom : ℕ → List Passage → Type 0
NumberedFrom n [] = Unit
NumberedFrom n (p ∷ ps) = (p.n ≡ n) × NumberedFrom (suc n) ps

abbrev pub total : List Passage → ℕ
total [] = 0
total (p ∷ ps) = length p.text + total ps

-- Each entry stands under its own key, which no earlier entry has.
abbrev pub Keyed : Dict Passage → Type 0
Keyed [] = Unit
Keyed ((k, p) ∷ rest) = (p.key ≡ k) × (dict_get k rest ≡ none) × Keyed rest

abbrev pub values : Dict Passage → List Passage
values [] = []
values ((k, p) ∷ rest) = values rest ++ (p ∷ [])

-- The passages have the numbers 1, 2, … in the order in which they came, the table by key holds the
-- same passages, no two under one key, and their texts fit the budget together.
pub record IsSound (budget : ℕ) (ctx : TurnContext) : Type 0 where
  pub order : NumberedFrom 1 ctx.passages
  pub keys : Keyed ctx.by_key
  pub same : values ctx.by_key ≡ ctx.passages
  pub counted : ctx.chars ≡ total ctx.passages
  pub within : ctx.chars ≤ budget

NumberedFrom-append :
    (n : ℕ) (ps : List Passage) (p : Passage)
    → NumberedFrom n ps
    → p.n ≡ length ps + n
    → NumberedFrom n (ps ++ (p ∷ []))
NumberedFrom-append n [] p a e = (e ∙ omega arith, tt)
NumberedFrom-append n (q ∷ ps) p (a, as') e =
    (a, NumberedFrom-append (suc n) ps p as' (e ∙ omega arith))

total-append : (ps : List Passage) (p : Passage) → total (ps ++ (p ∷ [])) ≡ total ps + length p.text
total-append [] p = omega arith
total-append (q ∷ ps) p = omega (arith, total-append ps p)

module _ (budget : ℕ) where
  with_passage-IsSound :
      (ctx : TurnContext) (f : Found)
      → IsSound budget ctx
      → dict_get f.key ctx.by_key ≡ none
      → ctx.chars + length f.text ≤ budget
      → IsSound budget (with_passage ctx (numbered (length ctx.passages + 1) f))
  with_passage-IsSound ctx f s fresh room =
      let p = numbered (length ctx.passages + 1) f in
      record {
        order = NumberedFrom-append 1 ctx.passages p s.order refl;
        keys = (refl, fresh, s.keys);
        same = ap (λ ps. ps ++ (p ∷ [])) s.same;
        counted = ap (λ n. n + length f.text) s.counted ∙ sym (total-append ctx.passages p);
        within = room;
      }

  known_or_new-IsSound :
      (ctx : TurnContext) (f : Found) (o : Option Passage)
      → IsSound budget ctx
      → dict_get f.key ctx.by_key ≡ o
      → IsSound budget (known_or_new budget ctx f o).1
  known_or_new-IsSound ctx f (some p) s e = s
  known_or_new-IsSound ctx f none s e =
      if_cases (λ (r : Option Passage × TurnContext). IsSound budget r.1)
        (ltb budget (ctx.chars + length f.text)) (λ _. s)
        (λ r. with_passage-IsSound ctx f s e (ground (arith, r)))

  add-IsSound :
      (ctx : TurnContext) (f : Found) → IsSound budget ctx → IsSound budget (add budget ctx f).1
  unfolding add
  add-IsSound ctx f s = known_or_new-IsSound ctx f (dict_get f.key ctx.by_key) s refl

  or_full-IsSound :
      (later : TurnContext → List Text × Bool × TurnContext) (line : Passage → Text)
      → ((ctx : TurnContext) → IsSound budget ctx → IsSound budget (later ctx).2)
      → (r : Option Passage × TurnContext) → IsSound budget r.1
      → IsSound budget (or_full later line r).2
  or_full-IsSound later line h (none, ctx) s = s
  or_full-IsSound later line h (some p, ctx) s = h ctx s

  add_each-IsSound :
      {A : Type 0} (offer : A → Found) (line : Passage → A → Text) (ctx : TurnContext) (xs : List A)
      → IsSound budget ctx
      → IsSound budget (add_each budget offer line ctx xs).2
  unfolding add_each
  add_each-IsSound offer line ctx [] s = s
  add_each-IsSound offer line ctx (a ∷ xs) s =
      or_full-IsSound (λ ctx'. add_each budget offer line ctx' xs) (λ p. line p a)
        (λ ctx' s'. add_each-IsSound offer line ctx' xs s') (add budget ctx (offer a))
        (add-IsSound ctx (offer a) s)

module _ (w : World) where
  abbrev IsFine : Text × TurnContext → Type 0
  IsFine (t, ctx) = IsSound w.settings.context_chars ctx

  search_result-IsFine :
      (ctx : TurnContext) (documents : List Text) (r : Fetched (List Chunk))
      → IsSound w.settings.context_chars ctx
      → IsFine (search_result w ctx documents r)
  search_result-IsFine ctx documents (found chunks) s = offered (relevant w documents chunks)
    where
      offered : (cs : List Chunk) → IsFine (search_text w ctx documents cs)
      offered [] = s
      offered (c ∷ cs) =
          add_each-IsSound w.settings.context_chars (search_found w) (search_line w) ctx (c ∷ cs) s
  search_result-IsFine ctx documents (not_found body) s = s
  search_result-IsFine ctx documents (raised name) s = s

  read_result-IsFine :
      (ctx : TurnContext) (document : Text) (r : Fetched Reading)
      → IsSound w.settings.context_chars ctx
      → IsFine (read_result w ctx document r)
  read_result-IsFine ctx document (found r) s =
      add_each-IsSound w.settings.context_chars (read_found w r.document) (read_line w) ctx r.chunks
        s
  read_result-IsFine ctx document (not_found body) s = s
  read_result-IsFine ctx document (raised name) s = s

  tool_search-IsFine :
      (ctx : TurnContext) (args : Args)
      → IsSound w.settings.context_chars ctx
      → IsFine (tool_search w ctx args)
  unfolding tool_search
  tool_search-IsFine ctx args s =
      let documents = keep (λ d. not (is_empty (strip is_space d))) args.documents in
      if_cases IsFine (is_empty (strip is_space args.query)) (λ _. s)
        (λ _.
          search_result-IsFine ctx documents (search_chunks w (strip is_space args.query) documents)
            s)

  tool_read-IsFine :
      (ctx : TurnContext) (args : Args)
      → IsSound w.settings.context_chars ctx
      → IsFine (tool_read w ctx args)
  unfolding tool_read
  tool_read-IsFine ctx args s =
      let document = strip is_space args.document in
      if_cases IsFine (is_empty document) (λ _. s)
        (λ _.
          read_result-IsFine ctx document
            (w.read_document document (strip is_space args.focus) w.settings.read_max_chunks) s)

  run_tool-IsFine :
      (ctx : TurnContext) (c : Call)
      → IsSound w.settings.context_chars ctx
      → IsFine (run_tool w ctx c)
  unfolding run_tool
  run_tool-IsFine ctx c s =
      if_cases IsFine (same_codes c.name (codes "search_knowledge"))
        (λ _. tool_search-IsFine ctx c.args s)
        (λ _.
          if_cases IsFine (same_codes c.name (codes "read_document"))
            (λ _. tool_read-IsFine ctx c.args s)
            (λ _. if_cases IsFine (same_codes c.name (codes "list_documents")) (λ _. s) (λ _. s)))

  abbrev pub SlotsFine : List Slot × TurnContext → Type 0
  SlotsFine (slots, ctx) = IsSound w.settings.context_chars ctx

  settle-IsSound :
      (slot : Slot) (ctx : TurnContext)
      → IsSound w.settings.context_chars ctx
      → IsSound w.settings.context_chars (settle w slot ctx).1
  settle-IsSound (waiting c) ctx s = run_tool-IsFine ctx c s
  settle-IsSound (done c r) ctx s = s

  settle_at-SlotsFine :
      (n : ℕ) (slots : List Slot) (ctx : TurnContext)
      → IsSound w.settings.context_chars ctx
      → SlotsFine (settle_at w n slots ctx)
  settle_at-SlotsFine n [] ctx s = s
  settle_at-SlotsFine zero (x ∷ slots) ctx s = settle-IsSound x ctx s
  settle_at-SlotsFine (suc n) (x ∷ slots) ctx s = settle_at-SlotsFine n slots ctx s

  settle_all-SlotsFine :
      (slots : List Slot) (ctx : TurnContext)
      → IsSound w.settings.context_chars ctx
      → SlotsFine (settle_all w slots ctx)
  settle_all-SlotsFine [] ctx s = s
  settle_all-SlotsFine (x ∷ slots) ctx s =
      settle_all-SlotsFine slots (settle w x ctx).1 (settle-IsSound x ctx s)

  pub gather-SlotsFine :
      (order : List ℕ) (slots : List Slot) (ctx : TurnContext)
      → IsSound w.settings.context_chars ctx
      → SlotsFine (gather w order slots ctx)
  unfolding gather
  gather-SlotsFine [] slots ctx s = settle_all-SlotsFine slots ctx s
  gather-SlotsFine (n ∷ order) slots ctx s =
      gather-SlotsFine order (settle_at w n slots ctx).0 (settle_at w n slots ctx).1
        (settle_at-SlotsFine n slots ctx s)
