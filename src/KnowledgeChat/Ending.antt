-- ===== src/KnowledgeChat/Ending.antt =====
-- How the events of a turn of knowledge_chat.py end, and what its reader has been shown by then.
use core_heartbeat.KnowledgeChat.Induction.{IsKeptByRounds, Done, last_state-Done}
use core_heartbeat.KnowledgeChat.Lines.{take_list}
use core_heartbeat.Prelude.{
  ℕ, ◌≡◌, refl, sym, ap, ◌∙◌, ◌⊎◌, inl, inr, Bool, true, false, not, List, [], ◌∷◌, ◌++◌, all, any,
  any-append, is_empty, if_cases, arith, map, append_assoc, append-nil, lstrip, strip, is_space,
  rstrip,
}
use core_heartbeat.KnowledgeChat.Text.{Text, glue}
use core_heartbeat.KnowledgeChat.Context.{Source, TurnContext}
use core_heartbeat.KnowledgeChat.World.{World, Request, Part, Call}
use core_heartbeat.KnowledgeChat.Calls.{calls_of, Slot, gather, waiting}
use core_heartbeat.KnowledgeChat.Run.{
  State, Event, token, tool_call, sources, status, completed, failed, streamed, answered_calls,
  first_state, closing, finished, last_state, run, max_calls_per_round, apology, failed_now,
}

-- A piece of the answer, or the notice of a tool call.
abbrev pub is_progress : Event → Bool
is_progress (token t) = true
is_progress (tool_call c) = true
is_progress (sources ss) = false
is_progress (status s) = false

-- The text that the reader has seen.
abbrev pub spoken : List Event → Text
spoken [] = []
spoken (token t ∷ es) = t ++ spoken es
spoken (tool_call c ∷ es) = spoken es
spoken (sources ss ∷ es) = spoken es
spoken (status s ∷ es) = spoken es

-- There is something to read.
abbrev pub is_visible : Text → Bool
is_visible s = any (λ c. not (is_space c)) s

-- Pieces of the answer and notices of tool calls, some of them visible text, and then an error, or
-- the sources and the completion.
pub record IsTurn (events : List Event) : Type 0 where
  pub shown : List Event
  pub progress : all is_progress shown ≡ true
  pub visible : is_visible (spoken shown) ≡ true
  pub ends :
      (events ≡ shown ++ (status failed ∷ []))
      ⊎ ((ss : List Source) × (events ≡ shown ++ (sources ss ∷ status completed ∷ [])))

-- Nothing but progress so far, and the reader has seen what the answer holds.
pub record IsKept (s : State) : Type 0 where
  pub progress : all is_progress s.events ≡ true
  pub same : spoken s.events ≡ glue s.answer_parts

pub all-append :
    (p : Event → Bool) (xs ys : List Event)
    → all p xs ≡ true
    → all p ys ≡ true
    → all p (xs ++ ys) ≡ true
all-append p [] ys a b = b
all-append p (x ∷ xs) ys a b = ground (arith, all-append p xs ys)

pub spoken-append : (xs ys : List Event) → spoken (xs ++ ys) ≡ spoken xs ++ spoken ys
spoken-append [] ys = refl
spoken-append (token t ∷ xs) ys =
    ap (λ r. t ++ r) (spoken-append xs ys) ∙ sym (append_assoc t (spoken xs) (spoken ys))
spoken-append (tool_call c ∷ xs) ys = spoken-append xs ys
spoken-append (sources ss ∷ xs) ys = spoken-append xs ys
spoken-append (status s ∷ xs) ys = spoken-append xs ys

glue-append : (xs ys : List Text) → glue (xs ++ ys) ≡ glue xs ++ glue ys
glue-append [] ys = refl
glue-append (t ∷ xs) ys =
    ap (λ r. t ++ r) (glue-append xs ys) ∙ sym (append_assoc t (glue xs) (glue ys))

tokens_progress : (ts : List Text) → all is_progress (map token ts) ≡ true
tokens_progress [] = refl
tokens_progress (t ∷ ts) = tokens_progress ts

tokens_spoken : (ts : List Text) → spoken (map token ts) ≡ glue ts
tokens_spoken [] = refl
tokens_spoken (t ∷ ts) = ap (λ r. t ++ r) (tokens_spoken ts)

calls_progress : (cs : List Call) → all is_progress (map tool_call cs) ≡ true
calls_progress [] = refl
calls_progress (c ∷ cs) = calls_progress cs

calls_silent : (cs : List Call) → spoken (map tool_call cs) ≡ []
calls_silent [] = refl
calls_silent (c ∷ cs) = calls_silent cs

visible-append : (a b : Text) → is_visible b ≡ true → is_visible (a ++ b) ≡ true
visible-append a b v = any-append (λ c. not (is_space c)) a b ∙ ground (arith, v)

lstrip-visible :
    (p : ℕ → Bool) (s : Text) → is_empty (lstrip p s) ≡ false → any (λ c. not (p c)) s ≡ true
lstrip-visible p [] e = ground arith
lstrip-visible p (c ∷ s) e = ground (arith, lstrip-visible p s)

rstrip-empty : (p : ℕ → Bool) (s : Text) → is_empty (rstrip p s) ≡ false → is_empty s ≡ false
rstrip-empty p [] e = e
rstrip-empty p (c ∷ s) e = refl

strip-visible : (s : Text) → is_empty (strip is_space s) ≡ false → is_visible s ≡ true
strip-visible s e = lstrip-visible is_space s (rstrip-empty is_space (lstrip is_space s) e)

module _ (w : World) (req : Request) where
  streamed-IsKept : (ts : List Text) (s : State) → IsKept s → IsKept (streamed w req ts s)
  streamed-IsKept ts s k = record {
    progress = all-append is_progress s.events (map token ts) k.progress (tokens_progress ts);
    same =
        spoken-append s.events (map token ts)
        ∙ (ap (λ r. r ++ spoken (map token ts)) k.same
            ∙ (ap (λ r. glue s.answer_parts ++ r) (tokens_spoken ts)
                ∙ sym (glue-append s.answer_parts ts)));
  }

  -- A turn that ends with one more text before its last events.
  told :
      (t : Text) (s : State) (rest : List Event)
      → IsKept s
      → is_visible t ≡ true
      → ((shown : List Event)
          → (shown ++ rest ≡ shown ++ (status failed ∷ []))
            ⊎ ((ss : List Source) × (shown ++ rest
                  ≡ shown ++ (sources ss ∷ status completed ∷ []))))
      → IsTurn (s.events ++ (token t ∷ rest))
  told t s rest k v end =
      let shown = s.events ++ (token t ∷ []) in
      let same = sym (append_assoc s.events (token t ∷ []) rest) in
      record {
        shown = shown;
        progress = all-append is_progress s.events (token t ∷ []) k.progress refl;
        visible =
            ap is_visible (spoken-append s.events (token t ∷ []))
            ∙ visible-append (spoken s.events) (t ++ []) (ap is_visible (append-nil t) ∙ v);
        ends = elim (end shown) [ inl f ↦ inl (same ∙ f) | inr (ss, f) ↦ inr (ss, same ∙ f) ];
      }

  answered_calls-IsKept :
      (parts : List Part) (calls : List Call) (slots : List Slot) (ctx : TurnContext) (s : State)
      → IsKept s
      → IsKept (answered_calls w req parts calls (slots, ctx) s)
  answered_calls-IsKept parts calls slots ctx s k = record {
    progress =
        all-append is_progress s.events (map tool_call calls) k.progress (calls_progress calls);
    same =
        spoken-append s.events (map tool_call calls)
        ∙ (ap (λ r. spoken s.events ++ r) (calls_silent calls)
            ∙ (append-nil (spoken s.events) ∙ k.same));
  }

  failed_now-IsTurn : (s : State) → IsKept s → IsTurn (failed_now w req s).events
  unfolding is_space
  failed_now-IsTurn s k = told (apology w req) s (status failed ∷ []) k refl (λ shown. inl refl)

  -- What the rounds keep: nothing but progress, until an error ends the turn.
  pub progress_kept : IsKeptByRounds w req IsKept (λ s. IsTurn s.events)
  progress_kept = record {
    streams = streamed-IsKept;
    sends_back = λ held s k. record { progress = k.progress; same = k.same };
    runs = λ n parts s k.
        let calls = take_list max_calls_per_round (calls_of parts) in
        let (slots, ctx) = gather w (w.order n) (map waiting calls) s.ctx in
        answered_calls-IsKept parts calls slots ctx s k;
    fails = failed_now-IsTurn;
  }

  closing-IsTurn : (s : State) → IsKept s → IsTurn (s.events ++ closing w req s)
  unfolding is_space
  closing-IsTurn s k =
      if_cases (λ es. IsTurn (s.events ++ es)) (is_empty (strip is_space (glue s.answer_parts)))
        (λ _. told _ s (sources [] ∷ status completed ∷ []) k refl (λ shown. inr ([], refl)))
        (λ e. record {
          shown = s.events;
          progress = k.progress;
          visible = ap is_visible k.same ∙ strip-visible (glue s.answer_parts) e;
          ends = inr (_, refl);
        })

  finished-IsTurn :
      (d : Bool × State)
      → Done w req IsKept (λ s. IsTurn s.events) progress_kept d
      → IsTurn (finished w req d)
  finished-IsTurn (true, s) k = closing-IsTurn s k
  finished-IsTurn (false, s) k = k

  -- Whatever the model streams, and whatever the knowledge base does, a turn ends after its rounds, with
  -- one status event, which is the last: an error, or a completion right after the one sources
  -- event. Before that come pieces of the answer and notices of tool calls, and the reader has been
  -- shown some visible text.
  pub run-IsTurn : IsTurn (run w req)
  unfolding run last_state is_space
  run-IsTurn =
      if_cases IsTurn w.has_client
        (λ _. finished-IsTurn (last_state w req) (
          last_state-Done w req IsKept (λ s. IsTurn s.events) progress_kept
            (record { progress = refl; same = refl })))
        (λ _.
          told _ (first_state w req) (status failed ∷ []) (record { progress = refl; same = refl })
            refl (λ shown. inl refl))
