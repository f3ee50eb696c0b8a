-- ===== src/KnowledgeChat/Lines.antt =====
-- knowledge_chat.py: what the tools share: the lines of an answer, the merging of searches, and the
-- offering of passages to the turn.
use core_heartbeat.Prelude.{
  Option, ℕ, zero, suc, ◌/◌, Bool, true, false, not, none, some, List, [], ◌∷◌, ◌++◌, keep, length,
  is_empty, codes, same_codes, decimal, if◌then◌else◌, leb, is_space, strip, flatten,
}
use core_heartbeat.KnowledgeChat.Text.{Text, glue, join_with, take_text, or_text}
use core_heartbeat.KnowledgeChat.Context.{TurnContext, Found, Passage, add}
use core_heartbeat.KnowledgeChat.World.{Chunk, NotFound, Fetched, found, not_found, raised}

abbrev pub newline : Text
newline = 10 ∷ []

abbrev pub blank_line : Text
blank_line = 10 ∷ 10 ∷ []

abbrev pub quoted : Text → Text
quoted t = codes "\"" ++ (t ++ codes "\"")

-- `dict.fromkeys(texts)` as a list
abbrev pub distinct : List Text → List Text
distinct [] = []
distinct (t ∷ ts) = t ∷ keep (λ x. not (same_codes t x)) (distinct ts)

abbrev pub nonempty : List Text → List Text
nonempty ts = keep (λ t. not (is_empty t)) ts

-- `strip()` of a title, or of "Untitled"
abbrev pub title_or_untitled : Text → Text
title_or_untitled title = strip is_space (or_text title (codes "Untitled"))

-- `date[:10]` in parentheses, if there is one
abbrev pub added_note : Text → Text
added_note created =
    if is_empty created then [] else glue (codes " (added " ∷ take_text 10 created ∷ codes ")" ∷ [])

unfoldable pub not_found_text : NotFound → Text → Text
not_found_text body what =
    let alts = nonempty (flatten body.unresolved ++ body.alternatives) in
    glue (
      codes "No document in the knowledge base matches "
      ∷ what
      ∷ codes "."
      ∷ (if is_empty alts
          then []
          else glue
              (codes " Closest titles: " ∷ join_with (codes "; ") (distinct alts) ∷ codes "." ∷ []))
      ∷ codes " Check the document list and try again with a title from it."
      ∷ [])

abbrev pub scoped_weak_max : ℕ
scoped_weak_max = 6

-- `xs[:n]`
abbrev pub take_list : {A : Type 0} → ℕ → List A → List A
take_list zero xs = []
take_list (suc n) [] = []
take_list (suc n) (x ∷ xs) = x ∷ take_list n xs

-- The lists read in turns: all first chunks, then all second ones, and so on.
abbrev pub heads : List (List Chunk) → List Chunk
heads [] = []
heads ([] ∷ ls) = heads ls
heads ((x ∷ l) ∷ ls) = x ∷ heads ls

abbrev pub tails : List (List Chunk) → List (List Chunk)
tails [] = []
tails ([] ∷ ls) = [] ∷ tails ls
tails ((x ∷ l) ∷ ls) = l ∷ tails ls

abbrev pub max_nat : ℕ → ℕ → ℕ
max_nat a b = if leb a b then b else a

abbrev pub longest : List (List Chunk) → ℕ
longest [] = 0
longest (l ∷ ls) = max_nat (length l) (longest ls)

abbrev pub merged_rows : ℕ → List (List Chunk) → List Chunk
merged_rows zero ls = []
merged_rows (suc n) ls = heads ls ++ merged_rows n (tails ls)

unfoldable pub merged : List (List Chunk) → List Chunk
merged ls = merged_rows (longest ls) ls

abbrev pub merge_fetched : Fetched (List (List Chunk)) → Fetched (List Chunk)
merge_fetched (found lists) = found (merged lists)
merge_fetched (not_found body) = not_found body
merge_fetched (raised name) = raised name

-- A division by the number of documents, which is no 0.
abbrev pub per_document : ℕ → ℕ → ℕ
per_document top_k zero = 3
per_document top_k (suc n) = max_nat 3 (top_k / suc n)

-- A `[n]` passage of a tool's answer.
abbrev pub bracketed : ℕ → Text
bracketed n = glue (codes "[" ∷ codes (decimal n) ∷ codes "] " ∷ [])

abbrev pub budget_line : Text
budget_line = codes "(Context budget for this turn is full — answer from the passages you have.)"

abbrev pub line_before : Text → List Text × Bool × TurnContext → List Text × Bool × TurnContext
line_before l (lines, full, ctx) = (l ∷ lines, full, ctx)

abbrev pub or_full :
    (TurnContext → List Text × Bool × TurnContext)
    → (Passage → Text)
    → Option Passage × TurnContext
    → List Text × Bool × TurnContext
or_full later line (none, ctx) = ([], true, ctx)
or_full later line (some p, ctx) = line_before (line p) (later ctx)

-- Offers what was found in order, until one passage has no room: the lines of those that were
-- taken, whether one was refused, and the context.
unfoldable pub add_each :
    {A : Type 0}
    → ℕ
    → (A → Found)
    → (Passage → A → Text)
    → TurnContext
    → List A
    → List Text × Bool × TurnContext
add_each budget offer line ctx [] = ([], false, ctx)
add_each budget offer line ctx (a ∷ rest) =
    or_full (λ ctx'. add_each budget offer line ctx' rest) (λ p. line p a)
      (add budget ctx (offer a))
