-- ===== src/KnowledgeChat/Text.antt =====
-- knowledge_chat.py: `_clip`, the citation pattern, and the splitting and search of an answer. A text
-- is a list of code points.
use core_heartbeat.Prelude.{
  ℕ, zero, suc, ◌+◌, ◌*◌, Bool, true, false, not, ◌&&◌, ◌||◌, ◌==◌, Option, none, some, List, [],
  ◌∷◌, ◌++◌, any, length, codes, if◌then◌else◌, leb, is_space, rstrip,
}

abbrev pub Text : Type 0
Text = List ℕ

-- What the tables of Unicode say of a code point: `\w`, and the value of a `\d`.
pub record Unicode : Type 0 where
  pub is_word : ℕ → Bool
  pub digit_value : ℕ → Option ℕ

-- `sep.join(texts)`
abbrev pub join_with : Text → List Text → Text
join_with sep [] = []
join_with sep (t ∷ ts) =
    let rest = join_with sep ts in elim ts [ [] ↦ t | u ∷ us ↦ t ++ (sep ++ rest) ]

abbrev pub glue : List Text → Text
glue [] = []
glue (t ∷ ts) = t ++ glue ts

-- A code point put before the first of the pieces.
abbrev pub push : ℕ → List Text → List Text
push c [] = (c ∷ []) ∷ []
push c (w ∷ ws) = (c ∷ w) ∷ ws

-- `text.split()`
abbrev pub words : Text → List Text
words [] = []
words (c ∷ s) =
    let rest = words s in
    if is_space c
    then rest
    else elim s [ [] ↦ (c ∷ []) ∷ [] | d ∷ r ↦ if is_space d then (c ∷ []) ∷ rest else push c rest ]

-- `text[:n]`
abbrev pub take_text : ℕ → Text → Text
take_text zero s = []
take_text (suc n) [] = []
take_text (suc n) (c ∷ s) = c ∷ take_text n s

abbrev pub spaced : Text → Text
spaced s = join_with (codes " ") (words s)

unfoldable pub clip : Text → ℕ → Text
unfolding is_space
clip text limit =
    let s = spaced text in
    if leb (length s) limit then s else rstrip is_space (take_text limit s) ++ (0x2026 ∷ [])

-- `_CITE`: how far the pattern has got after a `[`, with the numbers before the current one.
pub data Cite : Type 0 where
  opened : Cite
  number : ℕ → List ℕ → Cite
  gap : ℕ → List ℕ → Cite
  comma : List ℕ → Cite
  closed : List ℕ → Cite
  broken : Cite

-- `a or b`
abbrev pub or_text : Text → Text → Text
or_text [] b = b
or_text (c ∷ s) b = c ∷ s

module _ (u : Unicode) where
  abbrev pub first_digit : List ℕ → ℕ → Cite
  first_digit ns c = elim (u.digit_value c) [ none ↦ broken | some d ↦ number d ns ]

  abbrev pub cite_step : Cite → ℕ → Cite
  cite_step opened c = first_digit [] c
  cite_step (number v ns) c =
      if c == b']'
      then closed (ns ++ (v ∷ []))
      else if c == b','
      then comma (ns ++ (v ∷ []))
      else if is_space c
      then gap v ns
      else elim (u.digit_value c) [ none ↦ broken | some d ↦ number (v * 10 + d) ns ]
  cite_step (gap v ns) c =
      if c == b',' then comma (ns ++ (v ∷ [])) else if is_space c then gap v ns else broken
  cite_step (comma ns) c = if is_space c then comma ns else first_digit ns c
  cite_step (closed ns) c = closed ns
  cite_step broken c = broken

  abbrev pub cite_run : Cite → Text → Cite
  cite_run m [] = m
  cite_run m (c ∷ s) = cite_run (cite_step m c) s

  -- The numbers of the citation that follows a `[`, if one does.
  abbrev pub numbers : Cite → List ℕ
  numbers (closed ns) = ns
  numbers opened = []
  numbers (number v ns) = []
  numbers (gap v ns) = []
  numbers (comma ns) = []
  numbers broken = []

  abbrev pub is_closed : Cite → Bool
  is_closed (closed ns) = true
  is_closed opened = false
  is_closed (number v ns) = false
  is_closed (gap v ns) = false
  is_closed (comma ns) = false
  is_closed broken = false

  -- The numbers that `_CITE.finditer` finds. A match holds one `[` only, so no two overlap.
  unfoldable pub cited_numbers : Text → List ℕ
  cited_numbers [] = []
  cited_numbers (c ∷ s) =
      let rest = cited_numbers s in if c == b'[' then numbers (cite_run opened s) ++ rest else rest

  -- `_CITE.search(text)`
  unfoldable pub has_citation : Text → Bool
  has_citation [] = false
  has_citation (c ∷ s) = (c == b'[' && is_closed (cite_run opened s)) || has_citation s

  -- `\b` between what came before and the text.
  abbrev pub boundary : Bool → Text → Bool
  boundary before [] = before
  boundary before (c ∷ s) = if before then not (u.is_word c) else u.is_word c

  -- A letter under `re.I`.
  abbrev pub folded : ℕ → ℕ
  folded c =
      if leb b'A' c && leb c b'Z'
      then c + 32
      else if c == 0x212a
      then b'k'
      else if c == 0x17f
      then b's'
      else if c == 0x130 || c == 0x131
      then b'i'
      else c

  abbrev pub phrase_here : Bool → Text → Text → Bool
  phrase_here before [] s = boundary before s
  phrase_here before (p ∷ ps) [] = false
  phrase_here before (p ∷ ps) (c ∷ s) = folded c == p && phrase_here (u.is_word c) ps s

  -- `\b(…|…)\b` searched from a place in a text
  unfoldable pub has_phrase : List Text → Bool → Text → Bool
  has_phrase phrases before [] = false
  has_phrase phrases before (c ∷ s) =
      (boundary before (c ∷ s) && any (λ p. phrase_here before p (c ∷ s)) phrases)
      || has_phrase phrases (u.is_word c) s

-- `_SENTENCES`: whether the last code point ends a sentence, or the white space after one is passed.
pub data Place : Type 0 where
  within : Place
  ended : Place
  between : Place

abbrev pub place_after : Place → ℕ → Place
place_after between c =
    if is_space c then between else if c == b'.' || c == b'!' || c == b'?' then ended else within
place_after ended c =
    if is_space c then between else if c == b'.' || c == b'!' || c == b'?' then ended else within
place_after within c = if c == b'.' || c == b'!' || c == b'?' then ended else within

abbrev pub placed : Place → ℕ → List Text → List Text
placed within c rest = push c rest
placed ended c rest = if is_space c then [] ∷ rest else push c rest
placed between c rest = if is_space c then rest else push c rest

unfoldable pub sentences_from : Place → Text → List Text
sentences_from p [] = [] ∷ []
sentences_from p (c ∷ s) = placed p c (sentences_from (place_after p c) s)
