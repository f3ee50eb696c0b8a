-- ===== src/Orchestrator/Affirmation.antt =====
-- `_is_affirmation` of orchestrator.py, over code points.
use core_heartbeat.Prelude.{
  ℕ, ◌+◌, String, Bool, not, ◌&&◌, ◌||◌, List, [], ◌∷◌, any, is_empty, length, codes, same_codes,
  is_space, strip, keep, leb, ◌==◌, if◌then◌else◌,
}

-- The code points whose lower case is another one among those that the next step keeps: the ASCII
-- capitals, U+212A (Kelvin sign) to `k`, and U+0130 to `i` and a combining dot. What `str.lower`
-- makes of any other code point is removed by the next step.
abbrev pub lower : List ℕ → List ℕ
lower [] = []
lower (c ∷ s) =
    let rest = lower s in
    if leb b'A' c && leb c b'Z'
    then (c + 32) ∷ rest
    else if c == 0x212a
    then b'k' ∷ rest
    else if c == 0x130
    then b'i' ∷ 0x307 ∷ rest
    else c ∷ rest

-- `[a-z ]`
abbrev pub is_kept : ℕ → Bool
is_kept c = (leb b'a' c && leb c b'z') || c == b' '

-- `re.sub(r"\s+", " ", s)`, where only spaces are left of the white space
abbrev pub collapse : List ℕ → List ℕ
collapse [] = []
collapse (c ∷ s) = elim (collapse s) [
  | [] ↦ c ∷ []
  | d ∷ r ↦ if c == b' ' && d == b' ' then d ∷ r else c ∷ d ∷ r
]

-- `len(s.split())` of a text with one space between words and none at its ends
abbrev pub words : List ℕ → ℕ
words [] = 0
words (c ∷ s) = 1 + length (keep (λ d. d == b' ') (c ∷ s))

abbrev pub affirmations : List String
affirmations =
    "y" ∷ "ya" ∷ "yes" ∷ "yes please" ∷ "yep" ∷ "yeah" ∷ "yup" ∷ "sure" ∷ "ok" ∷ "okay" ∷ "do it"
    ∷ "go ahead" ∷ "go for it" ∷ "please do" ∷ "confirm" ∷ "confirmed" ∷ "add them" ∷ "add them all"
    ∷ "add it" ∷ "create them" ∷ "sounds good" ∷ "yes do it" ∷ "yes go ahead" ∷ "yes add them"
    ∷ "proceed" ∷ "approved" ∷ []

unfoldable pub cleaned : List ℕ → List ℕ
unfolding is_space
cleaned raw = collapse (strip is_space (keep is_kept (lower (strip is_space raw))))

unfoldable pub is_affirmation : List ℕ → Bool
is_affirmation raw =
    not (is_empty (cleaned raw))
    && leb (words (cleaned raw)) 4
    && any (λ a. same_codes (codes a) (cleaned raw)) affirmations
