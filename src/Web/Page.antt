-- ===== src/Web/Page.antt =====
-- The text of a page in services/web.py: a test for a part, the two patterns that squeeze blanks and
-- empty lines, and the cut.
use core_heartbeat.Prelude.{
  ℕ, zero, suc, Bool, false, ◌||◌, List, [], ◌∷◌, ◌++◌, ◌==◌, ltb, leb, codes, is_space, strip,
  length, take, if◌then◌else◌,
}

abbrev pub Text : Type 0
Text = List ℕ

-- `[ \t]`
abbrev pub is_blank : ℕ → Bool
is_blank c = c == b' ' || c == 9

-- `re.sub(r"[ \t]+", " ", s)`; the test is whether a blank has just been written.
abbrev pub blanks_squeezed : Bool → Text → Text
blanks_squeezed after [] = []
blanks_squeezed after (c ∷ s) =
    let rest = blanks_squeezed (is_blank c) s in
    if is_blank c then (if after then rest else b' ' ∷ rest) else c ∷ rest

-- A run of white space from its first line break: the text since its last line break, and the number
-- of its line breaks.
abbrev pub run_written : ℕ → Text → Text → Text
run_written breaks whole tail = if leb 3 breaks then 10 ∷ 10 ∷ tail else whole ++ tail

-- `re.sub(r"\n\s*\n\s*\n+", "\n\n", s)`. `whole` is the run up to its last line break, `tail` what
-- follows that; outside a run, `breaks` is 0.
abbrev pub lines_squeezed : ℕ → Text → Text → Text → Text
lines_squeezed breaks whole tail [] = run_written breaks whole tail
lines_squeezed zero whole tail (c ∷ s) =
    let in_run = lines_squeezed 1 (10 ∷ []) [] s in
    let outside = c ∷ lines_squeezed zero [] [] s in if c == 10 then in_run else outside
lines_squeezed (suc n) whole tail (c ∷ s) =
    let next_line = lines_squeezed (suc (suc n)) (whole ++ (tail ++ (10 ∷ []))) [] s in
    let same_line = lines_squeezed (suc n) whole (tail ++ (c ∷ [])) s in
    let outside = run_written (suc n) whole tail ++ (c ∷ lines_squeezed zero [] [] s) in
    if c == 10 then next_line else if is_space c then same_line else outside

-- What `_extract` makes of a page's text.
unfoldable pub squeezed : Text → Text
unfolding is_space
squeezed s = strip is_space (lines_squeezed zero [] [] (blanks_squeezed false s))

-- `text[:n] + "\n\n[truncated]"`, for a text that is longer
unfoldable pub cut : ℕ → Text → Text
cut n s = if ltb n (length s) then take n s ++ codes "\n\n[truncated]" else s
