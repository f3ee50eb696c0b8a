-- ===== src/Untrusted/Clean.antt =====
-- services/untrusted.py: which characters are left of a text from outside, and how many.
use core_heartbeat.Prelude.{
  ℕ, zero, suc, ◌+◌, ◌≤◌, Bool, true, not, ◌&&◌, ◌≡◌, refl, ◌∙◌, Option, none, some, [], ◌∷◌, all,
  map, length, length-append, length-take-le, take, arith, Bool-cases, inl, inr, ◌==◌, ltb,
  is_space, lstrip, rstrip, last_kept, if_cases, all-keep, all-append, keep,
}
use core_heartbeat.Untrusted.{
  Text, Unicode, is_control, is_blank, control_to_space, Pending, nothing, one, many, one_more,
  flushed, squeeze_blanks, squeeze_breaks, before_last_space, or_at, or_whole, cut_mark, truncated,
  normalised, sanitize,
}

-- What every step of the cleaning keeps.
module _ (p : ℕ → Bool) (space : p b' ' ≡ true) where
  abbrev pending_ok : Pending → Bool
  pending_ok nothing = true
  pending_ok (one c) = p c
  pending_ok many = true

  all-flushed :
      (q : Pending) (s : Text) → pending_ok q ≡ true → all p s ≡ true → all p (flushed q s) ≡ true
  all-flushed nothing s h e = e
  all-flushed (one c) s h e = ground (arith, h, e)
  all-flushed many s h e = ground (arith, space, e)

  one_more-ok : (q : Pending) (c : ℕ) → p c ≡ true → pending_ok (one_more q c) ≡ true
  one_more-ok nothing c h = h
  one_more-ok (one d) c h = refl
  one_more-ok many c h = refl

  all-squeeze_blanks :
      (q : Pending) (s : Text)
      → pending_ok q ≡ true
      → all p s ≡ true
      → all p (squeeze_blanks q s) ≡ true
  unfolding squeeze_blanks
  all-squeeze_blanks q [] h e = all-flushed q [] h refl
  all-squeeze_blanks q (c ∷ s) h e = elim (Bool-cases (is_blank c)) [
    | inl b ↦ rw b (
        all-squeeze_blanks (one_more q c) s (one_more-ok q c (ground (arith, e)))
          (ground (arith, e)))
    | inr b ↦ rw b (
        all-flushed q (c ∷ squeeze_blanks nothing s) h
          (ground (arith, e, all-squeeze_blanks nothing s refl)))
  ]

  all-squeeze_breaks : (n : ℕ) (s : Text) → all p s ≡ true → all p (squeeze_breaks n s) ≡ true
  unfolding squeeze_breaks
  all-squeeze_breaks n [] e = refl
  all-squeeze_breaks n (c ∷ s) e =
      ground (arith, all-squeeze_breaks (suc n) s, all-squeeze_breaks zero s)

  all-lstrip : (q : ℕ → Bool) (s : Text) → all p s ≡ true → all p (lstrip q s) ≡ true
  all-lstrip q [] e = refl
  all-lstrip q (c ∷ s) e = ground (arith, all-lstrip q s)

  all-last_kept :
      (q : ℕ → Bool) (c : ℕ) (r : Text)
      → p c ≡ true
      → all p r ≡ true
      → all p (last_kept q c r) ≡ true
  all-last_kept q c [] h e = ground arith
  all-last_kept q c (d ∷ r) h e = ground arith

  all-rstrip : (q : ℕ → Bool) (s : Text) → all p s ≡ true → all p (rstrip q s) ≡ true
  all-rstrip q [] e = refl
  all-rstrip q (c ∷ s) e =
      all-last_kept q c (rstrip q s) (ground (arith, e)) (all-rstrip q s (ground (arith, e)))

  all-take : (n : ℕ) (s : Text) → all p s ≡ true → all p (take n s) ≡ true
  all-take zero s e = refl
  all-take (suc n) [] e = refl
  all-take (suc n) (c ∷ s) e = ground (arith, all-take n s)

  -- What stands before the last space is a part of the text.
  abbrev IsPart : Text → Option Text → Type 0
  IsPart s none = Unit
  IsPart s (some t) = (all p s ≡ true → all p t ≡ true) × (length t ≤ length s)

  or_at-IsPart : (c : ℕ) (s : Text) (o : Option Text) → IsPart s o → IsPart (c ∷ s) (or_at o c)
  or_at-IsPart c s none h =
      if_cases (IsPart (c ∷ s)) (c == b' ') (λ _. ((λ e. refl), omega arith)) (λ _. tt)
  or_at-IsPart c s (some t) h = ((λ e. ground (arith, e, h.0)), omega (arith, h.1))

  before_last_space-IsPart : (s : Text) → IsPart s (before_last_space s)
  unfolding before_last_space
  before_last_space-IsPart [] = tt
  before_last_space-IsPart (c ∷ s) =
      or_at-IsPart c s (before_last_space s) (before_last_space-IsPart s)

  whole-IsPart : (s : Text) (o : Option Text) → IsPart s o → IsPart s (some (or_whole o s))
  whole-IsPart s none h = ((λ e. e), omega arith)
  whole-IsPart s (some t) h = h

  truncated_lem :
      (limit : ℕ) (s : Text)
      → all p cut_mark ≡ true
      → all p s ≡ true
      → (all p (truncated limit s) ≡ true) × (length (truncated limit s) ≤ limit + 13)
  unfolding truncated
  truncated_lem limit s mark e =
      let t = take limit s in
      let h = whole-IsPart t (before_last_space t) (before_last_space-IsPart t) in
      elim (Bool-cases (ltb limit (length s))) [
        | inl more ↦ rw more (
          all-append p (or_whole (before_last_space t) t) cut_mark
              ∙ ground (arith, h.0 (all-take limit s e), mark),
          omega (
            arith,
            length-append (or_whole (before_last_space t) t) cut_mark,
            h.1,
            length-take-le limit s,
          ),
        )
        | inr less ↦ rw less (e, ground arith)
      ]

-- A visible character: no control character that the code removes, and none of category Cf.
abbrev pub is_visible : Unicode → ℕ → Bool
is_visible u c = not (is_control c) && not (u.is_format c)

all-and :
    (p q : ℕ → Bool) (s : Text) → all p s ≡ true → all q s ≡ true → all (λ c. p c && q c) s ≡ true
all-and p q [] h k = refl
all-and p q (c ∷ s) h k = ground (arith, all-and p q s)

visible_map :
    (u : Unicode) (s : Text)
    → is_visible u b' ' ≡ true
    → all (λ c. not (u.is_format c)) s ≡ true
    → all (is_visible u) (map control_to_space s) ≡ true
visible_map u [] space h = refl
visible_map u (c ∷ s) space h = ground (arith, visible_map u s)

mark-visible : (u : Unicode) → all (is_visible u) cut_mark ≡ true
mark-visible u =
    all-and (λ c. not (is_control c)) (λ c. not (u.is_format c)) cut_mark refl u.mark_is_visible

space-visible : (u : Unicode) → is_visible u b' ' ≡ true
space-visible u = ground (arith, mark-visible u)

normalised-visible : (u : Unicode) (s : Text) → all (is_visible u) (normalised u s) ≡ true
unfolding normalised
normalised-visible u s =
    let p = is_visible u in
    let space = space-visible u in
    let spaced = map control_to_space (keep (λ c. not (u.is_format c)) (u.nfkc s)) in
    let blanks = squeeze_blanks nothing spaced in
    let breaks = squeeze_breaks zero blanks in
    all-rstrip p space is_space (lstrip is_space breaks) (
      all-lstrip p space is_space breaks (
        all-squeeze_breaks p space zero blanks (
          all-squeeze_blanks p space nothing spaced refl
            (visible_map u _ space (all-keep (λ c. not (u.is_format c)) (u.nfkc s))))))

-- Whatever the text is, what is left of it has no control character of the list, no invisible
-- formatting character, and no more characters than the limit and the mark of a cut.
pub sanitize-visible :
    (u : Unicode) (limit : ℕ) (s : Text)
    → (all (is_visible u) (sanitize u limit s) ≡ true) × (length (sanitize u limit s) ≤ limit + 13)
unfolding sanitize
sanitize-visible u limit [] = (refl, omega arith)
sanitize-visible u limit (c ∷ s) =
    truncated_lem (is_visible u) (space-visible u) limit (normalised u (c ∷ s)) (mark-visible u)
      (normalised-visible u (c ∷ s))
