-- ===== src/Memory/Upsert.antt =====
-- orchestrator.py: the profile that a preference is recorded in, read again.
use mathlib.Core.List.{map-append}
use core_heartbeat.Prelude.{
  none, some, codes, and_both, map, ℕ, Bool, true, false, not, ◌&&◌, ◌≡◌, refl, sym, ap, ◌∙◌, List,
  [], ◌∷◌, ◌++◌, all, any, keep, arith, Bool-cases, inl, inr, append_assoc, append-nil, begins_with,
  ◌==◌,
}
use core_heartbeat.Memory.{
  same_codes, Text, Preference, is_line_break, lines_from, splitlines, bullet_mark, bullets,
  key_prefix, line_of, written, profile_title, profile_header, upserted, record_preference,
}

abbrev pub is_one_line : Text → Bool
is_one_line s = not (any is_line_break s)

-- A line and its line feed are read back.
lines_from_line :
    (line t rest : Text)
    → is_one_line t ≡ true
    → lines_from false line (t ++ (10 ∷ rest)) ≡ (line ++ t) ∷ lines_from false [] rest
unfolding lines_from
lines_from_line line [] rest h =
    ap (λ (x : Text). x ∷ lines_from false [] rest) (sym (append-nil line))
lines_from_line line (c ∷ t) rest h = elim (Bool-cases (is_line_break c)) [
  | inl b ↦ ground (arith, b, h)
  | inr b ↦ rw b (
      lines_from_line (line ++ (c ∷ [])) t rest (ground (arith, h))
      ∙ ap (λ (x : Text). x ∷ lines_from false [] rest) (append_assoc line (c ∷ []) t))
]

no_lines : lines_from false [] [] ≡ []
unfolding lines_from
no_lines = refl

lines-written : (bs : List Text) → all is_one_line bs ≡ true → lines_from false [] (written bs) ≡ bs
lines-written [] h = no_lines
lines-written (b ∷ bs) h =
    lines_from_line [] b (written bs) (ground (arith, h))
    ∙ ap (λ (x : List Text). b ∷ x) (lines-written bs (ground (arith, h)))

module _ (p : Text → Bool) where
  keep_whole : (xs : List Text) → all p xs ≡ true → keep p xs ≡ xs
  keep_whole [] h = refl
  keep_whole (x ∷ xs) h =
      let first : p x ≡ true = ground (arith, h) in
      rw first (ap (λ (ys : List Text). x ∷ ys) (keep_whole xs (ground (arith, h))))

abbrev is_bullet : Text → Bool
is_bullet = begins_with bullet_mark

lines_after_title :
    (title : Text) (bs : List Text)
    → is_one_line title ≡ true
    → all is_one_line bs ≡ true
    → lines_from false [] ((title ++ (10 ∷ (10 ∷ []))) ++ written bs) ≡ title ∷ ([] ∷ bs)
lines_after_title title bs h k =
    ap (lines_from false []) (append_assoc title (10 ∷ (10 ∷ [])) (written bs))
    ∙ lines_from_line [] title (10 ∷ written bs) h
    ∙ ap (λ (x : List Text). title ∷ x)
        (lines_from_line [] [] (written bs) refl
          ∙ ap (λ (x : List Text). [] ∷ x) (lines-written bs k))

title-is_one_line : is_one_line profile_title ≡ true
unfolding profile_title
title-is_one_line = refl

title-is_no_bullet : is_bullet profile_title ≡ false
unfolding profile_title
title-is_no_bullet = refl

bullets-profile :
    (bs : List Text)
    → all is_one_line bs ≡ true
    → all is_bullet bs ≡ true
    → bullets (profile_header ++ written bs) ≡ bs
unfolding bullets splitlines
bullets-profile bs h k =
    ap (keep is_bullet) (lines_after_title profile_title bs title-is_one_line h)
    ∙ rw title-is_no_bullet (keep_whole is_bullet bs k)

line_of-is_bullet : (p : Preference) → is_bullet (line_of p) ≡ true
line_of-is_bullet p = refl

abbrev pub other_key : Preference → Text → Bool
other_key p b = not (begins_with (key_prefix p) b)

-- A text without a mark is what stands before the first mark.
begins_to_mark :
    (mark : ℕ) (x y r t : Text)
    → any (λ c. c == mark) x ≡ false
    → any (λ c. c == mark) y ≡ false
    → begins_with (x ++ (mark ∷ r)) (y ++ (mark ∷ t)) ≡ (same_codes x y && begins_with r t)
begins_to_mark mark [] [] r t h k = ground arith
begins_to_mark mark [] (c ∷ y) r t h k = ground (arith, k)
begins_to_mark mark (b ∷ x) [] r t h k = ground (arith, h)
begins_to_mark mark (b ∷ x) (c ∷ y) r t h k = ground (arith, h, k, begins_to_mark mark x y r t)

-- A preference whose type has no asterisk, whose insight has no colon, and whose line is one line.
abbrev pub is_plain : Preference → Bool
is_plain p =
    not (any (λ c. c == b'*') p.preference_type)
    && (not (any (λ c. c == b':') p.key_insight) && is_one_line (line_of p))

-- The same type and the same insight.
abbrev pub same_key : Preference → Preference → Bool
same_key p q =
    same_codes p.preference_type q.preference_type && same_codes p.key_insight q.key_insight

abbrev pub other_than : Preference → Preference → Bool
other_than p q = not (same_key p q)

-- The note of some preferences.
abbrev pub profile : List Preference → Text
profile ps = profile_header ++ written (map line_of ps)

-- The line of another preference begins with the key of this one where the two have the same key.
key_prefix_lem :
    (p q : Preference) (rest : Text)
    → is_plain p ≡ true
    → is_plain q ≡ true
    → begins_with (key_prefix p) (key_prefix q ++ rest) ≡ same_key p q
key_prefix_lem p q rest h k =
    let of_p : Text = codes "** | " ++ (p.key_insight ++ codes ":") in
    let of_q : Text = codes "** | " ++ (q.key_insight ++ codes ":") in
    ap (λ (x : Text). begins_with (p.preference_type ++ of_p) x)
      (append_assoc q.preference_type of_q rest
        ∙ ap (λ (x : Text). q.preference_type ++ (codes "** | " ++ x))
            (append_assoc q.key_insight (codes ":") rest))
    ∙ begins_to_mark b'*' p.preference_type q.preference_type _ _ (ground (arith, h))
        (ground (arith, k))
    ∙ ap (λ b. same_codes p.preference_type q.preference_type && b)
        (begins_to_mark b':' p.key_insight q.key_insight [] rest (ground (arith, h))
          (ground (arith, k)))
    ∙ ground arith

other_key_lem :
    (p q : Preference)
    → is_plain p ≡ true
    → is_plain q ≡ true
    → other_key p (line_of q) ≡ other_than p q
other_key_lem p q h k = ap not (key_prefix_lem p q _ h k)

keep-lines :
    (p : Preference) (qs : List Preference)
    → is_plain p ≡ true
    → all is_plain qs ≡ true
    → keep (other_key p) (map line_of qs) ≡ map line_of (keep (other_than p) qs)
keep-lines p [] h k = refl
keep-lines p (q ∷ qs) h k =
    let both = and_both (is_plain q) (all is_plain qs) k in
    let same = other_key_lem p q h both.0 in
    elim (Bool-cases (other_than p q)) [
      | inl other ↦
          rw (same ∙ other, other)
            (ap (λ (x : List Text). line_of q ∷ x) (keep-lines p qs h both.1))
      | inr own ↦ rw (same ∙ own, own) (keep-lines p qs h both.1)
    ]

lines-are_one_line :
    (qs : List Preference) → all is_plain qs ≡ true → all is_one_line (map line_of qs) ≡ true
lines-are_one_line [] h = refl
lines-are_one_line (q ∷ qs) h =
    let both = and_both (is_plain q) (all is_plain qs) h in
    ground (arith, both.0, lines-are_one_line qs both.1)

lines-are_bullets : (qs : List Preference) → all is_bullet (map line_of qs) ≡ true
lines-are_bullets [] = refl
lines-are_bullets (q ∷ qs) = lines-are_bullets qs

bullets-of_profile :
    (qs : List Preference) → all is_plain qs ≡ true → bullets (profile qs) ≡ map line_of qs
bullets-of_profile qs h =
    bullets-profile (map line_of qs) (lines-are_one_line qs h) (lines-are_bullets qs)

-- Where each preference has a type without an asterisk, an insight without a colon, and a line without
-- a line break: recording a preference in the note of some preferences gives the note of those with
-- another type or another insight, followed by the new one; without a note, that of the new one alone.
pub record_preference-profile :
    (p : Preference) (qs : List Preference)
    → is_plain p ≡ true
    → all is_plain qs ≡ true
    → (record_preference p (some (profile qs))
        ≡ (profile (keep (other_than p) qs ++ (p ∷ [])), line_of p))
      × (record_preference p none ≡ (profile (p ∷ []), line_of p))
unfolding record_preference upserted bullets splitlines
record_preference-profile p qs h k = (
  ap
        (λ (bs : List Text).
          (profile_header ++ written (keep (other_key p) bs ++ (line_of p ∷ [])), line_of p))
        (bullets-of_profile qs k)
      ∙ ap (λ (bs : List Text). (profile_header ++ written bs, line_of p))
          (ap (λ (bs : List Text). bs ++ (line_of p ∷ [])) (keep-lines p qs h k)
            ∙ sym (map-append line_of (keep (other_than p) qs) (p ∷ []))),
  ap
      (λ (bs : List Text). (
        profile_header ++ written (keep (other_key p) (keep is_bullet bs) ++ (line_of p ∷ [])),
        line_of p,
      ))
      no_lines,
)
