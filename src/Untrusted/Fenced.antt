-- ===== src/Untrusted/Fenced.antt =====
-- services/untrusted.py: a fence is closed only where it ends.
use core_heartbeat.Prelude.{
  ℕ, zero, Bool, true, false, ◌≡◌, refl, sym, ap, ◌∙◌, [], ◌∷◌, ◌++◌, arith, Bool-cases, inl, inr,
  begins_with, begins_with_self, contains, codes, length, ◌==◌, append_assoc, any, if◌then◌else◌,
  drop, any-append,
}
use core_heartbeat.Untrusted.{
  Text, Unicode, sanitize, removed, fence_body, fence, begin_mark, end_mark,
}

-- A text that begins with a part begins with what the part begins with, and contains what it ends
-- with.
begins_with-append :
    (part rest s : Text) → begins_with (part ++ rest) s ≡ true → begins_with part s ≡ true
begins_with-append [] rest s h = refl
begins_with-append (c ∷ part) rest [] h = h
begins_with-append (c ∷ part) rest (d ∷ s) h = ground (arith, begins_with-append part rest s)

contains_here : (part s : Text) → begins_with part s ≡ true → contains part s ≡ true
contains_here part [] h = h
contains_here part (c ∷ s) h = ground (arith, h)

contains_after : (lead part s : Text) → begins_with (lead ++ part) s ≡ true → contains part s ≡ true
contains_after [] part s h = contains_here part s h
contains_after (c ∷ lead) part [] h = cc
contains_after (c ∷ lead) part (d ∷ s) h = ground (arith, contains_after lead part s)

starts_within :
    (lead part rest s : Text)
    → begins_with (lead ++ (part ++ rest)) s ≡ true
    → contains part s ≡ true
starts_within lead part rest s h = contains_after lead part s (
    begins_with-append (lead ++ part) rest s
      (ap (λ x. begins_with x s) (append_assoc lead part rest) ∙ h))

contains_within :
    (lead part rest s : Text) → contains (lead ++ (part ++ rest)) s ≡ true → contains part s ≡ true
contains_within lead part rest [] h = starts_within lead part rest [] h
contains_within lead part rest (c ∷ s) h =
    ground (arith, h, starts_within lead part rest (c ∷ s), contains_within lead part rest s)

-- Nothing is removed of a text without the part.
removed_none : (part s : Text) → contains part s ≡ false → removed part zero s ≡ s
unfolding removed
removed_none part [] h = refl
removed_none part (c ∷ s) h = ground (arith, removed_none part s)

-- The text up to the first place where a mark stands.
abbrev pub before_first : Text → Text → Text
before_first mark [] = []
before_first mark (c ∷ s) =
    let rest = before_first mark s in if begins_with mark (c ∷ s) then [] else c ∷ rest

abbrev pub is_break : ℕ → Bool
is_break c = c == 10

-- A mark on one line does not reach over a line break.
begins_in_line :
    (mark s t : Text)
    → any is_break mark ≡ false
    → begins_with mark (s ++ (10 ∷ t)) ≡ true
    → begins_with mark s ≡ true
begins_in_line [] s t h e = refl
begins_in_line (m ∷ mark) [] t h e = ground (arith, h, e)
begins_in_line (m ∷ mark) (c ∷ s) t h e = ground (arith, begins_in_line mark s t)

before_first_here : (m : ℕ) (mark t : Text) → before_first (m ∷ mark) ((m ∷ mark) ++ t) ≡ []
before_first_here m mark t = rw (begins_with_self (m ∷ mark) t)

-- A mark is first found after the line break, where the text before it does not contain the mark.
before_first_lem :
    (m : ℕ) (mark s t : Text)
    → any is_break (m ∷ mark) ≡ false
    → contains (m ∷ mark) s ≡ false
    → before_first (m ∷ mark) (s ++ (10 ∷ ((m ∷ mark) ++ t))) ≡ s ++ (10 ∷ [])
before_first_lem m mark [] t h k = ground (arith, h, before_first_here m mark t)
before_first_lem m mark (c ∷ s) t h k =
    let rest = (m ∷ mark) ++ t in
    elim (Bool-cases (begins_with (m ∷ mark) ((c ∷ s) ++ (10 ∷ rest)))) [
      | inl here ↦ ground (arith, k, begins_in_line (m ∷ mark) (c ∷ s) rest h here)
      | inr later ↦
          rw later (ap (λ (x : Text). c ∷ x) (before_first_lem m mark s t h (ground (arith, k))))
    ]

any-append_none :
    (xs ys : Text)
    → any is_break xs ≡ false
    → any is_break ys ≡ false
    → any is_break (xs ++ ys) ≡ false
any-append_none xs ys h k = any-append is_break xs ys ∙ ground (arith, h, k)

end_mark-in_line :
    (label nonce : Text)
    → any is_break label ≡ false
    → any is_break nonce ≡ false
    → any is_break (end_mark label nonce) ≡ false
end_mark-in_line label nonce h k =
    let id = codes " id=" ++ (nonce ++ codes ">>>") in
    any-append_none (codes "<<<END_UNTRUSTED ") (label ++ id) refl (
      any-append_none label id h (
        any-append_none (codes " id=") (nonce ++ codes ">>>") refl
          (any-append_none nonce (codes ">>>") k refl)))

-- The nonce stands in the closing mark, so a text without it does not contain the mark.
no_mark :
    (label nonce s : Text) → contains nonce s ≡ false → contains (end_mark label nonce) s ≡ false
no_mark label nonce s h = elim (Bool-cases (contains (end_mark label nonce) s)) [
  | inr e ↦ e
  | inl e ↦
      let lead = codes "<<<END_UNTRUSTED " in
      let id = nonce ++ codes ">>>" in
      let within =
        contains_within (lead ++ (label ++ codes " id=")) nonce (codes ">>>") s
          (ap (λ x. contains (lead ++ x) s) (append_assoc label (codes " id=") id) ∙ e) in
      cc (sym h ∙ within)
]

-- What is left of a fence without its opening mark and line break.
drop_opening :
    (opening body mark rest : Text)
    → drop (length (opening ++ (10 ∷ []))) ((opening ++ (10 ∷ (body ++ (10 ∷ mark)))) ++ rest)
      ≡ body ++ (10 ∷ (mark ++ rest))
drop_opening [] body mark rest = append_assoc body (10 ∷ mark) rest
drop_opening (c ∷ opening) body mark rest = drop_opening opening body mark rest

-- What a reader finds who skips the opening mark and its line break, and reads up to the first
-- closing mark.
abbrev pub contents : Text → Text → Text → Text
contents label nonce s =
    before_first (end_mark label nonce) (drop (length (begin_mark label nonce ++ codes "\n")) s)

-- A text from outside cannot close its fence: where it does not contain the nonce, which is drawn
-- after it was written, whoever reads a fence up to its first closing mark finds the whole of the
-- cleaned text, and nothing of what follows the fence.
pub contents-fence :
    (u : Unicode) (nonce label : Text) (limit : ℕ) (text rest : Text)
    → any is_break label ≡ false
    → any is_break nonce ≡ false
    → contains nonce (sanitize u limit text) ≡ false
    → contents label nonce (fence u nonce label limit text ++ rest)
      ≡ sanitize u limit text ++ codes "\n"
unfolding fence fence_body
contents-fence u nonce label limit text rest h k e =
    let body = removed nonce zero (sanitize u limit text) in
    let same = removed_none nonce (sanitize u limit text) e in
    let mark = end_mark label nonce in
    ap (before_first mark) (drop_opening (begin_mark label nonce) body mark rest)
    ∙ ap (λ (x : Text). before_first mark (x ++ (10 ∷ (mark ++ rest)))) same
    ∙ before_first_lem b'<' (drop 1 mark) (sanitize u limit text) rest
        (end_mark-in_line label nonce h k) (no_mark label nonce (sanitize u limit text) e)
