-- ===== src/Uploads/Legal.antt =====
-- What the names that services/uploads.py `safe_name` returns are made of.
use core_heartbeat.Prelude.{
  ℕ, ◌+◌, ◌-◌, ◌≤◌, ◌≡◌, refl, ◌∙◌, Bool, false, ◌||◌, ◌==◌, [], ◌∷◌, ◌++◌, any, any-append, map,
  is_empty, codes, if_cases, ltb, lstrip, rstrip, arith, last_kept,
}
use core_heartbeat.Uploads.Name.{
  Name, is_separator, is_illegal, is_dot, is_dot_or_space, basename, underscored, stem_of,
  dotted_rest, is_reserved, utf8_size, utf8_length, utf8_prefix, min_nat, capped, unreserved,
  within_bytes, or_upload, trimmed, safe_name, max_name_bytes,
}

-- A character that may not stand in a file's name.
abbrev pub is_bad : ℕ → Bool
is_bad c = is_illegal c || c == b'/'

basename_flat : (s : Name) → any is_separator (basename s) ≡ false
unfolding basename
basename_flat [] = refl
basename_flat (c ∷ s) =
    if_cases (λ r. any is_separator r ≡ false) (any is_separator (c ∷ s)) (λ _. basename_flat s)
      (λ e. e)

underscored_legal : (c : ℕ) → is_separator c ≡ false → is_bad (underscored c) ≡ false
underscored_legal c e = ground arith

map-underscored : (s : Name) → any is_separator s ≡ false → any is_bad (map underscored s) ≡ false
map-underscored [] e = refl
map-underscored (c ∷ s) e =
    ground (arith, underscored_legal c (ground (arith, e)), map-underscored s (ground (arith, e)))

module _ (q : ℕ → Bool) where
  any-lstrip : (p : ℕ → Bool) (s : Name) → any q s ≡ false → any q (lstrip p s) ≡ false
  any-lstrip p [] e = refl
  any-lstrip p (c ∷ s) e = ground (arith, any-lstrip p s)

  any-last_kept :
      (p : ℕ → Bool) (c : ℕ) (r : Name)
      → q c ≡ false
      → any q r ≡ false
      → any q (last_kept p c r) ≡ false
  any-last_kept p c [] a b = ground (arith, a)
  any-last_kept p c (d ∷ r) a b = ground (arith, a, b)

  any-rstrip : (p : ℕ → Bool) (s : Name) → any q s ≡ false → any q (rstrip p s) ≡ false
  any-rstrip p [] e = refl
  any-rstrip p (c ∷ s) e =
      any-last_kept p c (rstrip p s) (ground (arith, e)) (any-rstrip p s (ground (arith, e)))

  any-stem_of : (s : Name) → any q s ≡ false → any q (stem_of s) ≡ false
  any-stem_of [] e = refl
  any-stem_of (c ∷ s) e = ground (arith, any-stem_of s)

  any-dotted_rest : (s : Name) → any q s ≡ false → any q (dotted_rest s) ≡ false
  any-dotted_rest [] e = refl
  any-dotted_rest (c ∷ s) e = ground (arith, any-dotted_rest s)

  any-utf8_prefix : (n : ℕ) (s : Name) → any q s ≡ false → any q (utf8_prefix n s) ≡ false
  any-utf8_prefix n [] e = refl
  any-utf8_prefix n (c ∷ s) e =
      let rest = any-utf8_prefix (n - utf8_size c) s (ground (arith, e)) in
      if_cases (λ r. any q r ≡ false) (utf8_size c == 0) (λ _. rest)
        (λ _.
          if_cases (λ r. any q r ≡ false) (ltb n (utf8_size c)) (λ _. refl)
            (λ _. ground (arith, e, rest)))

  any-both : (s t : Name) → any q s ≡ false → any q t ≡ false → any q (s ++ t) ≡ false
  any-both s t a b = any-append q s t ∙ ground (arith, a, b)

utf8_length-append : (s t : Name) → utf8_length (s ++ t) ≡ utf8_length s + utf8_length t
utf8_length-append [] t = omega arith
utf8_length-append (c ∷ s) t = omega (arith, utf8_length-append s t)

fitting : (a n b : ℕ) → ltb n a ≡ false → b ≤ n - a → a + b ≤ n
fitting a n b fits rest = ground (arith, fits, rest)

utf8_length-prefix : (n : ℕ) (s : Name) → utf8_length (utf8_prefix n s) ≤ n
utf8_length-prefix n [] = omega arith
utf8_length-prefix n (c ∷ s) =
    let rest = utf8_length-prefix (n - utf8_size c) s in
    if_cases (λ r. utf8_length r ≤ n) (utf8_size c == 0) (λ _. omega (arith, rest))
      (λ _.
        if_cases (λ r. utf8_length r ≤ n) (ltb n (utf8_size c)) (λ _. omega arith)
          (λ fits.
            fitting (utf8_size c) n (utf8_length (utf8_prefix (n - utf8_size c) s)) fits rest))

utf8_length-prefix_all : (n : ℕ) (s : Name) → utf8_length (utf8_prefix n s) ≤ utf8_length s
utf8_length-prefix_all n [] = omega arith
utf8_length-prefix_all n (c ∷ s) =
    let rest = utf8_length-prefix_all (n - utf8_size c) s in
    let bound = utf8_size c + utf8_length s in
    if_cases (λ r. utf8_length r ≤ bound) (utf8_size c == 0) (λ _. omega (arith, rest))
      (λ _.
        if_cases (λ r. utf8_length r ≤ bound) (ltb n (utf8_size c)) (λ _. omega arith)
          (λ _. omega (arith, rest)))

utf8_length-last_kept :
    (p : ℕ → Bool) (c : ℕ) (r : Name) → utf8_length (last_kept p c r) ≤ utf8_size c + utf8_length r
utf8_length-last_kept p c [] =
    if_cases (λ r. utf8_length r ≤ utf8_size c + 0) (p c) (λ _. omega arith) (λ _. omega arith)
utf8_length-last_kept p c (d ∷ r) = omega arith

utf8_length-rstrip : (p : ℕ → Bool) (s : Name) → utf8_length (rstrip p s) ≤ utf8_length s
utf8_length-rstrip p [] = omega arith
utf8_length-rstrip p (c ∷ s) =
    ground (arith, utf8_length-last_kept p c (rstrip p s), utf8_length-rstrip p s)

trimmed_legal : (s : Name) → any is_bad s ≡ false → any is_bad (trimmed s) ≡ false
trimmed_legal s e =
    any-rstrip is_bad is_dot_or_space (lstrip is_dot s) (any-lstrip is_bad is_dot s e)

within_bytes_legal :
    (stem ext : Name)
    → any is_bad stem ≡ false
    → any is_bad ext ≡ false
    → any is_bad (within_bytes stem ext) ≡ false
within_bytes_legal stem ext a b =
    let room = max_name_bytes - min_nat (utf8_length ext) 100 in
    if_cases (λ r. any is_bad r ≡ false) (ltb max_name_bytes (utf8_length (stem ++ ext)))
      (λ _. any-rstrip is_bad is_dot_or_space (utf8_prefix room stem ++ utf8_prefix 100 ext) (
        any-both is_bad (utf8_prefix room stem) (utf8_prefix 100 ext)
          (any-utf8_prefix is_bad room stem a) (any-utf8_prefix is_bad 100 ext b)))
      (λ _. any-both is_bad stem ext a b)

unreserved_legal : (stem : Name) → any is_bad stem ≡ false → any is_bad (unreserved stem) ≡ false
unreserved_legal stem a =
    if_cases (λ r. any is_bad r ≡ false) (is_reserved stem)
      (λ _. any-both is_bad stem (codes "_file") a refl) (λ _. a)

-- A name of at most `max_name_bytes` bytes that is not empty and has no character that is no part of
-- a file's name, a separator among them.
pub record IsLegal (name : Name) : Type 0 where
  pub characters : any is_bad name ≡ false
  pub named : is_empty name ≡ false
  pub short : utf8_length name ≤ max_name_bytes

or_upload-IsLegal :
    (s : Name) → any is_bad s ≡ false → utf8_length s ≤ max_name_bytes → IsLegal (or_upload s)
or_upload-IsLegal [] a b = record { characters = refl; named = refl; short = omega arith }
or_upload-IsLegal (c ∷ s) a b = record { characters = a; named = refl; short = b }

capped_short : (stem ext : Name) → utf8_length (capped stem ext) ≤ max_name_bytes
capped_short stem ext =
    let room = max_name_bytes - min_nat (utf8_length ext) 100 in
    let both = utf8_prefix room stem ++ utf8_prefix 100 ext in
    ground (
      arith,
      utf8_length-rstrip is_dot_or_space both,
      utf8_length-append (utf8_prefix room stem) (utf8_prefix 100 ext),
      utf8_length-prefix room stem,
      utf8_length-prefix 100 ext,
      utf8_length-prefix_all 100 ext,
    )

within_bytes_short : (stem ext : Name) → utf8_length (within_bytes stem ext) ≤ max_name_bytes
within_bytes_short stem ext =
    if_cases (λ r. utf8_length r ≤ max_name_bytes) (ltb max_name_bytes (utf8_length (stem ++ ext)))
      (λ _. capped_short stem ext) (λ fits. ground (arith, fits))

-- Whatever name a client sends, the name that is made of it is not empty, has at most 200 bytes, and
-- has neither a separator nor a character that Windows refuses.
pub safe_name-IsLegal : (raw : Name) → IsLegal (safe_name raw)
unfolding safe_name
safe_name-IsLegal raw =
    let name = trimmed (map underscored (basename raw)) in
    let legal =
      trimmed_legal (map underscored (basename raw))
        (map-underscored (basename raw) (basename_flat raw)) in
    let stem = unreserved_legal (stem_of name) (any-stem_of is_bad name legal) in
    let ext = any-dotted_rest is_bad name legal in
    or_upload-IsLegal (within_bytes (unreserved (stem_of name)) (dotted_rest name))
      (within_bytes_legal (unreserved (stem_of name)) (dotted_rest name) stem ext)
      (within_bytes_short (unreserved (stem_of name)) (dotted_rest name))
