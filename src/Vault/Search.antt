-- ===== src/Vault/Search.antt =====
-- The cap on the hits of tools/user_vault.py `search_vault`.
use mathlib.Core.Path.{subst}
use core_heartbeat.Prelude.{
  ℕ, zero, suc, ◌+◌, ◌-◌, ◌≤◌, ◌≡◌, Option, none, some, List, [], ◌∷◌, if_cases, length,
  length-append, arith, Bool-cases, inl, inr, some_inj,
}
use core_heartbeat.Vault.{
  PathText, Files, Access, within, user_dir, hits_in, lines_of, search_files, walked, search_dir,
  search_vault, max_search_matches,
}

module _ (fs : Files) (query : PathText) where
  length-hits_in :
      (file : PathText) (lines : List PathText) (room n : ℕ)
      → length (hits_in fs query file room n lines) ≤ room
  unfolding hits_in
  length-hits_in file [] zero n = omega arith
  length-hits_in file [] (suc room) n = omega arith
  length-hits_in file (l ∷ lines) zero n = omega arith
  length-hits_in file (l ∷ lines) (suc room) n =
      if_cases (λ (hs : List (PathText × ℕ)). length hs ≤ suc room) (fs.found query l)
        (λ _. omega (arith, length-hits_in file lines room (n + 1)))
        (λ _. length-hits_in file lines (suc room) (n + 1))

  length-search_files :
      (base : PathText) (files : List PathText) (room : ℕ)
      → length (search_files fs query base room files).0 ≤ room
  unfolding search_files
  length-search_files base [] room = omega arith
  length-search_files base (f ∷ files) zero = omega arith
  length-search_files base (f ∷ files) (suc room) =
      let lines = lines_of fs (fs.read (fs.realpath f)) in
      let hits = hits_in fs query (fs.realpath f) (suc room) 1 lines in
      let more = (search_files fs query base (suc room - length hits) files).0 in
      if_cases (λ (r : List (PathText × ℕ) × List Access). length r.0 ≤ suc room)
        (within base (fs.realpath f))
        (λ _. omega (
          arith,
          length-append hits more,
          length-hits_in (fs.realpath f) lines (suc room) 1,
          length-search_files base files (suc room - length hits),
        ))
        (λ _. length-search_files base files (suc room))

  length_in_dir :
      (o : Option PathText) (hits : List (PathText × ℕ))
      → (search_dir fs query o).0 ≡ some hits
      → length hits ≤ max_search_matches
  unfolding search_dir
  length_in_dir none hits e = ground arith
  length_in_dir (some base) hits e = elim (Bool-cases (fs.is_dir base)) [
    | inl dir ↦
        subst (λ (hs : List (PathText × ℕ)). length hs ≤ max_search_matches)
          (some_inj (ground (arith, dir, e)))
          (length-search_files base (walked fs (fs.walk base)) max_search_matches)
    | inr no_dir ↦ ground (arith, no_dir, e)
  ]

  -- A search returns at most 200 hits, however many lines match.
  search_capped :
      (user : PathText) (hits : List (PathText × ℕ))
      → (search_vault fs user query).0 ≡ some hits
      → length hits ≤ max_search_matches
  unfolding search_vault
  search_capped user hits e = length_in_dir (user_dir fs user) hits e
