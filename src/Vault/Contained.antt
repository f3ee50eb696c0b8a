-- ===== src/Vault/Contained.antt =====
-- Which files the operations of tools/user_vault.py open.
use core_heartbeat.Prelude.{
  length, ◌-◌, ℕ, zero, suc, ◌≡◌, refl, sym, true, Option, none, some, List, [], ◌∷◌, if_cases,
  arith,
}
use core_heartbeat.Vault.{
  lines_of, hits_in, PathText, Files, Access, opened, written, made_dirs, within, user_dir,
  resolved, resolve_within_vault, read_path, read_note, write_path, write_note, search_files,
  walked, search_dir, search_vault, max_search_matches,
}

module _ (fs : Files) (user : PathText) where
  -- A real path, with the links on it followed, that is the real directory of the user or below it.
  abbrev pub InVault : PathText → Type 0
  InVault path =
      (base : PathText) × (user_dir fs user ≡ some base)
      × (base ≡ fs.realpath (fs.join fs.root user))
      × (within base path ≡ true)
      × (asked : PathText) × (path ≡ fs.realpath asked)

  -- The user's directory is a real path.
  user_dir-real :
      (base : PathText) → user_dir fs user ≡ some base → base ≡ fs.realpath (fs.join fs.root user)
  unfolding user_dir
  user_dir-real base u = ground (arith, u)

  abbrev pub IsContained : Access → Type 0
  IsContained (opened path) = InVault path
  IsContained (written path) = InVault path
  IsContained (made_dirs path) = Unit

  abbrev pub AllContained : List Access → Type 0
  AllContained [] = Unit
  AllContained (a ∷ rest) = IsContained a × AllContained rest

  resolved-InVault :
      (filename : PathText) (o : Option PathText) (path : PathText)
      → user_dir fs user ≡ o
      → resolved fs filename o ≡ some path
      → InVault path
  resolved-InVault filename none path u e = ground arith
  resolved-InVault filename (some base) path u e =
      let real : fs.realpath (fs.join base filename) ≡ path = ground (arith, e) in
      (base, u, user_dir-real base u, ground arith, fs.join base filename, sym real)

  resolve-InVault :
      (filename path : PathText) → resolve_within_vault fs user filename ≡ some path → InVault path
  unfolding resolve_within_vault
  resolve-InVault filename path e =
      resolved-InVault filename (user_dir fs user) path refl (ground arith)

  read_path-AllContained :
      (o : Option PathText)
      → ((path : PathText) → o ≡ some path → InVault path)
      → AllContained (read_path fs o).1
  read_path-AllContained none h = tt
  read_path-AllContained (some path) h =
      if_cases (λ (r : Option (List PathText) × List Access). AllContained r.1) (fs.is_dir path)
        (λ _. tt) (λ _. (h path refl, tt))

  write_path-AllContained :
      (content : PathText) (o : Option PathText)
      → ((path : PathText) → o ≡ some path → InVault path)
      → AllContained (write_path fs content o).1
  write_path-AllContained content none h = tt
  write_path-AllContained content (some path) h = (tt, (h path refl, tt))

  search_files-AllContained :
      (query base : PathText) (files : List PathText) (room : ℕ)
      → user_dir fs user ≡ some base
      → AllContained (search_files fs query base room files).1
  unfolding search_files
  search_files-AllContained query base [] room u = tt
  search_files-AllContained query base (f ∷ files) zero u = tt
  search_files-AllContained query base (f ∷ files) (suc room) u =
      if_cases (λ (r : List (PathText × ℕ) × List Access). AllContained r.1)
        (within base (fs.realpath f))
        (λ i. (
          (base, u, user_dir-real base u, i, f, refl),
          search_files-AllContained query base files
              (suc room
                - length (
                    hits_in fs query (fs.realpath f) (suc room) 1
                      (lines_of fs (fs.read (fs.realpath f)))))
              u,
        ))
        (λ _. search_files-AllContained query base files (suc room) u)

  search_dir-AllContained :
      (query : PathText) (o : Option PathText)
      → user_dir fs user ≡ o
      → AllContained (search_dir fs query o).1
  unfolding search_dir
  search_dir-AllContained query none u = tt
  search_dir-AllContained query (some base) u =
      if_cases (λ (r : Option (List (PathText × ℕ)) × List Access). AllContained r.1)
        (fs.is_dir base)
        (λ _. search_files-AllContained query base (walked fs (fs.walk base)) max_search_matches u)
        (λ _. tt)

  -- Whatever the file name, the query, the links on the disk and the user's id are, each path that a
  -- read, a search or a write opens is a real path, as `os.path.realpath` returns it, and is the real
  -- path of the user's vault directory or lies below it; for an id that the boundary refuses nothing
  -- is opened.
  pub operations_contained :
      (filename query content : PathText)
      → AllContained (read_note fs user filename).1
        × AllContained (write_note fs user filename content).1
        × AllContained (search_vault fs user query).1
  unfolding read_note write_note search_vault
  operations_contained filename query content = (
    read_path-AllContained (resolve_within_vault fs user filename) (resolve-InVault filename),
    write_path-AllContained content (resolve_within_vault fs user filename)
        (resolve-InVault filename),
    search_dir-AllContained query (user_dir fs user) refl,
  )
