-- ===== src/Uploads/Removal.antt =====
-- What services/uploads.py `delete_upload` removes from the folder.
use core_heartbeat.Prelude.{
  ◌++◌, ◌∙◌, ap, same_codes_eq, some_inj, Option, ◌≡◌, refl, Bool, true, false, not, none, some, [],
  ◌∷◌, if_cases, arith, same_codes,
}
use core_heartbeat.Uploads.Name.{Name}
use core_heartbeat.Uploads.Folder.{
  FilePath, Store, Mount, Choice, refused, target, find, sentinel, is_mounted, resolve_target,
  below, checked_target, last_name,
}
use core_heartbeat.Uploads.Stream.{
  Deleted, deleted, refused_delete, is_file_at, delete_at, delete_upload,
}
use core_heartbeat.Uploads.Lookup.{IsSameness, find-remove, find-remove_other}

-- A path below a directory is that of the directory with its own part after it.
below_lem : (r p q : FilePath) → below r p ≡ some q → p ≡ r ++ q
unfolding below
below_lem [] p q e = some_inj e
below_lem (n ∷ r) [] q e = ground arith
below_lem (n ∷ r) (o ∷ p) q e =
    if_cases (λ (x : Option FilePath). x ≡ some q → o ∷ p ≡ n ∷ (r ++ q)) (same_codes n o)
      (λ same e. cc (same_codes_eq n o same, below_lem r p q e)) (λ _ e. ground (arith, e)) e

module _ (m : Mount) (e : IsSameness m) where
  -- Nothing but the file at the path below the root that the name stands for.
  abbrev pub IsRemoval : Store → Name → Deleted × Store → Type 0
  IsRemoval st name (refused_delete s, st') = st' ≡ st
  IsRemoval st name (deleted, st') =
      (path : FilePath) × (m.resolve name ≡ m.root ++ path)
      × (is_file_at m path st ≡ true)
      × (find m path st' ≡ none)
      × ((q : FilePath) → m.same path q ≡ false → find m q st' ≡ find m q st)

  target_inj : (p q : FilePath) → target p ≡ target q → p ≡ q
  target_inj p q e = cc

  checked_target-below :
      (abs path : FilePath) (o : Option FilePath)
      → below m.root abs ≡ o
      → checked_target m o ≡ target path
      → abs ≡ m.root ++ path
  checked_target-below abs path none b e = ground arith
  checked_target-below abs path (some []) b e = ground arith
  checked_target-below abs path (some (n ∷ p)) b e =
      below_lem m.root abs (n ∷ p) b
      ∙ ap (λ (q : FilePath). m.root ++ q)
          (if_cases (λ c. c ≡ target path → n ∷ p ≡ path) (same_codes (last_name (n ∷ p)) sentinel)
            (λ _ h. ground (arith, h)) (λ _ h. target_inj (n ∷ p) path h) e)

  delete_at-IsRemoval :
      (unlink_fails : Bool) (name : Name) (st : Store) (c : Choice)
      → resolve_target m name ≡ c
      → IsRemoval st name (delete_at m unlink_fails st c)
  unfolding resolve_target
  delete_at-IsRemoval unlink_fails name st (refused s) e = refl
  delete_at-IsRemoval unlink_fails name st (target path) r =
      if_cases (IsRemoval st name) (not (is_file_at m path st)) (λ _. refl)
        (λ there.
          if_cases (IsRemoval st name) unlink_fails (λ _. refl)
            (λ _. (
              path,
              checked_target-below (m.resolve name) path (below m.root (m.resolve name)) refl r,
              ground (arith, there),
              find-remove m e path path st (e.itself path),
              λ q h. find-remove_other m e q path st h,
            )))

  -- A deletion that is refused leaves the folder as it is. One that succeeds was of a regular file whose
  -- path below the root of the folder is what the name resolves to: it is gone, and every other file is
  -- unchanged.
  pub delete_upload-IsRemoval :
      (unlink_fails : Bool) (name : Name) (st : Store)
      → IsRemoval st name (delete_upload m unlink_fails name st)
  unfolding delete_upload
  delete_upload-IsRemoval unlink_fails name st =
      if_cases (IsRemoval st name) (not (is_mounted m st)) (λ _. refl)
        (λ _. delete_at-IsRemoval unlink_fails name st (resolve_target m name) refl)

  -- On a file system that takes a name for that of the sentinel although it is spelled otherwise, the
  -- deletion of that name removes the sentinel, and the folder counts as not mounted.
  sentinel_deleted :
      (n name : Name) (st : Store)
      → is_mounted m st ≡ true
      → below m.root (m.resolve name) ≡ some (n ∷ [])
      → same_codes n sentinel ≡ false
      → m.same (n ∷ []) (sentinel ∷ []) ≡ true
      → is_file_at m (n ∷ []) st ≡ true
      → is_mounted m (delete_upload m false name st).1 ≡ false
  unfolding delete_upload resolve_target
  sentinel_deleted n name st mounted at other alike there =
      ground (arith, mounted, at, other, there, find-remove m e (sentinel ∷ []) (n ∷ []) st alike)
