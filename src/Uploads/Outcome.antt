-- ===== src/Uploads/Outcome.antt =====
-- What an upload leaves in the folder of services/uploads.py.
use core_heartbeat.Uploads.Writing.{
  IsWritten, total, write_part-IsWritten, write_part-SameAt, concluded-SameAt,
}
use mathlib.Core.Path.{subst}
use Prim.Native.Nat.{zero}
use core_heartbeat.Prelude.{
  inr, inl, is_some, sym, Bool-cases, Option, some, suc, none, ℕ, ◌≤◌, ◌≡◌, refl, ◌∙◌, false, not,
  List, if_cases, arith, ◌==◌,
}
use core_heartbeat.Uploads.Name.{Name, safe_name}
use core_heartbeat.Uploads.Folder.{
  target, resolve_target, refused, File, upload_target, unique_target, numbered_target, exists_at,
  Choice, FilePath, Store, Mount, find, remove, is_mounted, is_over_capacity,
}
use core_heartbeat.Uploads.Stream.{
  store_at, raised, stored, upload_error, store_stream, Fate, Stored, Written, all_written,
  too_large, failed, part_path, part_file, unlink_quietly, write_part, concluded,
}
use core_heartbeat.Uploads.Lookup.{find-alike, find-remove-none, find-put, find-remove, IsSameness}

nothing_found : (o : Option File) → is_some o ≡ false → o ≡ none
nothing_found none h = refl
nothing_found (some f) h = ground arith

module _ (m : Mount) (fate : Fate) (e : IsSameness m) where
  -- The path that is chosen is free.
  IsFree : Store → Choice → Type 0
  IsFree st (refused s) = Unit
  IsFree st (target path) = find m path st ≡ none

  exists_free : (path : FilePath) (st : Store) → exists_at m path st ≡ false → find m path st ≡ none
  exists_free path st h = nothing_found (find m path st) h

  numbered-IsFree :
      (left n : ℕ) (path : FilePath) (st : Store) → IsFree st (numbered_target m left n path st)
  unfolding numbered_target IsFree
  numbered-IsFree zero n path st = tt
  numbered-IsFree (suc left) n path st =
      if_cases (IsFree st) (exists_at m _ st) (λ _. numbered-IsFree left (suc n) path st)
        (λ h. exists_free _ st h)

  unique-IsFree : (st : Store) (c : Choice) → IsFree st (unique_target m st c)
  unfolding unique_target IsFree
  unique-IsFree st (refused s) = tt
  unique-IsFree st (target path) =
      if_cases (IsFree st) (exists_at m path st) (λ _. numbered-IsFree 998 2 path st)
        (λ h. exists_free path st h)

  upload-IsFree : (st : Store) (filename : Name) → IsFree st (upload_target m st filename)
  unfolding upload_target IsFree
  upload-IsFree st filename =
      if_cases (IsFree st) (not (is_mounted m st)) (λ _. tt)
        (λ _.
          if_cases (IsFree st) (is_over_capacity m st) (λ _. tt)
            (λ _. unique-IsFree st (resolve_target m (safe_name filename))))

  -- A free path is not that of a file.
  free_apart :
      (q : FilePath) (f : File) (path : FilePath) (st : Store)
      → find m path st ≡ none
      → find m q st ≡ some f
      → m.same path q ≡ false
  free_apart q f path st free h = elim (Bool-cases (m.same path q)) [
    | inl pq ↦ ground (arith, find-alike m e path q st pq, free, h)
    | inr pq ↦ pq
  ]

  store_at-SameAt :
      (q : FilePath) (f : File) (filename : Name) (cs : List ℕ) (st : Store) (c : Choice)
      → IsFree st c
      → find m q st ≡ some f
      → ((path : FilePath) → c ≡ target path → m.same (part_path path) q ≡ false)
      → find m q (store_at m fate filename cs st c).1 ≡ some f
  unfolding IsFree
  store_at-SameAt q f filename cs st (refused s) free h elsewhere = h
  store_at-SameAt q f filename cs st (target path) free h elsewhere =
      let part = part_path path in
      let w = write_part m fate part cs st in
      let apart = elsewhere path refl in
      concluded-SameAt m fate e q filename path w.0 w.1 apart (free_apart q f path st free h)
      ∙ (write_part-SameAt m fate e q part cs st apart ∙ h)

  -- Whatever the request body holds and whichever calls of the operating system fail, a file that is in
  -- the folder before an upload is there afterwards, unchanged, unless it stands at the path of the
  -- upload's own part file.
  pub store_stream_keeps :
      (q : FilePath) (f : File) (chunks : List ℕ) (filename : Name) (st : Store)
      → find m q st ≡ some f
      → ((path : FilePath)
          → upload_target m st filename ≡ target path
          → m.same (part_path path) q ≡ false)
      → find m q (store_stream m fate chunks filename st).1 ≡ some f
  unfolding store_stream
  store_stream_keeps q f chunks filename st h elsewhere =
      store_at-SameAt q f filename chunks st (upload_target m st filename)
        (upload-IsFree st filename) h elsewhere

  -- An upload of so many bytes that ends with a receipt has all of them, one at least, and at most the
  -- allowed number, and its file has them at the chosen path; one that ends with a refusal leaves no
  -- part file.
  pub IsSettled : ℕ → FilePath → Stored × Store → Type 0
  IsSettled whole path (upload_error s, st) = find m (part_path path) st ≡ none
  IsSettled whole path (raised, st) = Unit
  IsSettled whole path (stored r, st) =
      (r.size_bytes ≡ whole)
      × (1 ≤ r.size_bytes)
      × (r.size_bytes ≤ m.max_upload_bytes)
      × (find m path st ≡ some (part_file m fate r.size_bytes))

  unlinked :
      (path : FilePath) (st : Store)
      → fate.unlink_fails ≡ false
      → find m (part_path path) (unlink_quietly m fate (part_path path) st) ≡ none
  unlinked path st u =
      ground
        (arith, u, find-remove m e (part_path path) (part_path path) st (e.itself (part_path path)))

  concluded-IsSettled :
      (whole : ℕ) (filename : Name) (path : FilePath) (w : Written) (st : Store)
      → fate.unlink_fails ≡ false
      → IsWritten m fate e whole w
      → IsSettled whole path (concluded m fate filename path (w, st))
  unfolding IsSettled
  concluded-IsSettled whole filename path too_large st u h = unlinked path st u
  concluded-IsSettled whole filename path failed st u h = unlinked path st u
  concluded-IsSettled whole filename path (all_written n) st u h =
      let part = part_path path in
      let st1 = remove m part st in
      let gone = find-remove m e part part st (e.itself part) in
      if_cases (IsSettled whole path) (n == 0) (λ _. unlinked path st u)
        (λ some_bytes.
          if_cases (IsSettled whole path) fate.replace_fails (λ _. tt)
            (λ _.
              if_cases (IsSettled whole path) fate.quarantined
                (λ _. ground (
                  arith,
                  e.itself path,
                  find-remove-none m e part path (remove m path st1)
                      (find-remove-none m e part path st1 gone),
                ))
                (λ _. (
                  h.0,
                  ground (arith, some_bytes),
                  h.1,
                  find-put m e path path (part_file m fate n) st1 (e.itself path),
                ))))

  -- An upload whose path has been chosen, where the part file can be removed: if it ends with a receipt,
  -- the receipt's size is the number of bytes in the request body, which is at least 1 and at most the
  -- limit, and a file of that size stands at that path; if it ends with a refusal, no part file is
  -- left.
  pub store_stream-IsSettled :
      (chunks : List ℕ) (filename : Name) (st : Store) (path : FilePath)
      → fate.unlink_fails ≡ false
      → upload_target m st filename ≡ target path
      → IsSettled (total chunks) path (store_stream m fate chunks filename st)
  unfolding store_stream
  store_stream-IsSettled chunks filename st path u chosen =
      let w = write_part m fate (part_path path) chunks st in
      subst (λ c. IsSettled (total chunks) path (store_at m fate filename chunks st c)) (sym chosen)
        (concluded-IsSettled (total chunks) filename path w.0 w.1 u
          (write_part-IsWritten m fate e (part_path path) chunks st))
