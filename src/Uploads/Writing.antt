-- ===== src/Uploads/Writing.antt =====
-- What the streamed write of services/uploads.py does to the files of the folder.
use core_heartbeat.Prelude.{
  ℕ, ◌+◌, ◌≤◌, ◌<◌, ◌≡◌, refl, ◌∙◌, false, not, List, [], ◌∷◌, if_cases, arith, ltb, ◌==◌, keep,
}
use core_heartbeat.Uploads.Name.{Name}
use core_heartbeat.Uploads.Folder.{FilePath, Store, Mount, find, remove, put}
use core_heartbeat.Uploads.Stream.{
  Fate, Stored, Written, all_written, too_large, failed, part_path, part_file, unlink_quietly,
  write_chunks, write_part, concluded,
}
use core_heartbeat.Uploads.Lookup.{IsSameness, find-remove_other, find-put_other}

-- The number of bytes in the chunks of a request body.
abbrev pub total : List ℕ → ℕ
total [] = 0
total (c ∷ cs) = c + total cs

total-keep : (cs : List ℕ) → 0 + total (keep (λ c. not (c == 0)) cs) ≡ total cs
total-keep [] = refl
total-keep (c ∷ cs) = ground (arith, total-keep cs)

module _ (m : Mount) (fate : Fate) (e : IsSameness m) where
  -- How the writing of so many bytes ends: with all of them, if they are within the limit.
  abbrev pub IsWritten : ℕ → Written → Type 0
  IsWritten whole (all_written n) = (n ≡ whole) × (n ≤ m.max_upload_bytes)
  IsWritten whole too_large = m.max_upload_bytes < whole
  IsWritten whole failed = Unit

  write_chunks-IsWritten :
      (whole : ℕ) (part : FilePath) (n : ℕ) (cs : List ℕ) (st : Store)
      → n ≤ m.max_upload_bytes
      → n + total cs ≡ whole
      → IsWritten whole (write_chunks m fate part n cs st).0
  unfolding write_chunks
  write_chunks-IsWritten whole part n [] st h e =
      if_cases (λ (r : Written × Store). IsWritten whole r.0) fate.body_fails (λ _. tt)
        (λ _. (omega (arith, e), h))
  write_chunks-IsWritten whole part n (c ∷ cs) st h e =
      if_cases (λ (r : Written × Store). IsWritten whole r.0) (ltb m.max_upload_bytes (n + c))
        (λ over. ground (arith, over, e))
        (λ fits.
          if_cases (λ (r : Written × Store). IsWritten whole r.0) (fate.write_fails (n + c))
            (λ _. tt)
            (λ _.
              write_chunks-IsWritten whole part (n + c) cs
                (put m part (part_file m fate (n + c)) st) (ground (arith, fits))
                (omega (arith, e))))

  pub write_part-IsWritten :
      (part : FilePath) (cs : List ℕ) (st : Store)
      → IsWritten (total cs) (write_part m fate part cs st).0
  unfolding write_part
  write_part-IsWritten part cs st =
      let P = λ (r : Written × Store). IsWritten (total cs) r.0 in
      if_cases P fate.open_fails (λ _. tt)
        (λ _.
          if_cases P fate.close_fails (λ _. tt)
            (λ _. write_chunks-IsWritten (total cs) part 0 _ _ (omega arith) (total-keep cs)))

  -- The writing changes the part file only.
  module _ (q : FilePath) where
    abbrev pub SameAt : Store → Store → Type 0
    SameAt st st' = find m q st' ≡ find m q st

    write_chunks-SameAt :
        (part : FilePath) (n : ℕ) (cs : List ℕ) (st : Store)
        → m.same part q ≡ false
        → SameAt st (write_chunks m fate part n cs st).1
    unfolding write_chunks
    write_chunks-SameAt part n [] st h =
        if_cases (λ (r : Written × Store). SameAt st r.1) fate.body_fails (λ _. refl) (λ _. refl)
    write_chunks-SameAt part n (c ∷ cs) st h =
        if_cases (λ (r : Written × Store). SameAt st r.1) (ltb m.max_upload_bytes (n + c))
          (λ _. refl)
          (λ _.
            if_cases (λ (r : Written × Store). SameAt st r.1) (fate.write_fails (n + c)) (λ _. refl)
              (λ _.
                write_chunks-SameAt part (n + c) cs (put m part (part_file m fate (n + c)) st) h
                ∙ find-put_other m e q part (part_file m fate (n + c)) st h))

    pub write_part-SameAt :
        (part : FilePath) (cs : List ℕ) (st : Store)
        → m.same part q ≡ false
        → SameAt st (write_part m fate part cs st).1
    unfolding write_part
    write_part-SameAt part cs st h =
        let started = put m part (part_file m fate 0) st in
        let first = find-put_other m e q part (part_file m fate 0) st h in
        let later = write_chunks-SameAt part 0 (keep (λ c. not (c == 0)) cs) started h ∙ first in
        if_cases (λ (r : Written × Store). SameAt st r.1) fate.open_fails (λ _. refl)
          (λ _.
            if_cases (λ (r : Written × Store). SameAt st r.1) fate.close_fails (λ _. later)
              (λ _. later))

    unlink-SameAt :
        (part : FilePath) (st : Store)
        → m.same part q ≡ false
        → SameAt st (unlink_quietly m fate part st)
    unlink-SameAt part st h =
        if_cases (SameAt st) fate.unlink_fails (λ _. refl) (λ _. find-remove_other m e q part st h)

    pub concluded-SameAt :
        (filename : Name) (path : FilePath) (w : Written) (st : Store)
        → m.same (part_path path) q ≡ false
        → m.same path q ≡ false
        → SameAt st (concluded m fate filename path (w, st)).1
    concluded-SameAt filename path too_large st h k = unlink-SameAt (part_path path) st h
    concluded-SameAt filename path failed st h k = unlink-SameAt (part_path path) st h
    concluded-SameAt filename path (all_written n) st h k =
        let st1 = remove m (part_path path) st in
        let st2 = put m path (part_file m fate n) st1 in
        let placed =
          find-put_other m e q path (part_file m fate n) st1 k
          ∙ find-remove_other m e q (part_path path) st h in
        if_cases (λ (r : Stored × Store). SameAt st r.1) (n == 0)
          (λ _. unlink-SameAt (part_path path) st h)
          (λ _.
            if_cases (λ (r : Stored × Store). SameAt st r.1) fate.replace_fails (λ _. refl)
              (λ _.
                if_cases (λ (r : Stored × Store). SameAt st r.1) fate.quarantined
                  (λ _. find-remove_other m e q path st2 k ∙ placed) (λ _. placed)))
