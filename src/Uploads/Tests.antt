-- ===== src/Uploads/Tests.antt =====
-- Witnesses of the theorems on services/uploads.py, on a file system that does not tell cases apart.
use mathlib.Core.Path.{subst}
use core_heartbeat.Prelude.{
  ℕ, ◌≡◌, refl, sym, ◌∙◌, true, false, some, List, [], ◌∷◌, ◌++◌, map, codes, same_codes,
  same_codes_eq, arith, decimal,
}
use core_heartbeat.Uploads.Name.{lowered, safe_name, basename}
use core_heartbeat.Uploads.Folder.{
  FilePath, File, Store, Mount, find, upload_target, target, Choice, refused, resolve_target, below,
  is_over_capacity, unique_target, numbered_target, stem_and_suffix,
}
use core_heartbeat.Uploads.Stream.{Fate, store_stream, delete_upload, part_path}
use core_heartbeat.Uploads.Legal.{IsLegal, safe_name-IsLegal}
use core_heartbeat.Uploads.Lookup.{IsSameness}
use core_heartbeat.Uploads.Outcome.{IsSettled, store_stream_keeps, store_stream-IsSettled}
use core_heartbeat.Uploads.Removal.{IsRemoval, delete_upload-IsRemoval}

-- A path in lower case, its names ended by separators.
abbrev folded_path : FilePath → List ℕ
folded_path [] = []
folded_path (n ∷ p) = map lowered n ++ (b'/' ∷ folded_path p)

same_codes_refl : (s : List ℕ) → same_codes s s ≡ true
same_codes_refl [] = refl
same_codes_refl (c ∷ s) = ground (arith, same_codes_refl s)

abbrev drive : Mount
drive = record {
  same = λ p q. same_codes (folded_path p) (folded_path q);
  root = codes "mnt" ∷ [];
  resolve = λ name. codes "mnt" ∷ name ∷ [];
  readable = λ p. true;
  free = some 900;
  max_upload_bytes = 100;
  total_budget_bytes = 5000;
  free_space_floor = 50;
}

drive-IsSameness : IsSameness drive
drive-IsSameness = record {
  itself = λ p. same_codes_refl (folded_path p);
  swapped = λ p q h.
      ground
        (arith, same_codes_eq (folded_path p) (folded_path q) h, same_codes_refl (folded_path p));
  chained = λ p q r h k. ground (arith, same_codes_eq (folded_path p) (folded_path q) h, k);
}

abbrev text_file : File
text_file = record { size = 3; modified = 1; is_file = true }

abbrev folder : Store
folder = (codes ".uploads-root" ∷ [], text_file) ∷ (codes "a.txt" ∷ [], text_file) ∷ []

abbrev smooth : Fate
smooth = record {
  open_fails = false;
  write_fails = λ n. false;
  body_fails = false;
  close_fails = false;
  unlink_fails = false;
  replace_fails = false;
  quarantined = false;
  now = 2;
}

safe_name-IsLegal_example : IsLegal (safe_name (codes "../con.TXT"))
safe_name-IsLegal_example = safe_name-IsLegal (codes "../con.TXT")

-- The name is taken, in another case.
abbrev second_path : FilePath
second_path = codes "A (2).TXT" ∷ []

second_path_chosen : upload_target drive folder (codes "A.TXT") ≡ target second_path
unfolding upload_target is_over_capacity unique_target numbered_target stem_and_suffix
    resolve_target below safe_name basename decimal
second_path_chosen = refl

store_stream-IsSettled_example :
    IsSettled drive smooth drive-IsSameness 7 second_path
      (store_stream drive smooth (2 ∷ 0 ∷ 5 ∷ []) (codes "A.TXT") folder)
store_stream-IsSettled_example =
    store_stream-IsSettled drive smooth drive-IsSameness (2 ∷ 0 ∷ 5 ∷ []) (codes "A.TXT") folder
      second_path refl second_path_chosen

elsewhere :
    (path : FilePath)
    → upload_target drive folder (codes "A.TXT") ≡ target path
    → drive.same (part_path path) (codes "a.txt" ∷ []) ≡ false
elsewhere path e = subst (λ c. away c) (sym second_path_chosen ∙ e) refl
  where
    away : Choice → Type 0
    away (refused s) = Unit
    away (target p) = drive.same (part_path p) (codes "a.txt" ∷ []) ≡ false

store_stream_keeps_example :
    find drive
      (codes "a.txt" ∷ [])
      (store_stream drive smooth (2 ∷ 0 ∷ 5 ∷ []) (codes "A.TXT") folder).1
    ≡ some text_file
store_stream_keeps_example =
    store_stream_keeps drive smooth drive-IsSameness (codes "a.txt" ∷ []) text_file (2 ∷ 0 ∷ 5 ∷ [])
      (codes "A.TXT") folder refl elsewhere

delete_upload-IsRemoval_example :
    IsRemoval drive drive-IsSameness folder
      (codes "A.txt")
      (delete_upload drive false (codes "A.txt") folder)
delete_upload-IsRemoval_example =
    delete_upload-IsRemoval drive drive-IsSameness false (codes "A.txt") folder
