-- ===== src/Uploads/Stream.antt =====
-- services/uploads.py: the streamed write, the list and the removal of files.
use core_heartbeat.Vault.{ends_with}
use core_heartbeat.Prelude.{
  none, some, ◌&&◌, Option, false, ℕ, ◌+◌, Bool, true, not, ◌||◌, ◌==◌, List, [], ◌∷◌, ◌++◌,
  same_codes, if◌then◌else◌, ltb, keep,
}
use core_heartbeat.Uploads.Name.{Name, safe_name}
use core_heartbeat.Uploads.Folder.{
  resolve_target, is_mounted, find, sentinel, FilePath, File, Store, Mount, Choice, refused, target,
  part_suffix, last_name, with_name, remove, put, upload_target,
}

-- What the operating system does to one upload: which of the calls raise, when the file is written,
-- and whether a virus scanner takes the finished file away.
pub record Fate : Type 0 where
  pub open_fails : Bool
  -- by the number of bytes written so far
  pub write_fails : ℕ → Bool
  -- whether the request body breaks off after its last chunk
  pub body_fails : Bool
  pub close_fails : Bool
  pub unlink_fails : Bool
  pub replace_fails : Bool
  pub quarantined : Bool
  pub now : ℕ

pub record Receipt : Type 0 where
  pub stored_as : Name
  pub original_name : Name
  pub rewritten : Bool
  pub size_bytes : ℕ

-- How an upload ends: an UploadError with its status, another exception, or a receipt.
pub data Stored : Type 0 where
  upload_error : ℕ → Stored
  raised : Stored
  stored : Receipt → Stored

-- How the writing of the part file ends.
pub data Written : Type 0 where
  all_written : ℕ → Written
  too_large : Written
  failed : Written

abbrev pub part_path : FilePath → FilePath
part_path path = with_name (last_name path ++ part_suffix) path

module _ (m : Mount) (fate : Fate) where
  abbrev pub unlink_quietly : FilePath → Store → Store
  unlink_quietly p st = if fate.unlink_fails then st else remove m p st

  abbrev pub part_file : ℕ → File
  part_file n = record { size = n; modified = fate.now; is_file = true }

  -- The chunks that are not empty, by their sizes, from a number of bytes on.
  unfoldable pub write_chunks : FilePath → ℕ → List ℕ → Store → Written × Store
  write_chunks part written [] st =
      if fate.body_fails then (failed, st) else (all_written written, st)
  write_chunks part written (c ∷ cs) st =
      let next = written + c in
      let rest = write_chunks part next cs (put m part (part_file next) st) in
      if ltb m.max_upload_bytes next
      then (too_large, st)
      else if fate.write_fails next
      then (failed, st)
      else rest

  abbrev pub closed : Written × Store → Written × Store
  closed (w, st) = if fate.close_fails then (failed, st) else (w, st)

  unfoldable pub write_part : FilePath → List ℕ → Store → Written × Store
  unfolding write_chunks
  write_part part chunks st =
      if fate.open_fails
      then (failed, st)
      else closed
          (write_chunks part 0 (keep (λ c. not (c == 0)) chunks) (put m part (part_file 0) st))

  abbrev pub receipt : Name → FilePath → ℕ → Receipt
  receipt filename path size = record {
    stored_as = last_name path;
    original_name = filename;
    rewritten =
        not (same_codes (safe_name filename) filename)
        || not (same_codes (last_name path) (safe_name filename));
    size_bytes = size;
  }

  -- `os.replace(part, target)` and what follows it
  abbrev pub moved : Name → FilePath → ℕ → Store → Stored × Store
  moved filename path size st =
      if fate.replace_fails
      then (raised, st)
      else let st' = put m path (part_file size) (remove m (part_path path) st) in
        if fate.quarantined
        then (upload_error 502, remove m path st')
        else (stored (receipt filename path size), st')

  abbrev pub concluded : Name → FilePath → Written × Store → Stored × Store
  concluded filename path (too_large, st) = (upload_error 413, unlink_quietly (part_path path) st)
  concluded filename path (failed, st) = (upload_error 500, unlink_quietly (part_path path) st)
  concluded filename path (all_written size, st) =
      if size == 0
      then (upload_error 400, unlink_quietly (part_path path) st)
      else moved filename path size st

  abbrev pub store_at : Name → List ℕ → Store → Choice → Stored × Store
  store_at filename chunks st (refused status) = (upload_error status, st)
  store_at filename chunks st (target path) =
      concluded filename path (write_part (part_path path) chunks st)

  unfoldable pub store_stream : List ℕ → Name → Store → Stored × Store
  unfolding write_part upload_target
  store_stream chunks filename st = store_at filename chunks st (upload_target m st filename)

-- The name, size and time of a file in the list.
pub record Entry : Type 0 where
  pub name : Name
  pub size_bytes : ℕ
  pub modified : ℕ

pub data Deleted : Type 0 where
  refused_delete : ℕ → Deleted
  deleted : Deleted

-- An entry put where the newest come first; among equal times the one that was listed first.
abbrev pub by_time : Entry → List Entry → List Entry
by_time e [] = e ∷ []
by_time e (f ∷ es) =
    let rest = by_time e es in if ltb e.modified f.modified then f ∷ rest else e ∷ f ∷ es

abbrev pub is_hidden : Name → Bool
is_hidden name = same_codes name sentinel || ends_with part_suffix name

module _ (m : Mount) where
  abbrev pub listed : FilePath × File → Bool
  listed ([], f) = false
  listed (n ∷ [], f) = not (is_hidden n) && (m.readable (n ∷ []) && f.is_file)
  listed (n ∷ o ∷ p, f) = false

  abbrev pub entry_of : FilePath × File → Entry
  entry_of (p, f) = record { name = last_name p; size_bytes = f.size; modified = f.modified }

  abbrev pub sorted_entries : Store → List Entry
  sorted_entries [] = []
  sorted_entries (e ∷ st) =
      let rest = sorted_entries st in if listed e then by_time (entry_of e) rest else rest

  -- `list_uploads`, none where it refuses with 503
  unfoldable pub list_uploads : Store → Option (List Entry)
  list_uploads st = if is_mounted m st then some (sorted_entries st) else none

  abbrev pub is_file_at : FilePath → Store → Bool
  is_file_at p st = elim (find m p st) [ none ↦ false | some f ↦ f.is_file ]

  abbrev pub delete_at : Bool → Store → Choice → Deleted × Store
  delete_at unlink_fails st (refused status) = (refused_delete status, st)
  delete_at unlink_fails st (target path) =
      if not (is_file_at path st)
      then (refused_delete 404, st)
      else if unlink_fails
      then (refused_delete 500, st)
      else (deleted, remove m path st)

  unfoldable pub delete_upload : Bool → Name → Store → Deleted × Store
  delete_upload unlink_fails name st =
      if not (is_mounted m st)
      then (refused_delete 503, st)
      else delete_at unlink_fails st (resolve_target m name)
