-- ===== src/Uploads/Folder.antt =====
-- services/uploads.py: the folder on the disk, the choice of a file's path, and the limits on space. A
-- path is the list of its names below the folder; the mount and the environment are parameters.
use core_heartbeat.Prelude.{
  ℕ, zero, suc, ◌+◌, Bool, false, not, ◌&&◌, ◌||◌, Option, none, some, List, [], ◌∷◌, ◌++◌, codes,
  same_codes, if◌then◌else◌, leb, ltb, is_some, decimal,
}
use core_heartbeat.Uploads.Name.{Name, is_dot, safe_name}

abbrev pub FilePath : Type 0
FilePath = List Name

pub record File : Type 0 where
  pub size : ℕ
  pub modified : ℕ
  pub is_file : Bool

-- The folder's tree: its entries by their paths.
abbrev pub Store : Type 0
Store = List (FilePath × File)

-- The mount, and the settings that are read from the environment.
pub record Mount : Type 0 where
  -- whether the file system takes two paths for one: it does not tell cases apart
  pub same : FilePath → FilePath → Bool
  -- the resolved root, and `(root / name).resolve()`, each from the root of the file system
  pub root : FilePath
  pub resolve : Name → FilePath
  -- whether `stat` works on an entry
  pub readable : FilePath → Bool
  -- `shutil.disk_usage(root).free`, none where it raises
  pub free : Option ℕ
  pub max_upload_bytes : ℕ
  pub total_budget_bytes : ℕ
  pub free_space_floor : ℕ

-- The part of a path below a directory, none where the path is not `is_relative_to` it.
unfoldable pub below : FilePath → FilePath → Option FilePath
below [] p = some p
below (r ∷ rs) [] = none
below (r ∷ rs) (n ∷ p) = let rest = below rs p in if same_codes r n then rest else none

-- A refusal is an UploadError with its status.
pub data Choice : Type 0 where
  refused : ℕ → Choice
  target : FilePath → Choice

abbrev pub sentinel : Name
sentinel = codes ".uploads-root"

abbrev pub part_suffix : Name
part_suffix = codes ".part"

abbrev pub last_name : FilePath → Name
last_name [] = []
last_name (n ∷ []) = n
last_name (n ∷ m ∷ p) = last_name (m ∷ p)

-- `path.with_name(name)`
abbrev pub with_name : Name → FilePath → FilePath
with_name name [] = name ∷ []
with_name name (n ∷ []) = name ∷ []
with_name name (n ∷ m ∷ p) = n ∷ with_name name (m ∷ p)

-- Where the last dot of a name is: the stem before it and the suffix from it on.
abbrev pub push_stem : ℕ → Name × Name → Name × Name
push_stem c (stem, suffix) = (c ∷ stem, suffix)

abbrev pub has_dot : Name → Bool
has_dot [] = false
has_dot (c ∷ s) = is_dot c || has_dot s

abbrev pub at_last_dot : Name → Name × Name
at_last_dot [] = ([], [])
at_last_dot (c ∷ s) =
    let rest = at_last_dot s in
    if is_dot c && not (has_dot s) then ([], c ∷ s) else push_stem c rest

-- A dot at the front or at the end begins no suffix.
abbrev pub suffix_or_none : Name → Name × Name → Name × Name
suffix_or_none name ([], suffix) = (name, [])
suffix_or_none name (c ∷ stem, []) = (name, [])
suffix_or_none name (c ∷ stem, d ∷ []) = (name, [])
suffix_or_none name (c ∷ stem, d ∷ e ∷ suffix) = (c ∷ stem, d ∷ e ∷ suffix)

-- `path.stem` and `path.suffix`
unfoldable pub stem_and_suffix : Name → Name × Name
stem_and_suffix name = suffix_or_none name (at_last_dot name)

abbrev pub numbered_name : ℕ → Name × Name → Name
numbered_name n (stem, suffix) =
    stem ++ (codes " (" ++ (codes (decimal n) ++ (codes ")" ++ suffix)))

module _ (m : Mount) where
  abbrev pub find : FilePath → Store → Option File
  find p [] = none
  find p ((q, f) ∷ rest) = if m.same q p then some f else find p rest

  abbrev pub remove : FilePath → Store → Store
  remove p [] = []
  remove p ((q, f) ∷ rest) =
      let others = remove p rest in if m.same q p then others else (q, f) ∷ others

  abbrev pub put : FilePath → File → Store → Store
  put p f st = (p, f) ∷ remove p st

  abbrev pub exists_at : FilePath → Store → Bool
  exists_at p st = is_some (find p st)

  -- Whether the folder is the mounted one.
  abbrev pub is_mounted : Store → Bool
  is_mounted st = exists_at (sentinel ∷ []) st

  abbrev pub checked_target : Option FilePath → Choice
  checked_target none = refused 400
  checked_target (some []) = refused 400
  checked_target (some (n ∷ p)) =
      if same_codes (last_name (n ∷ p)) sentinel then refused 400 else target (n ∷ p)

  unfoldable pub resolve_target : Name → Choice
  unfolding below
  resolve_target name = checked_target (below m.root (m.resolve name))

  -- The names from a number on that are tried, `left` of them.
  unfoldable pub numbered_target : ℕ → ℕ → FilePath → Store → Choice
  unfolding stem_and_suffix
  numbered_target zero n path st = refused 409
  numbered_target (suc left) n path st =
      let later = numbered_target left (suc n) path st in
      let candidate = with_name (numbered_name n (stem_and_suffix (last_name path))) path in
      if exists_at candidate st then later else target candidate

  unfoldable pub unique_target : Store → Choice → Choice
  unfolding numbered_target
  unique_target st (refused status) = refused status
  unique_target st (target path) =
      if exists_at path st then numbered_target 998 2 path st else target path

  abbrev pub size_in : FilePath × File → ℕ
  size_in (n ∷ [], f) = if f.is_file && m.readable (n ∷ []) then f.size else 0
  size_in ([], f) = 0
  size_in (n ∷ o ∷ p, f) = 0

  -- The files of the folder itself, those below it left out.
  abbrev pub dir_size : Store → ℕ
  dir_size [] = 0
  dir_size (e ∷ st) = size_in e + dir_size st

  abbrev pub lacks_space : Option ℕ → Bool
  lacks_space none = false
  lacks_space (some free) = ltb free m.free_space_floor

  -- `guard_capacity`: whether it refuses with 507
  unfoldable pub is_over_capacity : Store → Bool
  is_over_capacity st = lacks_space m.free || leb m.total_budget_bytes (dir_size st)

  -- The path that an upload under a name gets, after every refusal that comes before the first write.
  unfoldable pub upload_target : Store → Name → Choice
  unfolding is_over_capacity unique_target resolve_target safe_name
  upload_target st filename =
      if not (is_mounted st)
      then refused 503
      else if is_over_capacity st
      then refused 507
      else unique_target st (resolve_target (safe_name filename))
