-- ===== src/Vault.antt =====
-- tools/user_vault.py: the notes of a user, and the boundary of the directory that holds them. A path
-- is a list of code points; the operating system is a parameter.
pub mod Contained
pub mod Apart
pub mod Search
pub mod Tests
use core_heartbeat.Prelude.{
  ℕ, zero, suc, ◌+◌, ◌-◌, Bool, true, false, not, ◌&&◌, ◌||◌, ◌==◌, Option, none, some, List, [],
  ◌∷◌, ◌++◌, any, length, is_empty, codes, same_codes, if◌then◌else◌, ltb,
}

-- A path or a name, by code points.
abbrev pub PathText : Type 0
PathText = List ℕ

abbrev pub separator : PathText
separator = codes "/"

abbrev pub max_search_matches : ℕ
max_search_matches = 200

-- `os.path`, the file system, and a compiled query. Reading a file is none where it raises.
pub record Files : Type 0 where
  pub root : PathText
  pub join : PathText → PathText → PathText
  pub realpath : PathText → PathText
  pub dirname : PathText → PathText
  pub is_dir : PathText → Bool
  pub read : PathText → Option (List PathText)
  pub write : PathText → PathText → Bool
  pub walk : PathText → List (PathText × List PathText)
  pub found : PathText → PathText → Bool

-- What an operation asks of the file system.
pub data Access : Type 0 where
  opened : PathText → Access
  written : PathText → Access
  made_dirs : PathText → Access

abbrev pub starts_with : PathText → PathText → Bool
starts_with [] s = true
starts_with (p ∷ ps) [] = false
starts_with (p ∷ ps) (c ∷ s) = p == c && starts_with ps s

abbrev pub reverse_onto : PathText → PathText → PathText
reverse_onto [] s = s
reverse_onto (c ∷ r) s = reverse_onto r (c ∷ s)

-- `s.endswith(suffix)`
abbrev pub ends_with : PathText → PathText → Bool
ends_with suffix s = starts_with (reverse_onto suffix []) (reverse_onto s [])

abbrev pub has_code : ℕ → PathText → Bool
has_code c s = any (λ d. c == d) s

-- `target == base or target.startswith(base + os.sep)`
abbrev pub within : PathText → PathText → Bool
within base target = same_codes target base || starts_with (base ++ separator) target

-- The test of `_user_dir`, where `os.altsep` is None.
unfoldable pub is_valid_user : PathText → Bool
is_valid_user user = not (
    is_empty user
    || same_codes user (codes ".")
    || same_codes user (codes "..")
    || has_code 0 user
    || has_code b'/' user)

module _ (fs : Files) where
  -- None where it raises VaultAccessError.
  unfoldable pub user_dir : PathText → Option PathText
  user_dir user = if is_valid_user user then some (fs.realpath (fs.join fs.root user)) else none

  abbrev pub inside : PathText → PathText → Option PathText
  inside base target = if within base target then some target else none

  abbrev pub resolved : PathText → Option PathText → Option PathText
  resolved filename none = none
  resolved filename (some base) = inside base (fs.realpath (fs.join base filename))

  unfoldable pub resolve_within_vault : PathText → PathText → Option PathText
  unfolding user_dir
  resolve_within_vault user filename =
      if is_empty filename || has_code 0 filename then none else resolved filename (user_dir user)

  -- The result, none where an exception is raised, and the accesses.
  abbrev read_path : Option PathText → Option (List PathText) × List Access
  read_path none = (none, [])
  read_path (some path) = if fs.is_dir path then (none, []) else (fs.read path, opened path ∷ [])

  unfoldable pub read_note : PathText → PathText → Option (List PathText) × List Access
  unfolding resolve_within_vault
  read_note user filename = read_path (resolve_within_vault user filename)

  abbrev write_path : PathText → Option PathText → Option PathText × List Access
  write_path content none = (none, [])
  write_path content (some path) = (
    (if fs.write path content then some path else none),
    made_dirs (fs.dirname path) ∷ written path ∷ [],
  )

  unfoldable pub write_note : PathText → PathText → PathText → Option PathText × List Access
  unfolding resolve_within_vault
  write_note user filename content = write_path content (resolve_within_vault user filename)

  -- The hits in the lines of a file, at most `room` of them: the file and the line's number.
  unfoldable pub hits_in : PathText → PathText → ℕ → ℕ → List PathText → List (PathText × ℕ)
  hits_in query file zero n lines = []
  hits_in query file (suc room) n [] = []
  hits_in query file (suc room) n (l ∷ lines) =
      let later = hits_in query file room (n + 1) lines in
      let skipped = hits_in query file (suc room) (n + 1) lines in
      if fs.found query l then (file, n) ∷ later else skipped

  abbrev lines_of : Option (List PathText) → List PathText
  lines_of none = []
  lines_of (some lines) = lines

  -- The search through the files of the walk, until there is no room for another hit.
  unfoldable pub search_files :
      PathText → PathText → ℕ → List PathText → List (PathText × ℕ) × List Access
  unfolding hits_in
  search_files query base room [] = ([], [])
  search_files query base zero (f ∷ fs') = ([], [])
  search_files query base (suc room) (f ∷ fs') =
      let full = fs.realpath f in
      let hits = hits_in query full (suc room) 1 (lines_of (fs.read full)) in
      let skipped = search_files query base (suc room) fs' in
      let (more, later) = search_files query base (suc room - length hits) fs' in
      if within base full then (hits ++ more, opened full ∷ later) else skipped

  -- The Markdown files of a directory, and of a walk.
  abbrev pub join_all : PathText → List PathText → List PathText
  join_all dir [] = []
  join_all dir (n ∷ names) =
      let rest = join_all dir names in
      if ends_with (codes ".md") n then fs.join dir n ∷ rest else rest

  abbrev pub walked : List (PathText × List PathText) → List PathText
  walked [] = []
  walked ((dir, names) ∷ rest) = join_all dir names ++ walked rest

  abbrev searched : List (PathText × ℕ) × List Access → Option (List (PathText × ℕ)) × List Access
  searched (hits, accesses) = (some hits, accesses)

  abbrev search_dir : PathText → Option PathText → Option (List (PathText × ℕ)) × List Access
  unfolding search_files
  search_dir query none = (none, [])
  search_dir query (some base) =
      if fs.is_dir base
      then searched (search_files query base max_search_matches (walked (fs.walk base)))
      else (some [], [])

  unfoldable pub search_vault : PathText → PathText → Option (List (PathText × ℕ)) × List Access
  unfolding user_dir search_dir
  search_vault user query = search_dir query (user_dir user)
