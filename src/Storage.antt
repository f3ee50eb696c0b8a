-- ===== src/Storage.antt =====
-- services/storage_sync.py: the local copy of a user's vault. Texts are lists of code points; the object
-- store is a parameter. The file system keeps different relative paths apart.
pub mod Snapshot
pub mod Tests
use core_heartbeat.Prelude.{
  ℕ, zero, suc, ◌+◌, Bool, true, false, not, ◌&&◌, ◌||◌, Option, none, some, List, [], ◌∷◌, ◌++◌,
  if◌then◌else◌, codes, same_codes, is_empty, drop, length, is_some, ◌>>=◌, all,
}
use core_heartbeat.Vault.{starts_with, ends_with}

abbrev pub Text : Type 0
Text = List ℕ

-- Files by their paths below a user's directory, or entity tags by their keys; the first entry of a
-- key counts.
abbrev pub Table : Type 0 → Type 0
Table A = List (Text × A)

abbrev pub get : {A : Type 0} → Text → Table A → Option A
get k [] = none
get k ((j, v) ∷ rest) = if same_codes j k then some v else get k rest

-- `table[k] = v`, in its place where the key is there.
abbrev pub set : {A : Type 0} → Text → A → Table A → Table A
set k v [] = (k, v) ∷ []
set k v ((j, u) ∷ rest) =
    let later = set k v rest in if same_codes j k then (j, v) ∷ rest else (j, u) ∷ later

-- The local directory of the user, none where there is none, and the listing kept in `_vault_etags`.
pub record Local : Type 0 where
  pub files : Option (Table Text)
  pub etags : Option (Table (Option Text))

-- One answer of `list_objects_v2`: keys with their tags, and the token of the next page where the
-- list is truncated.
pub record Page : Type 0 where
  pub objects : List (Text × Option Text)
  pub is_truncated : Bool
  pub next_token : Option Text

pub record Remote : Type 0 where
  pub list_page : Option Text → Page
  -- the content of an object, none where the download raises
  pub download : Text → Option Text

abbrev pub vault_suffix : Text
vault_suffix = codes ".md"

abbrev pub preferences : Text
preferences = codes "user_preferences.md"

abbrev pub local_or_empty : Option (Table Text) → Table Text
local_or_empty none = []
local_or_empty (some files) = files

abbrev pub kept_profile : Option Text → Table Text
kept_profile none = []
kept_profile (some content) = (preferences, content) ∷ []

-- `_reset_dest`: what it leaves in the directory.
unfoldable pub reset_dest : Option (Table Text) → Table Text
reset_dest files = kept_profile (get preferences (local_or_empty files))

-- `if key`
abbrev pub keyed : List (Text × Option Text) → List (Text × Option Text)
keyed [] = []
keyed ((k, e) ∷ rest) = let later = keyed rest in if is_empty k then later else (k, e) ∷ later

-- `_list_vault_objects`, with at most so many pages; none where there are more.
unfoldable pub list_vault_objects : ℕ → Remote → Option Text → Option (List (Text × Option Text))
list_vault_objects zero r token = none
list_vault_objects (suc fuel) r token =
    let page = r.list_page token in
    let rest = list_vault_objects fuel r page.next_token in
    if page.is_truncated
    then (rest >>= λ more. some (keyed page.objects ++ more))
    else some (keyed page.objects)

-- `dict(pairs)`
unfoldable pub to_table : Table (Option Text) → List (Text × Option Text) → Table (Option Text)
to_table t [] = t
to_table t ((k, e) ∷ rest) = to_table (set k e t) rest

abbrev pub is_tag : Option Text → Bool
is_tag none = false
is_tag (some e) = not (is_empty e)

unfoldable pub etags_available : Table (Option Text) → Bool
etags_available t = not (is_empty t) && all (λ (e : Text × Option Text). is_tag e.1) t

abbrev pub same_tag : Option Text → Option Text → Bool
same_tag none none = true
same_tag none (some b) = false
same_tag (some a) none = false
same_tag (some a) (some b) = same_codes a b

-- Each entry of the one table is an entry of the other.
abbrev pub is_part : Table (Option Text) → Table (Option Text) → Bool
is_part [] b = true
is_part ((k, e) ∷ rest) b =
    elim (get k b) [ none ↦ false | some f ↦ same_tag e f ] && is_part rest b

-- `listing == _vault_etags.get(user_id)`
abbrev pub same_listing : Table (Option Text) → Option (Table (Option Text)) → Bool
same_listing t none = false
same_listing t (some u) = is_part t u && is_part u t

abbrev pub relative : Text → Text → Text
relative prefix key = if starts_with prefix key then drop (length prefix) key else key

-- Whether an object is a note of the vault.
abbrev pub is_note : Text → Text → Bool
is_note prefix key = ends_with vault_suffix key && not (is_empty (relative prefix key))

abbrev pub downloaded :
    (Table Text → Bool × Table Text) → Text → Table Text → Option Text → Bool × Table Text
downloaded later path files none = (false, files)
downloaded later path files (some content) = later (set path content files)

-- The downloads: whether all have returned, and the files.
unfoldable pub download_all : Remote → Text → Table (Option Text) → Table Text → Bool × Table Text
download_all r prefix [] files = (true, files)
download_all r prefix ((k, e) ∷ rest) files =
    let skipped = download_all r prefix rest files in
    if is_note prefix k
    then downloaded (λ files'. download_all r prefix rest files') (relative prefix k) files
        (r.download k)
    else skipped

abbrev pub after_downloads : Table (Option Text) → Local → Bool × Table Text → Bool × Local
after_downloads listing s (false, files) = (false, record s { files = some files })
after_downloads listing s (true, files) = (
  true,
  record { files = some files; etags = if etags_available listing then some listing else s.etags },
)

-- `_sync_from_s3` once the listing is there: whether it returns, and what it leaves.
unfoldable pub sync_listing : Remote → Text → Table (Option Text) → Local → Bool × Local
unfolding etags_available download_all reset_dest
sync_listing r prefix listing s =
    if etags_available listing && same_listing listing s.etags && is_some s.files
    then (true, s)
    else after_downloads listing s (download_all r prefix listing (reset_dest s.files))

abbrev pub with_listing :
    Remote → Text → Local → Option (List (Text × Option Text)) → Option (Bool × Local)
with_listing r prefix s none = none
with_listing r prefix s (some pairs) = some (sync_listing r prefix (to_table [] pairs) s)

unfoldable pub sync_from_s3 : ℕ → Remote → Text → Local → Option (Bool × Local)
unfolding list_vault_objects to_table sync_listing
sync_from_s3 fuel r prefix s = with_listing r prefix s (list_vault_objects fuel r none)

-- The Markdown files of the mock folder, copied in the order in which they are found.
unfoldable pub sync_from_mock : List (Text × Text) → Table Text → Table Text
sync_from_mock [] files = files
sync_from_mock ((p, content) ∷ rest) files = elim (ends_with vault_suffix p) [
  | false ↦ sync_from_mock rest files
  | true ↦ sync_from_mock rest (set p content files)
]

abbrev pub mock_or_none : Option (List (Text × Text)) → List (Text × Text)
mock_or_none none = []
mock_or_none (some files) = files

-- `sync_user_vault`; none where the listing has more pages than `fuel`.
unfoldable pub sync_user_vault :
    Bool → Option (List (Text × Text)) → ℕ → Remote → Text → Local → Option (Bool × Local)
unfolding sync_from_s3 sync_from_mock reset_dest
sync_user_vault is_sandbox mock fuel r user s =
    if is_sandbox
    then some
        (true, record s { files = some (sync_from_mock (mock_or_none mock) (reset_dest s.files)) })
    else sync_from_s3 fuel r (user ++ codes "/") s

-- `upload_user_file`: the object that it writes, if any
unfoldable pub upload_user_file : Bool → Text → Text → Local → Option (Text × Text)
upload_user_file is_sandbox user filename s =
    if is_sandbox
    then none
    else get filename (local_or_empty s.files) >>= λ content.
        some (user ++ (codes "/" ++ filename), content)
