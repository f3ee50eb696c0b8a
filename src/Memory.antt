-- ===== src/Memory.antt =====
-- The memory of a user's preferences in orchestrator.py: `_record_preference` on the profile note, and
-- `extract_and_record_preference` with its write-back. The extraction by a model is an argument.
pub mod Upsert
pub mod Tests
use core_heartbeat.Prelude.{
  ℕ, Bool, false, not, ◌||◌, ◌&&◌, Option, none, some, List, [], ◌∷◌, ◌++◌, keep, is_empty, ◌==◌,
  leb, codes, same_codes, begins_with, if◌then◌else◌,
}

abbrev pub Text : Type 0
Text = List ℕ

-- MemoryExtraction: the score by whether it lies below the threshold and by its two decimals.
pub record Preference : Type 0 where
  pub preference_type : Text
  pub key_insight : Text
  pub value : Text
  pub below_threshold : Bool
  pub confidence : Text

-- What `str.splitlines` takes for a line break.
abbrev pub is_line_break : ℕ → Bool
is_line_break c =
    (leb 10 c && leb c 13) || (leb 28 c && leb c 30) || c == 0x85 || c == 0x2028 || c == 0x2029

-- `s.splitlines()`, after a part of a line, and perhaps after a carriage return, with which a line feed
-- makes one break.
unfoldable pub lines_from : Bool → Text → Text → List Text
lines_from after_cr line [] = if is_empty line then [] else line ∷ []
lines_from after_cr line (c ∷ s) =
    let joined = lines_from false line s in
    let next = lines_from (c == 13) [] s in
    let same = lines_from false (line ++ (c ∷ [])) s in
    if after_cr && c == 10 then joined else if is_line_break c then line ∷ next else same

unfoldable pub splitlines : Text → List Text
unfolding lines_from
splitlines s = lines_from false [] s

abbrev pub bullet_mark : Text
bullet_mark = codes "- "

unfoldable pub bullets : Text → List Text
unfolding splitlines
bullets s = keep (begins_with bullet_mark) (splitlines s)

abbrev pub key_prefix : Preference → Text
key_prefix p =
    codes "- **" ++ (p.preference_type ++ (codes "** | " ++ (p.key_insight ++ codes ":")))

abbrev pub line_of : Preference → Text
line_of p =
    key_prefix p
    ++ (codes " " ++ (p.value ++ (codes " (confidence " ++ (p.confidence ++ codes ")"))))

-- Each bullet with its line feed.
abbrev pub written : List Text → Text
written [] = []
written (b ∷ bs) = b ++ (10 ∷ written bs)

unfoldable pub profile_title : Text
profile_title = codes "# User Preferences"

abbrev pub profile_header : Text
profile_header = profile_title ++ (10 ∷ (10 ∷ []))

abbrev pub existing_note : Option Text → Text
existing_note none = []
existing_note (some t) = t

-- The bullets after the upsert, and the note that is made of them.
unfoldable pub upserted : Preference → Text → List Text
unfolding bullets
upserted p existing =
    keep (λ b. not (begins_with (key_prefix p) b)) (bullets existing) ++ (line_of p ∷ [])

-- `_record_preference`: the new note and the line.
unfoldable pub record_preference : Preference → Option Text → Text × Text
unfolding upserted
record_preference p note = (profile_header ++ written (upserted p (existing_note note)), line_of p)

-- What the task has done: the note if it was written, and how often the upload was tried.
pub record Recorded : Type 0 where
  pub note : Option Text
  pub line : Option Text
  pub uploads : ℕ

abbrev pub not_recorded : Recorded
not_recorded = record { note = none; line = none; uploads = 0 }

-- The upload is tried again once.
abbrev pub uploads_tried : Bool → ℕ
uploads_tried first = if first then 1 else 2

abbrev pub stored : Bool → Text × Text → Bool → Recorded
stored writes (note, line) first =
    if writes
    then record { note = some note; line = some line; uploads = uploads_tried first }
    else not_recorded

abbrev pub is_recordable : (Text → Text → Bool) → Preference → Bool
is_recordable tool_owned p =
    not (same_codes p.preference_type (codes "none") || p.below_threshold)
    && not (tool_owned p.key_insight p.value)

abbrev pub with_preference :
    (Text → Text → Bool) → Option Text → Bool → Bool → Option Preference → Recorded
with_preference tool_owned old writes first none = not_recorded
with_preference tool_owned old writes first (some p) =
    if is_recordable tool_owned p
    then stored writes (record_preference p old) first
    else not_recorded

-- `extract_and_record_preference`, over `is_tool_owned_state`, the present note, whether the note can be
-- written and whether the first upload succeeds, the client and the extraction.
unfoldable pub extract_and_record :
    (Text → Text → Bool) → Option Text → Bool → Bool → Text → Bool → Option Preference → Recorded
unfolding record_preference
extract_and_record tool_owned note writes first reply has_client extracted =
    if is_empty reply || not has_client
    then not_recorded
    else with_preference tool_owned note writes first extracted
