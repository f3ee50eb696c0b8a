-- ===== src/Memory/Tests.antt =====
-- Runs of the memory of preferences, and the witness of the theorem on it.
use core_heartbeat.Prelude.{String, true, false, ◌≡◌, refl, [], ◌∷◌, ◌++◌, codes, keep, some, none}
use core_heartbeat.Memory.{
  upserted, lines_from, Text, Preference, splitlines, bullets, line_of, record_preference,
  extract_and_record, not_recorded, profile_title,
}
use core_heartbeat.Memory.Upsert.{other_than, profile, record_preference-profile}

abbrev sector : String → Preference
sector v = record {
  preference_type = codes "s";
  key_insight = codes "k";
  value = codes v;
  below_threshold = false;
  confidence = codes "0.9";
}

-- A note with the key, a line that is no bullet and another key.
abbrev old_note : Text
old_note = codes "# U\r\n- **s** | k: a\nx\n- **t** | j: b\n"

read_lines : splitlines (codes "a\r\nb\n\nc") ≡ codes "a" ∷ (codes "b" ∷ ([] ∷ (codes "c" ∷ [])))
unfolding splitlines lines_from
read_lines = refl

recorded_note :
    (record_preference (sector "z") (some old_note)).0
    ≡ codes "# User Preferences\n\n- **t** | j: b\n- **s** | k: z (confidence 0.9)\n"
unfolding record_preference upserted bullets splitlines lines_from profile_title
recorded_note = refl

-- State that a tool owns is not recorded, however sure the model is.
tool_owned_refused :
    extract_and_record (λ key value. true) none true true (codes "ok") true (some (sector "z"))
    ≡ not_recorded
unfolding extract_and_record
tool_owned_refused = refl

-- A value with a line break is cut at the break when the note is read again.
cut_value : bullets ((record_preference (sector "z\ny") none).0) ≡ codes "- **s** | k: z" ∷ []
unfolding record_preference upserted bullets splitlines lines_from profile_title
cut_value = refl

-- A key that another key begins with takes the bullets of the other one out, too.
abbrev longer_key : Preference
longer_key = record {
  preference_type = codes "s";
  key_insight = codes "k: m";
  value = codes "v";
  below_threshold = false;
  confidence = codes "0.9";
}

longer_key_lost :
    bullets ((record_preference (sector "z") (some ((record_preference longer_key none).0))).0)
    ≡ line_of (sector "z") ∷ []
unfolding record_preference upserted bullets splitlines lines_from profile_title
longer_key_lost = refl

abbrev risk : Preference
risk = record {
  preference_type = codes "r";
  key_insight = codes "k";
  value = codes "low";
  below_threshold = false;
  confidence = codes "0.8";
}

record_preference-profile_example :
    (record_preference (sector "z") (some (profile (sector "y" ∷ risk ∷ []))) ≡ (
      profile (keep (other_than (sector "z")) (sector "y" ∷ risk ∷ []) ++ (sector "z" ∷ [])),
      line_of (sector "z"),
    ))
    × (record_preference (sector "z") none ≡ (profile (sector "z" ∷ []), line_of (sector "z")))
record_preference-profile_example =
    record_preference-profile (sector "z") (sector "y" ∷ risk ∷ []) refl refl

-- The old value of the key is gone, and the other type is kept.
one_replaced :
    keep (other_than (sector "z")) (sector "y" ∷ risk ∷ []) ++ (sector "z" ∷ [])
    ≡ risk ∷ sector "z" ∷ []
one_replaced = refl
