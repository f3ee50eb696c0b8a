-- ===== src/Storage/Tests.antt =====
-- Witnesses of the theorems on services/storage_sync.py: a vault of one note, synced over local files.
use core_heartbeat.Prelude.{
  ◌≡◌, refl, true, false, Option, none, some, [], ◌∷◌, codes, same_codes, if◌then◌else◌,
}
use core_heartbeat.Storage.{
  Text, Table, get, Local, Remote, local_or_empty, preferences, sync_listing, download_all,
  etags_available, reset_dest,
}
use core_heartbeat.Storage.Snapshot.{sync_listing-other}

abbrev listing : Table (Option Text)
listing = (codes "ana/plan.md", some (codes "t1")) ∷ (codes "ana/pic.png", some (codes "t2")) ∷ []

abbrev bucket : Remote
bucket = record {
  list_page = λ token. record {
    objects = listing;
    is_truncated = elim token [ none ↦ true | some t ↦ false ];
    next_token = some (codes "2");
  };
  download = λ key. some (codes "buy");
}

abbrev before : Local
before = record {
  files = some ((preferences, codes "terse") ∷ (codes "draft.md", codes "sell") ∷ []);
  etags = none;
}

abbrev after : Local
after = record {
  files = some ((preferences, codes "terse") ∷ (codes "plan.md", codes "buy") ∷ []);
  etags = some listing;
}

sync_listing-other_example : get (codes "draft.md") (local_or_empty after.files) ≡ (
    if same_codes preferences (codes "draft.md")
    then get preferences (local_or_empty before.files)
    else none)
unfolding sync_listing download_all etags_available reset_dest
sync_listing-other_example =
    sync_listing-other bucket (codes "ana/") (codes "draft.md") listing before after refl refl refl
