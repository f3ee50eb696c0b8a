-- ===== src/Calendar/Tests.antt =====
-- Witnesses of the theorems on tools/google_calendar.py.
use core_heartbeat.Prelude.{◌≡◌, refl, true, false, none, some, [], ◌∷◌, codes, is_space}
use core_heartbeat.Calendar.Dates.{Date, next_day, iso, strptime}
use core_heartbeat.Calendar.Events.{Event, text, shown_end, time_field, is_all_day, shift}
use core_heartbeat.Calendar.Service.{World, ok, at_time, access_token}
use core_heartbeat.Calendar.Steps.{Args, Count}
use core_heartbeat.Calendar.AllDay.{all_day_end}

abbrev week_off : Event
week_off = record {
  id = codes "e1";
  summary = codes "Week off";
  location = [];
  start_date_time = [];
  start_date = codes "2026-12-28";
  end_date_time = [];
  end_date = codes "2027-01-01";
}

abbrev service : World
service = record {
  credentials = λ user. ok (
      some
        (record { access_token = codes "old"; refresh_token = codes "r"; expiry = at_time 100 }));
  oauth_configured = true;
  refresh = λ token. ok (record { status = 200; access_token = codes "new" });
  save_raises = none;
  google = λ s. ok (record {
    status = 200;
    reason = [];
    message = [];
    time_zone = codes "Europe/Berlin";
    events = week_off ∷ [];
  });
  now = 90;
  repr = λ t. t;
  rfc3339 = λ t. codes "2026-12-01T00:00:00+00:00";
  has_zone = λ t. false;
  is_iso = λ t. true;
  with_zone = λ t zone. t;
}

abbrev new_week : Args
new_week = record {
  query = [];
  time_min = [];
  time_max = [];
  max_results = Count.missing;
  summary = codes "Week off";
  description = [];
  location = [];
  start = codes "2026-12-28";
  end = codes "2026-12-31";
  event_id = [];
}

abbrev last_day : Date
last_day = record { year = 2026; month = 12; day = 31 }

abbrev day_after : Date
day_after = record { year = 2027; month = 1; day = 1 }

all_day_end_example :
    (week_off.end_date ≡ iso day_after) × (shown_end week_off ≡ text (iso last_day))
unfolding next_day time_field is_all_day shift strptime iso is_space
all_day_end_example = all_day_end last_day day_after (codes "UTC") week_off refl refl refl refl
