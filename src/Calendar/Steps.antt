-- ===== src/Calendar/Steps.antt =====
-- tools/google_calendar.py: what the four tools share: their arguments, the requests that they make one
-- after another, the zone of the calendar, and the window of a list.
use core_heartbeat.Prelude.{
  ℕ, zero, suc, Bool, not, ◌&&◌, ◌||◌, Option, none, some, List, [], ◌∷◌, ◌++◌, if◌then◌else◌, leb,
  codes, is_empty, is_space, strip,
}
use core_heartbeat.Calendar.Dates.{Text}
use core_heartbeat.Calendar.Events.{Event, fmt_events, or_text}
use core_heartbeat.Calendar.Service.{
  World, Outcome, ok, not_connected, calendar_error, http_status, crashed, Request, get_calendar,
  Sent, Response, access_token, cal,
}

-- The argument for the number of results, as `int` reads it: missing or no number, or below 0.
pub data Count : Type 0 where
  missing : Count
  negative : Count
  count : ℕ → Count

-- The arguments of a call; a text that is left out is empty.
pub record Args : Type 0 where
  pub query : Text
  pub time_min : Text
  pub time_max : Text
  pub max_results : Count
  pub summary : Text
  pub description : Text
  pub location : Text
  pub start : Text
  pub end : Text
  pub event_id : Text

abbrev pub Run : Type 0
Run = Outcome Text × List Sent

abbrev pub max_results_cap : ℕ
max_results_cap = 50

abbrev pub default_window_days : ℕ
default_window_days = 7

abbrev pub search_window_days : ℕ
search_window_days = 180

-- `max(1, min(max_results, MAX_RESULTS_CAP))`
unfoldable pub result_limit : Count → ℕ
result_limit missing = 25
result_limit negative = 1
result_limit (count zero) = 25
result_limit (count (suc n)) = if leb (suc n) max_results_cap then suc n else max_results_cap

abbrev pub given : Text → Option Text
given t = if is_empty t then none else some t

abbrev pub first_event : List Event → Event
first_event [] = record {
  id = codes "None";
  summary = [];
  location = [];
  start_date_time = [];
  start_date = [];
  end_date_time = [];
  end_date = [];
}
first_event (e ∷ es) = e

abbrev pub overflow_error : Outcome Text
overflow_error = crashed (codes "OverflowError: date value out of range")

abbrev pub prefixed : Text → Option Text → Outcome Text
prefixed start none = overflow_error
prefixed start (some t) = ok (start ++ t)

module _ (w : World) where
  -- The rest of a tool after the token, and after a request.
  abbrev pub after_token : (Text → Run) → Outcome Text → Run
  after_token f (ok token) = f token
  after_token f not_connected = (not_connected, [])
  after_token f (calendar_error t) = (calendar_error t, [])
  after_token f (http_status n) = (http_status n, [])
  after_token f (crashed t) = (crashed t, [])

  abbrev pub with_token : Text → (Text → Run) → Run
  with_token user f = after_token f (access_token w user)

  abbrev pub after_response : (Response → Outcome Text) → Outcome Response → Outcome Text
  after_response f (ok r) = f r
  after_response f not_connected = not_connected
  after_response f (calendar_error t) = calendar_error t
  after_response f (http_status n) = http_status n
  after_response f (crashed t) = crashed t

  abbrev pub send : Text → Request → (Response → Outcome Text) → Run
  send token request f =
      let s : Sent = record { token = token; request = request } in
      (after_response f (cal w s), s ∷ [])

  abbrev pub zone_or_utc : Outcome Response → Text
  zone_or_utc (ok r) = or_text r.time_zone (codes "UTC")
  zone_or_utc not_connected = codes "UTC"
  zone_or_utc (calendar_error t) = codes "UTC"
  zone_or_utc (http_status n) = codes "UTC"
  zone_or_utc (crashed t) = codes "UTC"

  abbrev pub zone_request : Text → Sent
  zone_request token = record { token = token; request = get_calendar }

  -- `_calendar_tz`
  unfoldable pub calendar_tz : Text → Text
  calendar_tz token = zone_or_utc (cal w (zone_request token))

  -- A run that has asked for the zone first.
  abbrev pub asked_zone : Text → Run → Run
  asked_zone token (outcome, sent) = (outcome, zone_request token ∷ sent)

  abbrev pub needs_zone : Text → Bool
  needs_zone value =
      let v = strip is_space value in not (is_empty value) && not (w.has_zone v) && w.is_iso v

  unfoldable pub to_rfc3339 : Text → Text → Text → Text
  to_rfc3339 value default tz =
      let v = strip is_space value in
      if is_empty value
      then default
      else if w.has_zone v || not (w.is_iso v)
      then v
      else w.with_zone v tz

  abbrev pub listed : Option Text → Outcome Text
  listed none = overflow_error
  listed (some t) = ok t

  abbrev pub listing : Response → Outcome Text
  listing r =
      if is_empty r.events
      then ok (codes "No events found in that window.")
      else listed (fmt_events r.events)
