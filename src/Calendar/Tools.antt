-- ===== src/Calendar/Tools.antt =====
-- tools/google_calendar.py: the four tools and their dispatch. A tool returns how it ends with the
-- requests to Google that it has made.
use core_heartbeat.Prelude.{
  ◌+◌, ◌*◌, Bool, true, false, not, ◌||◌, Option, none, some, List, [], ◌++◌, if◌then◌else◌, codes,
  is_empty, same_codes, decimal,
}
use core_heartbeat.Calendar.Dates.{Text}
use core_heartbeat.Calendar.Events.{TimeField, time_field, fmt_event}
use core_heartbeat.Calendar.Service.{
  World, Outcome, ok, not_connected, calendar_error, http_status, crashed, Body, Request, list,
  insert, patch, delete, Sent,
}
use core_heartbeat.Calendar.Steps.{
  Args, Run, default_window_days, search_window_days, result_limit, given, first_event,
  overflow_error, prefixed, with_token, send, calendar_tz, asked_zone, needs_zone, to_rfc3339,
  listing,
}

module _ (w : World) where
  abbrev pub list_request : Text → Args → Request
  list_request token args =
      let days = if is_empty args.query then default_window_days else search_window_days in
      let tz = calendar_tz w token in
      list (to_rfc3339 w args.time_min (w.rfc3339 w.now) tz)
        (to_rfc3339 w args.time_max (w.rfc3339 (w.now + days * 86400)) tz)
        (result_limit args.max_results) args.query

  abbrev pub if_zoned : Bool → Text → Run → Run
  if_zoned zoned token run = if zoned then asked_zone w token run else run

  unfoldable pub list_events : Text → Args → Run
  unfolding to_rfc3339 calendar_tz result_limit
  list_events user args = with_token w user (λ token.
      if_zoned (needs_zone w args.time_min || needs_zone w args.time_max) token
        (send w token (list_request token args) (listing w)))

  abbrev pub new_body : Args → Body
  new_body args = record {
    summary = some args.summary;
    description = given args.description;
    location = given args.location;
    start = none;
    end = none;
  }

  abbrev pub created : Text → Body → Option TimeField → Option TimeField → Run
  created token body (some start) (some end) =
      send w token (insert (record body { start = some start; end = some end }))
        (λ r. prefixed (codes "Created event: ") (fmt_event (first_event r.events)))
  created token body none end = (overflow_error, [])
  created token body (some start) none = (overflow_error, [])

  unfoldable pub create_event : Text → Args → Run
  unfolding calendar_tz time_field
  create_event user args = with_token w user (λ token.
      if is_empty args.summary || is_empty args.start || is_empty args.end
      then (ok (codes "error: create_calendar_event needs summary, start, and end (ISO 8601)."), [])
      else asked_zone w token (
          created token (new_body args) (time_field args.start (calendar_tz w token) false)
            (time_field args.end (calendar_tz w token) true)))

  -- A time that is left out, or the field of it; none where the date overflows.
  abbrev pub changed : Text → Text → Bool → Option (Option TimeField)
  changed value tz is_end =
      if is_empty value
      then some none
      else elim (time_field value tz is_end) [ none ↦ none | some f ↦ some (some f) ]

  abbrev pub patched : Text → Args → Option (Option TimeField) → Option (Option TimeField) → Run
  patched token args (some start) (some end) =
      send w token
        (patch args.event_id (record {
          summary = given args.summary;
          description = given args.description;
          location = given args.location;
          start = start;
          end = end;
        }))
        (λ r. prefixed (codes "Updated event: ") (fmt_event (first_event r.events)))
  patched token args none end = (overflow_error, [])
  patched token args (some start) none = (overflow_error, [])

  abbrev pub has_times : Args → Bool
  has_times args = not (is_empty args.start) || not (is_empty args.end)

  abbrev pub has_texts : Args → Bool
  has_texts args =
      not (is_empty args.summary) || not (is_empty args.description) || not (is_empty args.location)

  unfoldable pub update_event : Text → Args → Run
  unfolding calendar_tz time_field
  update_event user args = with_token w user (λ token.
      if is_empty args.event_id
      then (
        ok (
            codes
              "error: update_calendar_event needs event_id (find it with list_calendar_events first)."),
        [],
      )
      else if has_times args
      then asked_zone w token (
          patched token args (changed args.start (calendar_tz w token) false)
            (changed args.end (calendar_tz w token) true))
      else if has_texts args
      then patched token args (some none) (some none)
      else (
        ok (
            codes
              "error: nothing to update — provide a field to change (summary/start/end/location/description)."),
        [],
      ))

  unfoldable pub delete_event : Text → Args → Run
  delete_event user args = with_token w user (λ token.
      if is_empty args.event_id
      then (
        ok (
            codes
              "error: delete_calendar_event needs event_id (find it with list_calendar_events first)."),
        [],
      )
      else send w token (delete args.event_id)
          (λ r. ok (codes "Deleted event [id: " ++ (args.event_id ++ codes "]."))))

  -- What `run_calendar_tool` makes of the end of a tool.
  abbrev pub answered : Outcome Text → Text
  answered (ok t) = t
  answered not_connected =
      codes
        "Google Calendar isn't connected (or access expired). Open Settings → Integrations and connect it, then try again."
  answered (calendar_error t) = codes "error: " ++ t
  answered (http_status n) = codes "error: Google Calendar returned " ++ codes (decimal n)
  answered (crashed t) = codes "error: " ++ t

  abbrev pub said : Run → Text × List Sent
  said (outcome, sent) = (answered outcome, sent)

  unfoldable pub run_calendar_tool : Text → Text → Args → Text × List Sent
  unfolding list_events create_event update_event delete_event
  run_calendar_tool name user args =
      if same_codes name (codes "list_calendar_events")
      then said (list_events user args)
      else if same_codes name (codes "create_calendar_event")
      then said (create_event user args)
      else if same_codes name (codes "update_calendar_event")
      then said (update_event user args)
      else if same_codes name (codes "delete_calendar_event")
      then said (delete_event user args)
      else (codes "error: unknown tool " ++ w.repr name, [])
