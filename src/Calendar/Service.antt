-- ===== src/Calendar/Service.antt =====
-- tools/google_calendar.py: the access token of a user, and the requests to Google with it.
use core_heartbeat.Prelude.{
  ltb, ℕ, ◌+◌, Bool, ◌||◌, ◌==◌, Option, none, some, List, [], ◌++◌, if◌then◌else◌, leb, codes,
  is_empty, same_codes, decimal,
}
use core_heartbeat.Calendar.Dates.{Text}
use core_heartbeat.Calendar.Events.{TimeField, Event}

-- How a step of a tool ends: a value, NotConnected, CalendarError with its text, a status that
-- `raise_for_status` raises, or another exception as `type: text`.
pub data Outcome (A : Type 0) : Type 0 where
  ok : A → Outcome A
  not_connected : Outcome A
  calendar_error : Text → Outcome A
  http_status : ℕ → Outcome A
  crashed : Text → Outcome A

-- The stored expiry: missing or no date, null, a date without a zone, or a time in seconds.
pub data Expiry : Type 0 where
  unknown : Expiry
  null : Expiry
  naive : Expiry
  at_time : ℕ → Expiry

pub record Credentials : Type 0 where
  pub access_token : Text
  pub refresh_token : Text
  pub expiry : Expiry

-- Google's answer to a refresh: its status, and the new token with its lifetime in seconds.
pub record Refreshed : Type 0 where
  pub status : ℕ
  pub access_token : Text

-- The fields of an event that a request sets.
pub record Body : Type 0 where
  pub summary : Option Text
  pub description : Option Text
  pub location : Option Text
  pub start : Option TimeField
  pub end : Option TimeField

pub data Request : Type 0 where
  get_calendar : Request
  list : Text → Text → ℕ → Text → Request
  insert : Body → Request
  patch : Text → Body → Request
  delete : Text → Request

-- A request with the token that it is made with.
pub record Sent : Type 0 where
  pub token : Text
  pub request : Request

-- An answer: its status, the reason and the message of an error body, and what the body holds.
pub record Response : Type 0 where
  pub status : ℕ
  pub reason : Text
  pub message : Text
  pub time_zone : Text
  pub events : List Event

pub record World : Type 0 where
  -- the row of a user in `google_credentials`
  pub credentials : Text → Outcome (Option Credentials)
  pub oauth_configured : Bool
  -- the answer to a refresh token, and whether the request that keeps the new token raises
  pub refresh : Text → Outcome Refreshed
  pub save_raises : Option Text
  -- the calendar's service, by the request with its token
  pub google : Sent → Outcome Response
  pub now : ℕ
  -- `repr` of a text
  pub repr : Text → Text
  -- `_rfc3339` of a time; `_HAS_TZ`, whether `datetime.fromisoformat` reads a text, and its value in
  -- a zone or the text itself where that fails
  pub rfc3339 : ℕ → Text
  pub has_zone : Text → Bool
  pub is_iso : Text → Bool
  pub with_zone : Text → Text → Text

abbrev pub expiry_buffer_s : ℕ
expiry_buffer_s = 60

-- The rest of a tool after a step that may have failed.
infixl 2 ◌then_do◌
abbrev pub ◌then_do◌ : {A B : Type 0} → Outcome A → (A → Outcome B) → Outcome B
ok a then_do f = f a
not_connected then_do f = not_connected
calendar_error t then_do f = calendar_error t
http_status n then_do f = http_status n
crashed t then_do f = crashed t

module _ (w : World) where
  abbrev pub kept : Text → Option Text → Outcome Text
  kept token none = ok token
  kept token (some error) = crashed error

  -- `_refresh`, after the answer
  abbrev pub refreshed : Refreshed → Outcome Text
  refreshed r =
      if r.status == 400 || r.status == 401
      then not_connected
      else if ltb r.status 200 || leb 300 r.status
      then http_status r.status
      else kept r.access_token w.save_raises

  unfoldable pub refresh_token : Credentials → Outcome Text
  refresh_token c =
      if w.oauth_configured
      then w.refresh c.refresh_token then_do refreshed
      else calendar_error (codes "Google OAuth is not configured (missing client id/secret)")

  abbrev pub by_expiry : Credentials → Expiry → Outcome Text
  by_expiry c unknown = refresh_token c
  by_expiry c null = crashed (codes "TypeError: fromisoformat: argument must be str")
  by_expiry c naive =
      crashed (codes "TypeError: can't compare offset-naive and offset-aware datetimes")
  by_expiry c (at_time t) =
      if leb t (w.now + expiry_buffer_s) then refresh_token c else ok c.access_token

  abbrev pub token_of : Option Credentials → Outcome Text
  token_of none = not_connected
  token_of (some c) = by_expiry c c.expiry

  unfoldable pub access_token : Text → Outcome Text
  unfolding refresh_token
  access_token user = w.credentials user then_do token_of

  -- `_FORBIDDEN_GUIDANCE`
  abbrev pub guidance : Text → Option Text
  guidance reason =
      if same_codes reason (codes "insufficientPermissions")
      then some (
          codes
            "Google Calendar refused the request because the connection doesn't grant calendar access. Open Settings → Integrations, disconnect Google Calendar, then connect it again and accept the calendar permission.")
      else if same_codes reason (codes "forbiddenForNonOrganizer")
      then some (
          codes
            "Google Calendar won't allow that change because you aren't the event's organiser. Ask the organiser to change it, or add your own copy instead.")
      else if same_codes reason (codes "requiredAccessLevel")
      then some (codes "That calendar is shared with you read-only, so it can't be changed here.")
      else if same_codes reason (codes "rateLimitExceeded")
          || same_codes reason (codes "userRateLimitExceeded")
      then some (codes "Google Calendar is rate-limiting requests. Try again shortly.")
      else if same_codes reason (codes "dailyLimitExceeded")
      then some (
          codes
            "The Google Calendar daily quota for this app is used up. It resets at midnight Pacific time.")
      else if same_codes reason (codes "quotaExceeded")
      then some (codes "The Google Calendar quota for this app is used up. Try again later.")
      else none

  abbrev pub denied : Text → Option Text → Text
  denied message (some g) = g
  denied message none =
      codes "Google Calendar denied the request"
      ++ ((if is_empty message then [] else codes " (" ++ (message ++ codes ")")) ++ codes ".")

  unfoldable pub explain_status : Response → Text
  explain_status r =
      if r.status == 403
      then denied r.message (guidance r.reason)
      else if r.status == 404 || r.status == 410
      then codes
          "That calendar event no longer exists — it may already have been deleted or changed. Try listing your events again to get the current ones."
      else if r.status == 409
      then codes "That calendar event conflicts with an existing one."
      else if leb 500 r.status
      then codes "Google Calendar is having trouble right now. Try again shortly."
      else codes "Google Calendar returned "
        ++ (codes (decimal r.status)
            ++ (if is_empty r.message then [] else codes ": " ++ r.message))

  abbrev pub checked : Response → Outcome Response
  checked r =
      if r.status == 401
      then not_connected
      else if leb 400 r.status
      then calendar_error (explain_status r)
      else ok r

  -- `_cal`
  unfoldable pub cal : Sent → Outcome Response
  unfolding explain_status
  cal s = w.google s then_do checked
