-- ===== src/Calendar/Tokens.antt =====
-- With which token the tools of tools/google_calendar.py act, and what they ask for without one.
use core_heartbeat.Prelude.{◌≡◌, false, List, [], ◌∷◌, is_empty, ◌≤◌}
use core_heartbeat.Calendar.Dates.{Text}
use core_heartbeat.Calendar.Service.{
  World, Outcome, ok, not_connected, calendar_error, http_status, crashed, Request, get_calendar,
  list, insert, patch, delete, Sent,
}
use core_heartbeat.Calendar.Steps.{Run, Args}

-- What a tool may ask for: a list of at most 50 results, or a change of the event that the arguments
-- name.
abbrev pub IsAsked : Args → Request → Type 0
IsAsked args get_calendar = Unit
IsAsked args (list from to n query) = (1 ≤ n) × (n ≤ 50)
IsAsked args (insert body) = is_empty args.summary ≡ false
IsAsked args (patch id body) = (id ≡ args.event_id) × (is_empty args.event_id ≡ false)
IsAsked args (delete id) = (id ≡ args.event_id) × (is_empty args.event_id ≡ false)

abbrev pub AllAsked : Text → Args → List Sent → Type 0
AllAsked token args [] = Unit
AllAsked token args (s ∷ ss) = ((s.token ≡ token) × IsAsked args s.request) × AllAsked token args ss

-- No request, or the requests with the token of the user.
abbrev pub IsOwn : Outcome Text → Args → List Sent → Type 0
IsOwn (ok token) args sent = AllAsked token args sent
IsOwn not_connected args sent = sent ≡ []
IsOwn (calendar_error t) args sent = sent ≡ []
IsOwn (http_status n) args sent = sent ≡ []
IsOwn (crashed t) args sent = sent ≡ []

module _ (w : World) (args : Args) where
  abbrev Asked : Text → Run → Type 0
  Asked token r = AllAsked token args r.1
