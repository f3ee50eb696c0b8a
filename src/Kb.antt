-- ===== src/Kb.antt =====
-- services/kb.py: the admin flag and the retried call of the knowledge-base service. The network and
-- the environment are parameters.
pub mod Retry
pub mod Tests
use core_heartbeat.Prelude.{
  ℕ, zero, suc, ◌+◌, String, Bool, true, false, not, ◌&&◌, ◌==◌, Option, none, some, List, [], ◌∷◌,
  leb, ltb, if◌then◌else◌,
}

abbrev pub global_owner : String
global_owner = "global"

abbrev pub retry_attempts : ℕ
retry_attempts = 3

-- `rows[0].get("is_admin")` as a truth value, of the rows that the profiles table returns
abbrev pub first_flag : List Bool → Bool
first_flag [] = false
first_flag (b ∷ rows) = b

-- `is_admin`: without configuration false; none where the request or the answer's JSON raises.
unfoldable pub is_admin : Bool → Bool → Option (List Bool) → Option Bool
is_admin has_url has_key rows =
    if not (has_url && has_key)
    then some false
    else elim rows [ none ↦ none | some rs ↦ some (first_flag rs) ]

-- What one attempt meets: a transport error, or a response with its body unless that is no JSON.
pub data Answer : Type 0 where
  transport_error : Answer
  response : ℕ → Option String → Answer

-- How `_request` ends: the body, KbNotFound with the service's body, another status or transport
-- error, a body that is no JSON, or a KbError for a missing setting.
pub data Outcome : Type 0 where
  returned : String → Outcome
  not_found : String → Outcome
  status_error : ℕ → Outcome
  transport_raised : Outcome
  unreadable : Outcome
  misconfigured : Outcome

abbrev pub body_or_empty : Option String → String
body_or_empty none = "{}"
body_or_empty (some b) = b

abbrev pub body_of : Option String → Outcome
body_of none = unreadable
body_of (some b) = returned b

-- An answer that ends the loop, or the error that is kept as `last`. `is_error` is httpx's
-- `raise_for_status`.
pub data Verdict : Type 0 where
  final : Outcome → Verdict
  retry : Outcome → Verdict

abbrev pub verdict : (ℕ → Bool) → Answer → Verdict
verdict is_error transport_error = retry transport_raised
verdict is_error (response status body) =
    if status == 404
    then final (not_found (body_or_empty body))
    else if ltb status 500
    then final (if is_error status then status_error status else body_of body)
    else retry (status_error status)

-- A run of the loop: its end, the number of attempts made, and the sleeps between them, in units of
-- the backoff.
pub record Trace : Type 0 where
  pub outcome : Outcome
  pub attempts : ℕ
  pub sleeps : List ℕ

-- The loop from an attempt on, with `left` attempts after it.
abbrev pub from_verdict : ℕ → Trace → Verdict → Trace
from_verdict attempt later (final o) = record { outcome = o; attempts = 1; sleeps = [] }
from_verdict attempt later (retry o) = record {
  outcome = later.outcome;
  attempts = suc later.attempts;
  sleeps = (attempt + 1) ∷ later.sleeps;
}

abbrev pub last_verdict : Verdict → Trace
last_verdict (final o) = record { outcome = o; attempts = 1; sleeps = [] }
last_verdict (retry o) = record { outcome = o; attempts = 1; sleeps = [] }

unfoldable pub attempt_loop : (ℕ → Bool) → (ℕ → Answer) → ℕ → ℕ → Trace
attempt_loop is_error answer zero attempt = last_verdict (verdict is_error (answer attempt))
attempt_loop is_error answer (suc left) attempt =
    from_verdict attempt (attempt_loop is_error answer left (suc attempt))
      (verdict is_error (answer attempt))

unfoldable pub request : Bool → (ℕ → Bool) → (ℕ → Answer) → Trace
unfolding attempt_loop
request configured is_error answer =
    if configured
    then attempt_loop is_error answer 2 0
    else record { outcome = misconfigured; attempts = 1; sleeps = [] }
