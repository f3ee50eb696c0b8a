-- ===== src/Kb/Tests.antt =====
-- Witnesses of the theorem on services/kb.py `_request`.
use core_heartbeat.Prelude.{ℕ, ◌≡◌, refl, Bool, true, some, none, leb, zero, suc}
use core_heartbeat.Kb.{Answer, transport_error, response, request, attempt_loop, returned}
use core_heartbeat.Kb.Retry.{IsRun, request-IsRun}

abbrev is_error : ℕ → Bool
is_error status = leb 400 status

abbrev recovering : ℕ → Answer
recovering zero = transport_error
recovering (suc zero) = response 503 none
recovering (suc (suc n)) = response 200 (some "{}")

request-IsRun_example : IsRun is_error recovering 2 0 (request true is_error recovering)
request-IsRun_example = request-IsRun is_error recovering

third_time : (request true is_error recovering).outcome ≡ returned "{}"
unfolding request attempt_loop
third_time = refl
