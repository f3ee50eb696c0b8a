-- ===== src/FundPollers/Streak.antt =====
-- services/fund_pollers.py: what `_consecutive_failures` counts.
use core_heartbeat.Prelude.{
  ◌≡◌, refl, String, Bool, not, List, [], ◌∷◌, keep, length, if◌then◌else◌, arith,
}
use core_heartbeat.FundPollers.{is_skip, is_failure, consecutive_failures}

-- `itertools.takewhile`
abbrev pub take_while : (String → Bool) → List String → List String
take_while p [] = []
take_while p (x ∷ xs) = let rest = take_while p xs in if p x then x ∷ rest else []

-- The streak is the number of failures at the front of the attempts that are left when the skipped
-- ones are taken out.
consecutive_failures_lem :
    (ss : List String)
    → consecutive_failures ss ≡ length (take_while is_failure (keep (λ s. not (is_skip s)) ss))
unfolding consecutive_failures
consecutive_failures_lem [] = refl
consecutive_failures_lem (s ∷ ss) = ground (arith, consecutive_failures_lem ss)
