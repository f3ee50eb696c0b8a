-- ===== src/FundPollers/Rollup.antt =====
-- services/fund_pollers.py: what the rollup of the three pollers says.
use core_heartbeat.Prelude.{◌∷◌, ℕ, ◌≡◌, Bool, not, ◌||◌, Option, none, some, is_some, arith}
use core_heartbeat.FundPollers.{
  regan_stale_after_days, regan_tickers, allspring_stale_after_days, allspring_tickers,
  jp_stale_after_days, jp_tickers, any, [], all, Database,
}
use core_heartbeat.FundPollers.Report.{
  poller_report, status_of, is_false, is_true, rollup, fund_poller_health,
}

-- The three statuses, each true, false or unknown.
verdict :
    (x y z : Option Bool)
    → all is_true (x ∷ y ∷ z ∷ [])
      ≡ not (any is_false (x ∷ y ∷ z ∷ []) || any (λ s. not (is_some s)) (x ∷ y ∷ z ∷ []))
verdict none y z = ground arith
verdict (some x) none z = ground arith
verdict (some x) (some y) none = ground arith
verdict (some x) (some y) (some z) = ground arith

-- The rollup is healthy exactly when it is neither degraded nor unknown.
rollup_verdict :
    (db : Database) (today : ℕ)
    → let report = fund_poller_health db today in
      report.healthy ≡ not (report.degraded || report.unknown)
unfolding fund_poller_health rollup
rollup_verdict db today =
    verdict (status_of (poller_report db "jp" jp_tickers jp_stale_after_days today))
      (status_of (poller_report db "allspring" allspring_tickers allspring_stale_after_days today))
      (status_of (poller_report db "regan" regan_tickers regan_stale_after_days today))
