-- ===== src/FundPollers/Tests.antt =====
-- Witnesses of the theorems on services/fund_pollers.py, over a database in which all is well.
use core_heartbeat.Prelude.{◌≡◌, refl, some, List, [], ◌∷◌, String}
use core_heartbeat.FundPollers.{
  Database, is_skip, is_failure, consecutive_failures, jp_stale_after_days, jp_tickers,
  allspring_tickers, regan_tickers, allspring_stale_after_days, regan_stale_after_days, fund_entry,
}
use core_heartbeat.FundPollers.Report.{fund_poller_health, poller_report, rollup}
use core_heartbeat.FundPollers.Fund.{AllMatchedFresh, healthy_rollup_fresh}

abbrev quiet : Database
quiet = record {
  funds = λ tickers. some ((1, "MBSX") ∷ (2, "MBSF") ∷ []);
  snapshots = λ ids. some ((1, some 103) ∷ (2, some 99) ∷ (2, some 98) ∷ []);
  unresolved = λ ids. some [];
  review = λ ids. some [];
  successes = λ i. some (some 99 ∷ []);
  recent = λ i. some ("success" ∷ []);
}

healthy_rollup_fresh_example :
    AllMatchedFresh quiet jp_tickers jp_stale_after_days 102
    × AllMatchedFresh quiet allspring_tickers allspring_stale_after_days 102
    × AllMatchedFresh quiet regan_tickers regan_stale_after_days 102
unfolding fund_poller_health poller_report rollup fund_entry
healthy_rollup_fresh_example = healthy_rollup_fresh quiet 102 refl

abbrev attempts : List String
attempts = "skipped_holiday" ∷ "parse_failed" ∷ "partial" ∷ "unchanged" ∷ "parse_failed" ∷ []

two_in_a_row : consecutive_failures attempts ≡ 2
unfolding consecutive_failures is_skip is_failure
two_in_a_row = refl
