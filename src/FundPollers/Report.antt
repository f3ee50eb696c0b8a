-- ===== src/FundPollers/Report.antt =====
-- services/fund_pollers.py: `_poller_report` and `fund_poller_health`, over the entries of the funds.
use core_heartbeat.Prelude.{
  ℕ, ◌+◌, String, Bool, false, not, ◌&&◌, Option, none, some, List, [], ◌∷◌, any, all, keep, length,
  is_empty, is_some, leb, if◌then◌else◌, ◌>>=◌,
}
use core_heartbeat.FundPollers.{
  Database, FundEntry, by_id_from, by_ticker, entries, jp_tickers, allspring_tickers, regan_tickers,
  jp_stale_after_days, allspring_stale_after_days, regan_stale_after_days,
}

pub record PollerReport : Type 0 where
  pub poller : String
  pub funds_total : ℕ
  pub funds_healthy : ℕ
  pub funds_stale : ℕ
  pub unresolved_failures : ℕ
  pub needs_review_revisions : ℕ
  pub max_consecutive_failures : ℕ
  pub stale_data : Bool
  pub healthy : Bool
  pub funds : List FundEntry

abbrev pub empty_report : String → PollerReport
empty_report poller = record {
  poller = poller;
  funds_total = 0;
  funds_healthy = 0;
  funds_stale = 0;
  unresolved_failures = 0;
  needs_review_revisions = 0;
  max_consecutive_failures = 0;
  stale_data = false;
  healthy = false;
  funds = [];
}

-- `sum(f(e) for e in es)` and `max((f(e) for e in es), default=0)`
abbrev pub sum_of : (FundEntry → ℕ) → List FundEntry → ℕ
sum_of f [] = 0
sum_of f (e ∷ es) = f e + sum_of f es

abbrev pub max_of : (FundEntry → ℕ) → List FundEntry → ℕ
max_of f [] = 0
max_of f (e ∷ es) = let rest = max_of f es in if leb (f e) rest then rest else f e

abbrev pub summary : String → List FundEntry → PollerReport
summary poller es = record {
  poller = poller;
  funds_total = length es;
  funds_healthy = length (keep (λ (e : FundEntry). e.healthy) es);
  funds_stale = length (keep (λ (e : FundEntry). e.stale_data) es);
  unresolved_failures = sum_of (λ e. e.unresolved_failures) es;
  needs_review_revisions = sum_of (λ e. e.needs_review_revisions) es;
  max_consecutive_failures = max_of (λ e. e.consecutive_failures) es;
  stale_data = any (λ (e : FundEntry). e.stale_data) es;
  healthy = not (is_empty es) && all (λ (e : FundEntry). e.healthy) es;
  funds = es;
}

abbrev pub ids_of : List (ℕ × String) → List ℕ
ids_of [] = []
ids_of ((i, t) ∷ funds) = i ∷ ids_of funds

-- The report of a poller over the funds that its tickers matched.
abbrev pub report_of : Database → String → ℕ → ℕ → List (ℕ × String) → Option PollerReport
report_of db poller limit today [] = some (empty_report poller)
report_of db poller limit today (f ∷ fs) = do
  snapshots ← db.snapshots (ids_of (f ∷ fs))
  unresolved ← db.unresolved (ids_of (f ∷ fs))
  review ← db.review (ids_of (f ∷ fs))
  es ← entries db limit today snapshots unresolved review (by_ticker (f ∷ fs))
  some (summary poller es)

-- None where a query raised.
unfoldable pub poller_report : Database → String → List String → ℕ → ℕ → Option PollerReport
poller_report db poller tickers limit today = do
  funds ← db.funds tickers
  report_of db poller limit today (by_id_from [] funds)

-- `report[n].get("healthy")`: none for a poller that could not be queried
abbrev pub status_of : Option PollerReport → Option Bool
status_of none = none
status_of (some r) = some r.healthy

abbrev pub is_true : Option Bool → Bool
is_true none = false
is_true (some b) = b

abbrev pub is_false : Option Bool → Bool
is_false none = false
is_false (some b) = not b

-- A poller that could not be queried is `none`; it is reported as "unknown".
pub record Health : Type 0 where
  pub jp : Option PollerReport
  pub allspring : Option PollerReport
  pub regan : Option PollerReport
  pub healthy : Bool
  pub degraded : Bool
  pub unknown : Bool

unfoldable pub rollup : Option PollerReport → Option PollerReport → Option PollerReport → Health
rollup jp allspring regan =
    let statuses = status_of jp ∷ status_of allspring ∷ status_of regan ∷ [] in
    record {
      jp = jp;
      allspring = allspring;
      regan = regan;
      healthy = all is_true statuses;
      degraded = any is_false statuses;
      unknown = any (λ s. not (is_some s)) statuses;
    }

unfoldable pub fund_poller_health : Database → ℕ → Health
unfolding poller_report rollup
fund_poller_health db today =
    rollup (poller_report db "jp" jp_tickers jp_stale_after_days today)
      (poller_report db "allspring" allspring_tickers allspring_stale_after_days today)
      (poller_report db "regan" regan_tickers regan_stale_after_days today)
