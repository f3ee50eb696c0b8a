-- ===== src/FundPollers.antt =====
-- services/fund_pollers.py: the health of the fund pollers, from the rows that they leave behind. The
-- funds database is a parameter; a query that raises is `none`. A date is a day number.
pub mod Streak
pub mod Fund
pub mod Report
pub mod Rollup
pub mod Tests
use text.Mathlib.Text.{starts_with}
use core_heartbeat.Prelude.{
  ℕ, zero, suc, ◌+◌, ◌-◌, String, Bool, true, false, not, ◌&&◌, ◌||◌, Option, none, some, List, [],
  ◌∷◌, any, all, keep, length, is_empty, is_some, one_of, codes, leb, ltb, ◌==◌, map, if◌then◌else◌,
  ◌>>=◌,
}

abbrev pub jp_stale_after_days : ℕ
jp_stale_after_days = 4

abbrev pub allspring_stale_after_days : ℕ
allspring_stale_after_days = 70

abbrev pub regan_stale_after_days : ℕ
regan_stale_after_days = 6

abbrev pub failure_statuses : List String
failure_statuses =
    "partial" ∷ "download_failed" ∷ "download_invalid" ∷ "storage_failed" ∷ "parse_failed"
    ∷ "validation_failed" ∷ "database_failed" ∷ []

abbrev pub jp_tickers : List String
jp_tickers = "JAGG" ∷ "JBND" ∷ "JCPB" ∷ "JCPI" ∷ "JFLX" ∷ "JMTG" ∷ "JPIE" ∷ "JPLD" ∷ "JSCP" ∷ []

abbrev pub regan_tickers : List String
regan_tickers = "MBSF" ∷ "MBSX" ∷ []

abbrev pub allspring_tickers : List String
allspring_tickers =
    "AS_CORE_BOND" ∷ "AS_CORE_PLUS" ∷ "AS_GOVT_SEC" ∷ "AS_INCOME_PLUS" ∷ "AS_SHORT_PLUS"
    ∷ "AS_ULTRA_SHORT" ∷ []

-- A difference of two dates, in days.
pub data ℤ : Type 0 where
  pos negsuc : ℕ → ℤ

abbrev pub days_between : ℕ → ℕ → ℤ
days_between today day = if leb day today then pos (today - day) else negsuc (day - today - 1)

abbrev pub exceeds : ℤ → ℕ → Bool
exceeds (pos n) limit = ltb limit n
exceeds (negsuc n) limit = false

unfoldable pub is_skip : String → Bool
is_skip status = starts_with status "skipped"

unfoldable pub is_failure : String → Bool
is_failure status = one_of failure_statuses status

unfoldable pub consecutive_failures : List String → ℕ
unfolding is_skip is_failure
consecutive_failures [] = 0
consecutive_failures (s ∷ ss) =
    let rest = consecutive_failures ss in
    if is_skip s then rest else if is_failure s then suc rest else 0

-- The rows of one table per query of `_poller_report`. A fund's id is a number; a timestamp and a
-- date are as parsed, none where they are absent or unreadable.
pub record Database : Type 0 where
  pub funds : List String → Option (List (ℕ × String))
  pub snapshots : List ℕ → Option (List (ℕ × Option ℕ))
  pub unresolved : List ℕ → Option (List ℕ)
  pub review : List ℕ → Option (List ℕ)
  pub successes : ℕ → Option (List (Option ℕ))
  pub recent : ℕ → Option (List String)

-- `{f["id"]: f["ticker"] for f in funds}`: a later row of the same id replaces the ticker in place.
abbrev pub assign : ℕ → String → List (ℕ × String) → List (ℕ × String)
assign i t [] = (i, t) ∷ []
assign i t ((j, u) ∷ rest) =
    let more = assign i t rest in if i == j then (i, t) ∷ rest else (j, u) ∷ more

abbrev pub by_id_from : List (ℕ × String) → List (ℕ × String) → List (ℕ × String)
by_id_from seen [] = seen
by_id_from seen ((i, t) ∷ rows) = by_id_from (assign i t seen) rows

-- The order of two texts, by code points.
abbrev pub codes_before : List ℕ → List ℕ → Bool
codes_before [] [] = false
codes_before [] (d ∷ ds) = true
codes_before (c ∷ cs) [] = false
codes_before (c ∷ cs) (d ∷ ds) = ltb c d || (c == d && codes_before cs ds)

-- `sorted(by_id.items(), key=lambda kv: kv[1])`, which is stable
abbrev pub insert_fund : ℕ × String → List (ℕ × String) → List (ℕ × String)
insert_fund f [] = f ∷ []
insert_fund f (g ∷ rest) =
    let more = insert_fund f rest in
    if codes_before (codes g.1) (codes f.1) then g ∷ more else f ∷ g ∷ rest

abbrev pub by_ticker : List (ℕ × String) → List (ℕ × String)
by_ticker [] = []
by_ticker (f ∷ rest) = insert_fund f (by_ticker rest)

-- `latest_as_of.get(fund_id)`: the first row of the fund with a date, as the rows come newest first
abbrev pub latest_as_of : ℕ → List (ℕ × Option ℕ) → Option ℕ
latest_as_of i [] = none
latest_as_of i ((j, none) ∷ rows) = latest_as_of i rows
latest_as_of i ((j, some day) ∷ rows) =
    let rest = latest_as_of i rows in if i == j then some day else rest

abbrev pub rows_of : ℕ → List ℕ → ℕ
rows_of i ids = length (keep (λ j. i == j) ids)

pub record FundEntry : Type 0 where
  pub ticker : String
  pub last_as_of : Option ℕ
  pub as_of_age_days : Option ℤ
  pub stale_data : Bool
  pub last_successful_run : Option ℕ
  pub consecutive_failures : ℕ
  pub unresolved_failures : ℕ
  pub needs_review_revisions : ℕ
  pub healthy : Bool

abbrev pub is_stale : ℕ → Option ℤ → Bool
is_stale limit none = true
is_stale limit (some age) = exceeds age limit

abbrev pub age_of : ℕ → Option ℕ → Option ℤ
age_of today none = none
age_of today (some day) = some (days_between today day)

unfoldable pub fund_entry : ℕ → ℕ → String → Option ℕ → Option ℕ → ℕ → ℕ → ℕ → FundEntry
fund_entry limit today ticker day success streak unresolved review =
    let stale = is_stale limit (age_of today day) in
    record {
      ticker = ticker;
      last_as_of = day;
      as_of_age_days = age_of today day;
      stale_data = stale;
      last_successful_run = success;
      consecutive_failures = streak;
      unresolved_failures = unresolved;
      needs_review_revisions = review;
      healthy = not stale && unresolved == 0;
    }

-- `_parse_ts(successes[0]["attempt_time"]) if successes else None`
abbrev pub first_success : List (Option ℕ) → Option ℕ
first_success [] = none
first_success (t ∷ ts) = t

-- `_per_fund`
abbrev pub per_fund : Database → ℕ → Option (Option ℕ × ℕ)
per_fund db i = do
  successes ← db.successes i
  recent ← db.recent i
  some (first_success successes, consecutive_failures recent)

-- The entries, one for each fund, from the rows of the three batched queries.
abbrev pub entries :
    Database
    → ℕ
    → ℕ
    → List (ℕ × Option ℕ)
    → List ℕ
    → List ℕ
    → List (ℕ × String)
    → Option (List FundEntry)
entries db limit today snapshots unresolved review [] = some []
entries db limit today snapshots unresolved review ((i, ticker) ∷ funds) = do
  own ← per_fund db i
  rest ← entries db limit today snapshots unresolved review funds
  some (
      fund_entry limit today ticker (latest_as_of i snapshots) own.0 own.1 (rows_of i unresolved)
        (rows_of i review)
      ∷ rest)
