-- ===== src/FundPollers/Fund.antt =====
-- services/fund_pollers.py: when a fund and a poller count as healthy.
use mathlib.Core.Path.{subst}
use core_heartbeat.Prelude.{
  ◌∙◌, ap, sym, codes, and_both, bind_some, some_inj, ℕ, ◌+◌, ◌≤◌, ◌≡◌, refl, String, true, false,
  Option, none, some, List, [], ◌∷◌, All, all, any, is_empty, arith, if_cases, ◌==◌, Bool-cases,
  inl, inr, ◌⊎◌,
}
use core_heartbeat.FundPollers.{
  regan_tickers, allspring_tickers, jp_tickers, regan_stale_after_days, allspring_stale_after_days,
  jp_stale_after_days, rows_of, latest_as_of, per_fund, Database, FundEntry, fund_entry, entries,
  by_id_from, by_ticker, assign, insert_fund, codes_before,
}
use core_heartbeat.FundPollers.Report.{
  rollup, status_of, fund_poller_health, is_true, ids_of, PollerReport, poller_report, report_of,
  summary,
}

-- The first dated row of the fund is of the day.
abbrev pub IsNewest : ℕ → ℕ → List (ℕ × Option ℕ) → Type 0
IsNewest i day [] = ⊥
IsNewest i day ((j, none) ∷ rows) = IsNewest i day rows
IsNewest i day ((j, some d) ∷ rows) =
    ((i ≡ j) × (d ≡ day)) ⊎ (((i == j) ≡ false) × IsNewest i day rows)

-- The fund's newest date is at most `limit` days before `today`, or after it, and none of the rows of
-- unresolved failures is of the fund.
pub record IsFresh (limit today : ℕ) (snapshots : List (ℕ × Option ℕ)) (unresolved : List ℕ) (i : ℕ)
    : Type 0 where
  pub day : ℕ
  pub newest : IsNewest i day snapshots
  pub recent : today ≤ day + limit
  pub resolved : any (λ j. i == j) unresolved ≡ false

-- Each fund in a list, by its id.
abbrev pub AllFunds : (ℕ → Type 0) → List (ℕ × String) → Type 0
AllFunds P = All (λ (f : ℕ × String). P f.0)

latest-IsNewest :
    (i day : ℕ) (rows : List (ℕ × Option ℕ)) → latest_as_of i rows ≡ some day → IsNewest i day rows
latest-IsNewest i day [] e = ground arith
latest-IsNewest i day ((j, none) ∷ rows) e = latest-IsNewest i day rows e
latest-IsNewest i day ((j, some d) ∷ rows) e = elim (Bool-cases (i == j)) [
  | inl same ↦ inl (ground (arith, same), some_inj (sym (rw same refl) ∙ e))
  | inr other ↦ inr (other, latest-IsNewest i day rows (sym (rw other refl) ∙ e))
]

rows_of-none : (i : ℕ) (ids : List ℕ) → rows_of i ids ≡ 0 → any (λ j. i == j) ids ≡ false
rows_of-none i [] e = refl
rows_of-none i (j ∷ ids) e = elim (Bool-cases (i == j)) [
  | inl same ↦ ground (arith, same, e)
  | inr other ↦ rw other (rows_of-none i ids (sym (rw other refl) ∙ e))
]

fund_entry-IsFresh :
    (limit today i : ℕ) (ticker : String) (snapshots : List (ℕ × Option ℕ)) (unresolved : List ℕ)
    (day success : Option ℕ) (streak review : ℕ)
    → latest_as_of i snapshots ≡ day
    → (fund_entry limit today ticker day success streak (rows_of i unresolved) review).healthy
      ≡ true
    → IsFresh limit today snapshots unresolved i
unfolding fund_entry
fund_entry-IsFresh limit today i ticker snapshots unresolved none success streak review e h =
    ground arith
fund_entry-IsFresh limit today i ticker snapshots unresolved (some day) success streak review e h =
    record {
      day = day;
      newest = latest-IsNewest i day snapshots e;
      recent = ground (arith, h);
      resolved = rows_of-none i unresolved (ground (arith, h));
    }

-- Where the entries of some funds are healthy, the funds are fresh.
entries-AllFresh :
    (db : Database) (limit today : ℕ) (snapshots : List (ℕ × Option ℕ)) (unresolved review : List ℕ)
    (funds : List (ℕ × String)) (es : List FundEntry)
    → entries db limit today snapshots unresolved review funds ≡ some es
    → all (λ (e : FundEntry). e.healthy) es ≡ true
    → AllFunds (IsFresh limit today snapshots unresolved) funds
entries-AllFresh db limit today snapshots unresolved review [] es e h = tt
entries-AllFresh db limit today snapshots unresolved review ((i, ticker) ∷ funds) es e h =
    let (own, found, e') = bind_some (per_fund db i) _ es e in
    let (rest, others, e'') =
      bind_some (entries db limit today snapshots unresolved review funds) _ es e' in
    let both =
      and_both _ _
        (subst (λ l. all (λ (e : FundEntry). e.healthy) l ≡ true) (sym (some_inj e'')) h) in
    (
      fund_entry-IsFresh limit today i ticker snapshots unresolved (latest_as_of i snapshots) own.0
          own.1 (rows_of i review) refl both.0,
      entries-AllFresh db limit today snapshots unresolved review funds rest others both.1,
    )

-- The sort and the dict lose no id.
module _ (P : ℕ → Type 0) where
  insert_fund-AllFunds :
      (f : ℕ × String) (rest : List (ℕ × String))
      → AllFunds P (insert_fund f rest)
      → P f.0 × AllFunds P rest
  insert_fund-AllFunds f [] = λ h. h
  insert_fund-AllFunds f (g ∷ rest) =
      if_cases (λ (l : List (ℕ × String)). AllFunds P l → P f.0 × AllFunds P (g ∷ rest))
        (codes_before (codes g.1) (codes f.1))
        (λ _ h. let (first, others) = insert_fund-AllFunds f rest h.1 in (first, (h.0, others)))
        (λ _ h. h)

  by_ticker-AllFunds : (fs : List (ℕ × String)) → AllFunds P (by_ticker fs) → AllFunds P fs
  by_ticker-AllFunds [] h = h
  by_ticker-AllFunds (f ∷ rest) h =
      let (first, others) = insert_fund-AllFunds f (by_ticker rest) h in
      (first, by_ticker-AllFunds rest others)

  assign-AllFunds :
      (i : ℕ) (t : String) (seen : List (ℕ × String))
      → AllFunds P (assign i t seen)
      → P i × AllFunds P seen
  assign-AllFunds i t [] = λ h. h
  assign-AllFunds i t ((j, u) ∷ rest) =
      if_cases (λ (l : List (ℕ × String)). AllFunds P l → P i × AllFunds P ((j, u) ∷ rest)) (i == j)
        (λ same h. let e : i ≡ j = ground (arith, same) in (h.0, (subst P e h.0, h.1)))
        (λ _ h. let (first, others) = assign-AllFunds i t rest h.1 in (first, (h.0, others)))

  by_id-AllFunds :
      (seen rows : List (ℕ × String))
      → AllFunds P (by_id_from seen rows)
      → AllFunds P seen × AllFunds P rows
  by_id-AllFunds seen [] h = (h, tt)
  by_id-AllFunds seen ((i, t) ∷ rows) h =
      let (before, later) = by_id-AllFunds (assign i t seen) rows h in
      let (first, others) = assign-AllFunds i t seen before in (others, (first, later))

AllFunds-weaker :
    (P Q : ℕ → Type 0) (fs : List (ℕ × String))
    → ((i : ℕ) → P i → Q i)
    → AllFunds P fs
    → AllFunds Q fs
AllFunds-weaker P Q [] w h = tt
AllFunds-weaker P Q (f ∷ fs) w h = (w f.0 h.0, AllFunds-weaker P Q fs w h.1)

abbrev pub IsAmong : List ℕ → ℕ → Type 0
IsAmong ids i = any (λ j. i == j) ids ≡ true

-- The ids of funds are among them.
ids_of-AllFunds : (fs : List (ℕ × String)) → AllFunds (IsAmong (ids_of fs)) fs
ids_of-AllFunds [] = tt
ids_of-AllFunds ((i, t) ∷ fs) = (
  ground arith,
  AllFunds-weaker (IsAmong (ids_of fs)) (IsAmong (i ∷ ids_of fs)) fs (λ k h. ground (arith, h))
      (ids_of-AllFunds fs),
)

-- The poller's tickers matched a fund, and each row that they matched is of a fund whose id the two
-- queries asked for, and which is fresh by their rows.
pub record AllMatchedFresh (db : Database) (tickers : List String) (limit today : ℕ) : Type 0 where
  pub funds : List (ℕ × String)
  pub matched : db.funds tickers ≡ some funds
  pub some_fund : is_empty funds ≡ false
  pub ids : List ℕ
  pub asked : AllFunds (IsAmong ids) funds
  pub snapshots : List (ℕ × Option ℕ)
  pub dates : db.snapshots ids ≡ some snapshots
  pub unresolved : List ℕ
  pub failures : db.unresolved ids ≡ some unresolved
  pub all_fresh : AllFunds (IsFresh limit today snapshots unresolved) funds

-- Without a matched fund a report is not healthy.
no_funds_left :
    (rows : List (ℕ × String)) → is_empty (by_id_from [] rows) ≡ false → is_empty rows ≡ false
no_funds_left [] h = h
no_funds_left (f ∷ rows) h = refl

report_of-AllMatchedFresh :
    (db : Database) (poller : String) (tickers : List String) (limit today : ℕ)
    (rows funds : List (ℕ × String)) (r : PollerReport)
    → db.funds tickers ≡ some rows
    → by_id_from [] rows ≡ funds
    → report_of db poller limit today funds ≡ some r
    → r.healthy ≡ true
    → AllMatchedFresh db tickers limit today
report_of-AllMatchedFresh db poller tickers limit today rows [] r m same e h = ground arith
report_of-AllMatchedFresh db poller tickers limit today rows (f ∷ fs) r m same e h =
    let (snapshots, s, e1) = bind_some (db.snapshots (ids_of (f ∷ fs))) _ r e in
    let (unresolved, u, e2) = bind_some (db.unresolved (ids_of (f ∷ fs))) _ r e1 in
    let (review, v, e3) = bind_some (db.review (ids_of (f ∷ fs))) _ r e2 in
    let (es, found, last) =
      bind_some (entries db limit today snapshots unresolved review (by_ticker (f ∷ fs))) _ r e3 in
    let healthy : (summary poller es).healthy ≡ true =
      ap (λ (r : PollerReport). r.healthy) (some_inj last) ∙ h in
    let fresh = by_ticker-AllFunds (IsFresh limit today snapshots unresolved) (f ∷ fs) (
      entries-AllFresh db limit today snapshots unresolved review (by_ticker (f ∷ fs)) es found
        (and_both _ _ healthy).1) in
    record {
      funds = rows;
      matched = m;
      some_fund = no_funds_left rows (ap is_empty same);
      ids = ids_of (f ∷ fs);
      asked =
          (by_id-AllFunds (IsAmong (ids_of (f ∷ fs))) [] rows
            (subst (AllFunds (IsAmong (ids_of (f ∷ fs)))) (sym same) (ids_of-AllFunds (f ∷ fs)))).1;
      snapshots = snapshots;
      dates = s;
      unresolved = unresolved;
      failures = u;
      all_fresh =
          (by_id-AllFunds (IsFresh limit today snapshots unresolved) [] rows
            (subst (AllFunds (IsFresh limit today snapshots unresolved)) (sym same) fresh)).1;
    }

fresh_poller :
    (db : Database) (poller : String) (tickers : List String) (limit today : ℕ)
    (o : Option PollerReport)
    → poller_report db poller tickers limit today ≡ o
    → is_true (status_of o) ≡ true
    → AllMatchedFresh db tickers limit today
unfolding poller_report
fresh_poller db poller tickers limit today none e h = ground arith
fresh_poller db poller tickers limit today (some r) e h =
    let (rows, found, e') = bind_some (db.funds tickers) _ r e in
    report_of-AllMatchedFresh db poller tickers limit today rows (by_id_from [] rows) r found refl
      e' h

-- If the rollup is healthy, then for each of the three pollers the funds could be queried and its
-- tickers matched one, and for every fund that they matched the newest dated row is at most the
-- poller's limit of days old, and no unresolved failure is of the fund.
pub healthy_rollup_fresh :
    (db : Database) (today : ℕ)
    → (fund_poller_health db today).healthy ≡ true
    → AllMatchedFresh db jp_tickers jp_stale_after_days today
      × AllMatchedFresh db allspring_tickers allspring_stale_after_days today
      × AllMatchedFresh db regan_tickers regan_stale_after_days today
unfolding fund_poller_health rollup
healthy_rollup_fresh db today h =
    let a = and_both _ _ h in
    let b = and_both _ _ a.1 in
    let c = and_both _ _ b.1 in
    (
      fresh_poller db "jp" jp_tickers jp_stale_after_days today _ refl a.0,
      fresh_poller db "allspring" allspring_tickers allspring_stale_after_days today _ refl b.0,
      fresh_poller db "regan" regan_tickers regan_stale_after_days today _ refl c.0,
    )
