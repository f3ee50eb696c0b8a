-- ===== src/Calendar/Days.antt =====
-- The laws of the dates that tools/google_calendar.py computes with.
use mathlib.Core.Path.{subst}
use core_heartbeat.Prelude.{
  ℕ, ◌+◌, ◌≤◌, ◌≡◌, true, Option, some, arith, if_cases, ltb, ◌/◌, and_both, leb→le, some_inj, ap,
  ◌∙◌, sym,
}
use core_heartbeat.Calendar.Dates.{
  Date, days_in, is_valid, next_day, previous_day, iso, strptime, year_of, month_of, day_of,
  digit_of,
}

-- What a valid date satisfies.
pub valid_day : (t : Date) → is_valid t ≡ true → (1 ≤ t.day) × (t.day ≤ days_in t.year t.month)
valid_day t v =
    let (a, b) = and_both _ _ (and_both _ _ v).1 in
    (leb→le 1 t.day a, leb→le t.day (days_in t.year t.month) b)

pub valid_month : (t : Date) → is_valid t ≡ true → (1 ≤ t.month) × (t.month ≤ 12)
valid_month t v =
    let (a, b) = and_both _ _ (and_both _ _ (and_both _ _ v).0).1 in
    (leb→le 1 t.month a, leb→le t.month 12 b)

pub valid_year : (t : Date) → is_valid t ≡ true → (1 ≤ t.year) × (t.year ≤ 9999)
valid_year t v =
    let (a, b) = and_both _ _ (and_both _ _ (and_both _ _ v).0).0 in
    (leb→le 1 t.year a, leb→le t.year 9999 b)

abbrev date : ℕ → ℕ → ℕ → Date
date y m d = record { year = y; month = m; day = d }

same_month : (t : Date) → 1 ≤ t.day → previous_day (date t.year t.month (t.day + 1)) ≡ some t
unfolding previous_day
same_month t d =
    if_cases (λ o. o ≡ some t) (ltb 1 (t.day + 1))
      (λ _. ap (λ n. some (date t.year t.month n)) (omega arith)) (λ no. ground (arith, no, d))

month_before :
    (t : Date)
    → 1 ≤ t.month
    → t.day ≡ days_in t.year t.month
    → previous_day (date t.year (t.month + 1) 1) ≡ some t
unfolding previous_day
month_before t m last =
    if_cases (λ o. o ≡ some t) (ltb 1 (t.month + 1))
      (λ _.
        ap (λ n. some (date t.year n (days_in t.year n))) (omega arith)
        ∙ ap (λ n. some (date t.year t.month n)) (sym last))
      (λ no. ground (arith, no, m))

year_before :
    (t : Date)
    → 1 ≤ t.year
    → t.month ≡ 12
    → t.day ≡ 31
    → previous_day (date (t.year + 1) 1 1) ≡ some t
unfolding previous_day
year_before t y m d =
    if_cases (λ o. o ≡ some t) (ltb 1 (t.year + 1))
      (λ _.
        ap (λ n. some (date n 12 31)) (omega arith)
        ∙ (ap (λ n. some (date t.year n 31)) (sym m)
            ∙ ap (λ n. some (date t.year t.month n)) (sym d)))
      (λ no. ground (arith, no, y))

-- The day before the day after.
pub previous-next : (t u : Date) → is_valid t ≡ true → next_day t ≡ some u → previous_day u ≡ some t
unfolding next_day
previous-next t u v =
    let (d1, d2) = valid_day t v in
    let (m1, m2) = valid_month t v in
    let (y1, y2) = valid_year t v in
    let P = λ (o : Option Date). o ≡ some u → previous_day u ≡ some t in
    let Q = λ (x : Date). previous_day x ≡ some t in
    if_cases P (ltb t.day (days_in t.year t.month)) (λ _ e. subst Q (some_inj e) (same_month t d1))
      (λ full.
        let last : t.day ≡ days_in t.year t.month = ground (arith, full, d2) in
        if_cases P (ltb t.month 12) (λ _ e. subst Q (some_inj e) (month_before t m1 last))
          (λ late.
            let december : t.month ≡ 12 = ground (arith, late, m2) in
            if_cases P (ltb t.year 9999)
              (λ _ e.
                subst Q (some_inj e)
                  (year_before t y1 december (last ∙ ap (days_in t.year) december)))
              (λ _ e. ground (arith, e))))

days_bound : (y m : ℕ) → days_in y m ≤ 31
days_bound y m = ground arith

year_of_digits :
    (y : ℕ)
    → y ≤ 9999
    → year_of (digit_of (y / 1000)) (digit_of (y / 100)) (digit_of (y / 10)) (digit_of y) ≡ some y
year_of_digits y h = ground (arith, h)

month_of_digits : (m : ℕ) → 1 ≤ m → m ≤ 12 → month_of (digit_of (m / 10)) (digit_of m) ≡ some m
month_of_digits m a b = ground (arith, a, b)

day_of_digits : (d : ℕ) → 1 ≤ d → d ≤ 31 → day_of (digit_of (d / 10)) (digit_of d) ≡ some d
day_of_digits d a b = ground (arith, a, b)

pub strptime-iso : (t : Date) → is_valid t ≡ true → strptime (iso t) ≡ some t
unfolding strptime iso
strptime-iso t v =
    let (d1, d2) = valid_day t v in
    let (m1, m2) = valid_month t v in
    let (y1, y2) = valid_year t v in
    ground (
      arith,
      v,
      year_of_digits t.year y2,
      month_of_digits t.month m1 m2,
      day_of_digits t.day d1 (omega (arith, d2, days_bound t.year t.month)),
    )
