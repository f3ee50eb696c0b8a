-- ===== src/Calendar/Dates.antt =====
-- The dates that tools/google_calendar.py computes with: `datetime.date`, its `isoformat`, `strptime` for
-- "%Y-%m-%d", and the addition of one day. A text is a list of code points.
use core_heartbeat.Prelude.{
  ℕ, ◌+◌, ◌-◌, ◌*◌, ◌/◌, ◌%◌, Bool, not, ◌&&◌, ◌||◌, ◌==◌, Option, none, some, List, [], ◌∷◌,
  if◌then◌else◌, ltb, leb, ◌>>=◌,
}

abbrev pub Text : Type 0
Text = List ℕ

pub record Date : Type 0 where
  pub year : ℕ
  pub month : ℕ
  pub day : ℕ

abbrev pub is_leap : ℕ → Bool
is_leap y = y % 4 == 0 && (not (y % 100 == 0) || y % 400 == 0)

abbrev pub days_in : ℕ → ℕ → ℕ
days_in y m =
    if m == 2
    then (if is_leap y then 29 else 28)
    else if m == 4 || m == 6 || m == 9 || m == 11
    then 30
    else 31

abbrev pub is_valid : Date → Bool
is_valid t =
    (leb 1 t.year && leb t.year 9999)
    && (leb 1 t.month && leb t.month 12)
    && (leb 1 t.day && leb t.day (days_in t.year t.month))

-- `date + timedelta(days=1)` and `date - timedelta(days=1)`, none where they overflow
unfoldable pub next_day : Date → Option Date
next_day t =
    if ltb t.day (days_in t.year t.month)
    then some (record { year = t.year; month = t.month; day = t.day + 1 })
    else if ltb t.month 12
    then some (record { year = t.year; month = t.month + 1; day = 1 })
    else if ltb t.year 9999
    then some (record { year = t.year + 1; month = 1; day = 1 })
    else none

unfoldable pub previous_day : Date → Option Date
previous_day t =
    if ltb 1 t.day
    then some (record { year = t.year; month = t.month; day = t.day - 1 })
    else if ltb 1 t.month
    then some (record { year = t.year; month = t.month - 1; day = days_in t.year (t.month - 1) })
    else if ltb 1 t.year
    then some (record { year = t.year - 1; month = 12; day = 31 })
    else none

abbrev pub digit_of : ℕ → ℕ
digit_of n = 48 + n % 10

-- `date.isoformat()`
unfoldable pub iso : Date → Text
iso t =
    digit_of (t.year / 1000)
    ∷ digit_of (t.year / 100)
    ∷ digit_of (t.year / 10)
    ∷ digit_of t.year
    ∷ b'-'
    ∷ digit_of (t.month / 10)
    ∷ digit_of t.month
    ∷ b'-'
    ∷ digit_of (t.day / 10)
    ∷ digit_of t.day
    ∷ []

-- The value of a digit between two others; Unicode's digits beside the ASCII ones are left out.
abbrev pub digit_in : ℕ → ℕ → ℕ → Option ℕ
digit_in low high c = if leb (48 + low) c && leb c (48 + high) then some (c - 48) else none

-- `%Y`
abbrev pub year_of : ℕ → ℕ → ℕ → ℕ → Option ℕ
year_of a b c d = digit_in 0 9 a >>= λ i. digit_in 0 9 b >>= λ j.
    digit_in 0 9 c >>= λ k. digit_in 0 9 d >>= λ l. some (i * 1000 + j * 100 + k * 10 + l)

-- `%m` of two characters
abbrev pub month_of : ℕ → ℕ → Option ℕ
month_of a b =
    if a == 48
    then digit_in 1 9 b
    else if a == 49
    then (digit_in 0 2 b >>= λ i. some (10 + i))
    else none

-- `%d` of two characters, the first of which may be a blank
abbrev pub day_of : ℕ → ℕ → Option ℕ
day_of a b =
    if a == 51
    then (digit_in 0 1 b >>= λ i. some (30 + i))
    else if a == 50
    then (digit_in 0 9 b >>= λ i. some (20 + i))
    else if a == 49
    then (digit_in 0 9 b >>= λ i. some (10 + i))
    else if a == 48 || a == 32
    then digit_in 1 9 b
    else none

abbrev pub if_valid : Date → Option Date
if_valid t = if is_valid t then some t else none

-- `datetime.strptime(v, "%Y-%m-%d").date()`, none where it raises ValueError, of a text of ten
-- characters with a dash at 4 and at 7
unfoldable pub strptime : Text → Option Date
strptime (a ∷ b ∷ c ∷ d ∷ e ∷ f ∷ g ∷ h ∷ i ∷ j ∷ []) = year_of a b c d >>= λ y.
    month_of f g >>= λ m. day_of i j >>= λ n. if_valid (record { year = y; month = m; day = n })
strptime _ = none
