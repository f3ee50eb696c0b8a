-- ===== src/Calendar/AllDay.antt =====
-- The all-day dates of tools/google_calendar.py: sent with an exclusive end, shown with the last day.
use core_heartbeat.Prelude.{
  ℕ, ◌+◌, ◌≤◌, ◌≡◌, refl, sym, ap, ◌∙◌, Bool, true, false, not, ◌&&◌, Option, some, [], ◌∷◌, ◌++◌,
  if_cases, arith, is_empty, ltb, leb, ltb→lt, some_inj, strip, lstrip, rstrip, last_kept, is_space,
  ◌/◌, ◌%◌, codes, if◌then◌else◌,
}
use mathlib.Core.Path.{subst}
use core_heartbeat.Calendar.Dates.{
  Text, Date, days_in, is_valid, next_day, previous_day, iso, digit_of,
}
use core_heartbeat.Calendar.Days.{previous-next, strptime-iso, valid_month, valid_year}
use core_heartbeat.Calendar.Events.{
  TimeField, date, Event, Shifted, text, is_all_day, shift, moved_or_same, printed, dated,
  time_field, shown_end, or_text, date_time,
}

days_in_some : (y m : ℕ) → 1 ≤ days_in y m
days_in_some y m = ground arith

tests_pass :
    (y m d k : ℕ)
    → (1 ≤ y) × (y ≤ 9999)
    → (1 ≤ m) × (m ≤ 12)
    → (1 ≤ d) × (d ≤ k)
    → ((leb 1 y && leb y 9999) && (leb 1 m && leb m 12) && (leb 1 d && leb d k)) ≡ true
tests_pass y m d k a b c = ground (arith, a, b, c)

next-valid : (t u : Date) → is_valid t ≡ true → next_day t ≡ some u → is_valid u ≡ true
unfolding next_day
next-valid t u v =
    let P = λ (o : Option Date). o ≡ some u → is_valid u ≡ true in
    let Q = λ (x : Date). is_valid x ≡ true in
    let y = valid_year t v in
    let m = valid_month t v in
    if_cases P (ltb t.day (days_in t.year t.month))
      (λ more e. subst Q (some_inj e) (
        tests_pass t.year t.month (t.day + 1) (days_in t.year t.month) y m
          (omega arith, omega (arith, ltb→lt t.day (days_in t.year t.month) more))))
      (λ _.
        if_cases P (ltb t.month 12)
          (λ more e. subst Q (some_inj e) (
            tests_pass t.year (t.month + 1) 1 (days_in t.year (t.month + 1)) y
              (omega arith, omega (arith, ltb→lt t.month 12 more))
              (omega arith, days_in_some t.year (t.month + 1))))
          (λ _.
            if_cases P (ltb t.year 9999)
              (λ more e. subst Q (some_inj e) (
                tests_pass (t.year + 1) 1 1 31 (omega arith, omega (arith, ltb→lt t.year 9999 more))
                  (omega arith, omega arith) (omega arith, omega arith)))
              (λ _ e. ground (arith, e))))

dark : (k : ℕ) → k ≤ 9 → is_space (48 + k) ≡ false
unfolding is_space
dark k h = ground (arith, h)

digit_dark : (n : ℕ) → is_space (digit_of n) ≡ false
digit_dark n = dark (n % 10) (omega arith)

module _ (p : ℕ → Bool) where
  last_kept-before :
      (c : ℕ) (s : Text) (j : ℕ) → last_kept p c (s ++ (j ∷ [])) ≡ c ∷ (s ++ (j ∷ []))
  last_kept-before c [] j = refl
  last_kept-before c (d ∷ s) j = refl

  rstrip-kept : (s : Text) (j : ℕ) → p j ≡ false → rstrip p (s ++ (j ∷ [])) ≡ s ++ (j ∷ [])
  rstrip-kept [] j h = ground (arith, h)
  rstrip-kept (c ∷ s) j h = ap (last_kept p c) (rstrip-kept s j h) ∙ last_kept-before c s j

  lstrip-kept : (c : ℕ) (s : Text) → p c ≡ false → lstrip p (c ∷ s) ≡ c ∷ s
  lstrip-kept c s h = ground (arith, h)

  strip-kept :
      (c : ℕ) (s : Text) (j : ℕ)
      → p c ≡ false
      → p j ≡ false
      → strip p (c ∷ (s ++ (j ∷ []))) ≡ c ∷ (s ++ (j ∷ []))
  strip-kept c s j first last =
      ap (rstrip p) (lstrip-kept c (s ++ (j ∷ [])) first) ∙ rstrip-kept (c ∷ s) j last

strip-iso : (t : Date) → strip is_space (iso t) ≡ iso t
unfolding iso
strip-iso t =
    strip-kept is_space (digit_of (t.year / 1000))
      (digit_of (t.year / 100)
        ∷ digit_of (t.year / 10)
        ∷ digit_of t.year
        ∷ b'-'
        ∷ digit_of (t.month / 10)
        ∷ digit_of t.month
        ∷ b'-'
        ∷ digit_of (t.day / 10)
        ∷ [])
      (digit_of t.day) (digit_dark (t.year / 1000)) (digit_dark t.day)

is_all_day-iso : (t : Date) → is_all_day (iso t) ≡ true
unfolding is_all_day iso
is_all_day-iso t = refl

shift-iso :
    (move : Date → Option Date) (t u : Date)
    → is_valid t ≡ true
    → move t ≡ some u
    → shift move (iso t) ≡ text (iso u)
unfolding shift
shift-iso move t u v e = ap (moved_or_same move (iso t)) (strptime-iso t v) ∙ ap printed e

-- What is sent for a value without white space around it.
sent_for : Text → Text → Bool → Option TimeField
sent_for v tz is_end =
    if is_all_day v
    then (if is_end then dated (shift next_day v) else some (date v))
    else some (date_time v tz)

sent_end :
    (t u : Date) (tz : Text)
    → is_valid t ≡ true
    → next_day t ≡ some u
    → time_field (iso t) tz true ≡ some (date (iso u))
unfolding time_field sent_for
sent_end t u tz v n =
    ap (λ s. sent_for s tz true) (strip-iso t)
    ∙ (ap (λ b. if b then dated (shift next_day (iso t)) else some (date_time (iso t) tz))
          (is_all_day-iso t)
        ∙ ap dated (shift-iso next_day t u v n))

date_inj : (a b : Text) → some (date a) ≡ some (date b) → a ≡ b
date_inj a b e = cc

-- What is shown for the two ends that Google has sent.
shown_for : Text → Text → Shifted
shown_for timed dated_end =
    let end = or_text timed (or_text dated_end (codes "?")) in
    if is_empty timed && not (is_empty dated_end) && is_all_day end
    then shift previous_day end
    else text end

shown_day :
    (t u : Date) → is_valid u ≡ true → previous_day u ≡ some t → shown_for [] (iso u) ≡ text (iso t)
unfolding shown_for iso is_all_day
shown_day t u v e = shift-iso previous_day u t v e

-- An all-day event whose last day is a valid date before the end of the year 9999: its end is sent to
-- Google as the day after, and the event that Google returns with that end, and no time, is shown
-- with the last day again.
pub all_day_end :
    (t u : Date) (tz : Text) (e : Event)
    → is_valid t ≡ true
    → next_day t ≡ some u
    → e.end_date_time ≡ []
    → time_field (iso t) tz true ≡ some (date e.end_date)
    → (e.end_date ≡ iso u) × (shown_end e ≡ text (iso t))
unfolding shown_end shown_for
all_day_end t u tz e v n timed sent =
    let same = date_inj e.end_date (iso u) (sym sent ∙ sent_end t u tz v n) in
    (
      same,
      ap (λ a. shown_for a e.end_date) timed
          ∙ (ap (shown_for []) same ∙ shown_day t u (next-valid t u v n) (previous-next t u v n)),
    )
