-- ===== src/Calendar/Fallback.antt =====
-- core/calendar.py: `is_probably_closed` and `TradingCalendar.weekday_fallback`.
use prosignal.Prelude.{
  ℕ, zero, suc, ◌+◌, ◌-◌, ◌/◌, ◌%◌, ◌≡◌, refl, ◌∙◌, inl, inr, Bool, true, false, not, ◌&&◌, ◌||◌,
  List, [], ◌∷◌, map, arith, ltb, leb, ◌==◌, if◌then◌else◌, Bool-cases, any, elem, Result, ok,
}
use prosignal.Calendar.Defs.{date, Error, TradingCalendar, new, is_session}
use prosignal.Calendar.Build.{IsValid, denotes, is_other, new-IsValid, new_total}

-- `date.weekday()`: ordinal 1 is a Monday, and Monday is 0.
unfoldable pub weekday : ℕ → ℕ
weekday day = (day + 6) % 7

-- The month and the day of the month, at a 0-based day of a year.
month_day_from : ℕ → List ℕ → ℕ → ℕ × ℕ
month_day_from month [] n = (month, n + 1)
month_day_from month (size ∷ sizes) n =
    let rest = month_day_from (month + 1) sizes (n - size) in
    if ltb n size then (month, n + 1) else rest

month_sizes : Bool → List ℕ
month_sizes leap =
    31 ∷ (if leap then 29 else 28) ∷ 31 ∷ 30 ∷ 31 ∷ 30 ∷ 31 ∷ 31 ∷ 30 ∷ 31 ∷ 30 ∷ 31 ∷ []

-- `(day.month, day.day)` of an ordinal, by the cycles of 400, 100 and 4 years.
unfoldable pub month_day : ℕ → ℕ × ℕ
unfolding month_day_from month_sizes
month_day day =
    let n = day - 1 in
    let n100 = n % 146097 / 36524 in
    let n4 = n % 146097 % 36524 / 1461 in
    let n1 = n % 146097 % 36524 % 1461 / 365 in
    if n1 == 4 || n100 == 4
    then (12, 31)
    else month_day_from 1 (month_sizes (n1 == 3 && (not (n4 == 24) || n100 == 3)))
        (n % 146097 % 36524 % 1461 % 365)

abbrev pub static_closure_hints : List (ℕ × ℕ)
static_closure_hints = (1, 26) ∷ (5, 1) ∷ (8, 15) ∷ (10, 2) ∷ (12, 25) ∷ []

unfoldable pub is_probably_closed : ℕ → Bool
unfolding weekday month_day
is_probably_closed day =
    let (month, d) = month_day day in
    leb 5 (weekday day) || any (λ hint. month == hint.0 && d == hint.1) static_closure_hints

-- The `while cur <= end` loop, on the days left.
open_days : ℕ → ℕ → List ℕ
open_days zero cur = []
open_days (suc left) cur =
    let rest = open_days left (cur + 1) in if not (is_probably_closed cur) then cur ∷ rest else rest

unfoldable pub weekday_fallback : ℕ → ℕ → Result Error TradingCalendar
unfolding open_days
weekday_fallback start end = new (map date (open_days (end + 1 - start) start)) true

elem-open_days :
    (d left cur : ℕ)
    → elem d (open_days left cur) ≡ (leb cur d && ltb d (cur + left) && not (is_probably_closed d))
unfolding open_days
elem-open_days d zero cur = ground arith
elem-open_days d (suc left) cur = elim (Bool-cases (d == cur)) [
  | inl e ↦
      let here : d ≡ cur = ground arith in
      rw here (ground (arith, elem-open_days cur left (cur + 1)))
  | inr n ↦ ground (arith, elem-open_days d left (cur + 1))
]

-- The fallback never raises: it is a valid calendar, marked approximate, whose sessions are exactly
-- the days of the range that are not probably closed.
pub weekday_fallback-sessions :
    (start end : ℕ)
    → (cal : TradingCalendar) × (weekday_fallback start end ≡ ok cal)
      × IsValid cal
      × (cal.approximate ≡ true)
      × ((d : ℕ) → is_session cal d ≡ (leb start d && leb d end && not (is_probably_closed d)))
unfolding weekday_fallback
weekday_fallback-sessions start end =
    let days = open_days (end + 1 - start) start in
    let (cal, built) = new_total (map date days) true (no_others days) in
    let (valid, members, mark) = new-IsValid (map date days) true cal built in
    (
      cal,
      built,
      valid,
      mark,
      λ d. members d ∙ any-dates d days ∙ elem-open_days d (end + 1 - start) start ∙ ground arith,
    )
  where
    no_others : (ds : List ℕ) → any is_other (map date ds) ≡ false
    no_others [] = refl
    no_others (x ∷ ds) = no_others ds

    any-dates : (d : ℕ) (ds : List ℕ) → any (denotes d) (map date ds) ≡ elem d ds
    any-dates d [] = refl
    any-dates d (x ∷ ds) = ground (arith, any-dates d ds)
