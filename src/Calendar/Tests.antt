-- ===== src/Calendar/Tests.antt =====
-- core/calendar.py: runs of the calendar, and the theorems at concrete calendars.
use prosignal.Prelude.{
  ℕ, ◌<◌, ◌≡◌, refl, ◌↔◌, ◌⊎◌, true, false, none, some, List, [], ◌∷◌, arith, ltb, count, ok, err,
}
use prosignal.Prelude.Int.{pos, negsuc}
use prosignal.Calendar.Defs.{
  Value, date, datetime, data_error, TradingCalendar, new, is_session, next_session, shift,
  sessions_between, count_between, age_in_sessions,
}
use prosignal.Calendar.Build.{IsValid, new-IsValid}
use prosignal.Calendar.Navigate.{elapsed, next_session-counts}
use prosignal.Calendar.Shift.{negate, shift-negate, shift-data_error}
use prosignal.Calendar.Fallback.{month_day}

-- A week of ordinals: 738890 is Friday 2024-01-05, and the next session is the Monday.
abbrev values : List Value
values = datetime 738893 540 ∷ date 738890 ∷ date 738894 ∷ date 738890 ∷ date 738895 ∷ []

abbrev week : TradingCalendar
week = record {
  sessions = 738890 ∷ 738893 ∷ 738894 ∷ 738895 ∷ [];
  session_set = 738895 ∷ 738894 ∷ 738890 ∷ 738893 ∷ [];
  approximate = false;
}

week-new : new values false ≡ ok week
unfolding new
week-new = refl

week-IsValid : IsValid week
week-IsValid = (new-IsValid values false week week-new).0

abbrev longer : TradingCalendar
longer = record {
  sessions = 738890 ∷ 738893 ∷ 738894 ∷ 738895 ∷ 738896 ∷ [];
  session_set = 738896 ∷ 738895 ∷ 738894 ∷ 738893 ∷ 738890 ∷ [];
  approximate = false;
}

next_session-counts_example :
    ((s : ℕ) × (next_session week 738891 (pos 2) ≡ ok (some s))
      × (is_session week s ≡ true)
      × (738891 < s)
      × (elapsed week 738891 s ≡ 2))
    ⊎ ((next_session week 738891 (pos 2) ≡ ok none) × (count (λ s. ltb 738891 s) week.sessions < 2))
next_session-counts_example = next_session-counts week 738891 2 week-IsValid (omega arith)

shift-negate_example : shift week 738890 (negate (negsuc 1)) ≡ ok (some 738894)
unfolding shift
shift-negate_example = shift-negate week 738894 738890 (negsuc 1) week-IsValid refl

shift-data_error_example :
    (shift week 738891 (pos 1) ≡ err data_error) ↔ (is_session week 738891 ≡ false)
shift-data_error_example = shift-data_error week 738891 (pos 1)

sessions_between-weekend : sessions_between week 738891 738894 true ≡ 738893 ∷ 738894 ∷ []
unfolding sessions_between
sessions_between-weekend = refl

-- Two sessions follow the Saturday, and its age is one; the Friday's is two.
age_in_sessions-weekend :
    (age_in_sessions week 738891 738894 ≡ 1) × (age_in_sessions week 738890 738894 ≡ 2)
unfolding age_in_sessions count_between
age_in_sessions-weekend = (refl, refl)

-- 2024-01-26 (Republic Day) is ordinal 738911, 2024-02-29 is 738945, 2023-12-31 is 738885.
month_day-runs :
    (month_day 738911 ≡ (1, 26)) × (month_day 738945 ≡ (2, 29)) × (month_day 738885 ≡ (12, 31))
unfolding month_day
month_day-runs = (refl, refl, refl)
