-- ===== src/Cadence/Tests.antt =====
-- cadence.py: runs of the clock, and the theorems at a concrete calendar.
use prosignal.Prelude.{ℕ, ◌<◌, ◌≡◌, refl, true, false, some, List, [], ◌∷◌, arith}
use prosignal.Prelude.Int.{pos}
use prosignal.Cadence.Defs.{index_of, anchor_index, resolve_at, resolve}
use prosignal.Cadence.Schedule.{next_entry_date-opens, next_entry_date-first}
use prosignal.Calendar.{TradingCalendar}

abbrev days : List ℕ
days = 10 ∷ 11 ∷ 14 ∷ 15 ∷ 16 ∷ 17 ∷ 18 ∷ 21 ∷ []

closed_run :
    ((resolve days 15 (pos 3) 11).is_entry_date ≡ false)
    × ((resolve days 15 (pos 3) 11).next_entry_date ≡ some 16)
    × ((resolve days 16 (pos 3) 11).is_entry_date ≡ true)
unfolding resolve resolve_at index_of anchor_index
closed_run = (refl, refl, refl)

next_entry_date-opens_example : (15 < 16) × ((resolve days 16 (pos 3) 11).is_entry_date ≡ true)
next_entry_date-opens_example =
    next_entry_date-opens days 15 (pos 3) 11 16 (omega arith) closed_run.0 closed_run.1

next_entry_date-first_example : (resolve days 15 (pos 3) 11).is_entry_date ≡ false
unfolding resolve resolve_at index_of anchor_index
next_entry_date-first_example =
    next_entry_date-first days 14 (pos 3) 11 16 15 (omega arith) refl refl refl (omega arith)
      (omega arith)

abbrev calendar : TradingCalendar
calendar = record { sessions = days; session_set = days; approximate = false }
