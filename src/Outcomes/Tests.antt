-- ===== src/Outcomes/Tests.antt =====
-- outcomes.py: a signal of day 10 with its entry on day 11, over integers in place of floats. Day
-- 12 is locked and day 13 opens below the stop.
use prosignal.Prelude.{
  ℕ, ◌+◌, ◌≡◌, refl, inr, Bool, true, false, none, some, List, [], ◌∷◌, ◌++◌, arith, ◌==◌,
  if◌then◌else◌, length, All, ok,
}
use prosignal.Prelude.Int.{ℤ, pos, negsuc, ◌+ℤ◌, ◌-ℤ◌, ◌*ℤ◌}
use prosignal.Prelude.Whole.{whole, whole-IsOrdered}
use prosignal.Market.{is_untradeable, at_band, frozen_state, band_state}
use prosignal.Outcomes.Defs.{
  stop_gap, Holdings, closed_by_engine, Session, locked, Levels, Walk, breached, stop_fill,
  target_fill, trigger, next, ended, walk_bars,
}
use prosignal.Outcomes.Resolve.{
  Rec, basis_factor, Trade, resolved, levels_of, start_walk, conclude, resolve_one,
}
use prosignal.Outcomes.Pending.{Run, Entry, Tally, pending_of, resolve_pending}
use prosignal.Outcomes.Walk.{IsQuiet, IsExit, last_decided, walk_bars-ended}
use prosignal.Outcomes.Fill.{walk_bars-stop}
use prosignal.Outcomes.Final.{resolve_one-append}
use prosignal.Outcomes.Elapsed.{resolve_one-resolved}
use prosignal.Outcomes.Adds.{EntriesOnce}
use prosignal.Outcomes.Scored.{resolve_pending-once}
use prosignal.Outcomes.Locked.{walk_bars-locked}

abbrev any_price : ℤ → Bool
any_price x = true

abbrev session : ℕ → ℤ → ℤ → ℤ → ℤ → Session whole any_price
session day o h l c = record {
  date = day;
  open_price = o;
  high = h;
  low = l;
  close = c;
  prev_close = pos 100;
  volume = pos 50;
}

abbrev signalled : Rec whole any_price
signalled = record {
  ticker = 7;
  last_close = some (pos 100);
  stop = some (pos 90);
  target_1 = some (pos 120);
  target_2 = none;
}

abbrev locked_day : Session whole any_price
locked_day = session 12 (pos 95) (pos 95) (pos 95) (pos 95)

abbrev gap_day : Session whole any_price
gap_day = session 13 (pos 80) (pos 88) (pos 79) (pos 85)

abbrev calm_day : Session whole any_price
calm_day = session 13 (pos 96) (pos 99) (pos 94) (pos 98)

abbrev frame : List (Session whole any_price)
frame =
    session 10 (pos 99) (pos 101) (pos 98) (pos 100)
    ∷ session 11 (pos 100) (pos 103) (pos 99) (pos 101)
    ∷ locked_day
    ∷ gap_day
    ∷ []

-- The engine held the name on day 11 and closed it on the locked day.
abbrev book : Holdings
book day = if day == 11 then some (7 ∷ []) else if day == 12 then some (8 ∷ []) else none

abbrev levels : Levels whole any_price
levels = levels_of whole any_price signalled (pos 90) (pos 1) (pos 100) true

abbrev first_walk : Walk whole any_price
first_walk = start_walk whole any_price 11

abbrev last_walk : Walk whole any_price
last_walk = record first_walk { held = 2; mae = pos 0; mfe = pos 0; decided_on = 13 }

abbrev sold : Trade whole any_price
sold = record {
  entry_date = 11;
  entry_price = pos 100;
  exit_date = 13;
  exit_price = pos 80;
  exit_reason = stop_gap;
  sessions_held = 2;
  gross_return = negsuc 0;
  mae = pos 0;
  mfe = pos 0;
  touched_t1 = false;
  touched_t2 = false;
  price_basis_factor = pos 1;
}

gapped :
    walk_bars whole any_price book 7 levels (locked_day ∷ gap_day ∷ []) first_walk
    ≡ ended (pos 80) 13 stop_gap last_walk
unfolding trigger next locked band_state frozen_state at_band is_untradeable stop_fill levels_of
    ◌+ℤ◌ ◌-ℤ◌ ◌*ℤ◌
gapped = refl

sold_at_open : resolve_one whole any_price book true 5 signalled 10 frame ≡ resolved sold
unfolding trigger next locked band_state frozen_state at_band is_untradeable stop_fill levels_of
    resolve_one basis_factor conclude ◌+ℤ◌ ◌-ℤ◌ ◌*ℤ◌
sold_at_open = refl

shut : locked whole any_price locked_day ≡ true
unfolding locked band_state frozen_state at_band is_untradeable ◌+ℤ◌ ◌-ℤ◌
shut = refl

let_go : closed_by_engine book 12 7 ≡ true
unfolding closed_by_engine
let_go = refl

still_held : closed_by_engine book 11 7 ≡ false
unfolding closed_by_engine
still_held = refl

no_target : target_fill whole any_price levels calm_day ≡ none
unfolding target_fill levels_of ◌*ℤ◌
no_target = refl

above_stop : breached whole any_price levels calm_day ≡ false
unfolding levels_of ◌*ℤ◌
above_stop = refl

basis : basis_factor whole any_price signalled frame 10 ≡ some (pos 1)
unfolding basis_factor
basis = refl

-- The same signal in two runs of the day
abbrev run : ℕ → Run whole any_price
run id = record {
  run_id = id;
  date = 10;
  logged_at = id;
  failed = false;
  signals_generated = 7 ∷ [];
  stocks_scored = signalled ∷ [];
}

walk_bars-ended_example :
    (pre : List (Session whole any_price)) × (b : Session whole any_price) × (post : List
      (Session whole any_price))
    × (locked_day ∷ gap_day ∷ [] ≡ pre ++ b ∷ post)
    × All (IsQuiet whole any_price book 7 levels) pre
    × (locked whole any_price b ≡ false)
    × IsExit whole any_price book 7 levels b
        (last_decided whole any_price book 7 levels 11 pre)
        (pos 80)
        stop_gap
    × (13 ≡ b.date)
    × (2 ≡ 0 + length pre + 1)
walk_bars-ended_example =
    walk_bars-ended whole any_price book 7 levels (locked_day ∷ gap_day ∷ []) first_walk last_walk
      (pos 80) 13 stop_gap gapped

walk_bars-stop_example : whole.lt levels.stop (pos 80) ≡ false
walk_bars-stop_example =
    walk_bars-stop whole any_price book 7 levels whole-IsOrdered (locked_day ∷ gap_day ∷ [])
      first_walk last_walk (pos 80) 13 stop_gap gapped (inr refl)

resolve_one-append_example :
    resolve_one whole any_price book true 5 signalled 10 (frame ++ calm_day ∷ []) ≡ resolved sold
resolve_one-append_example =
    resolve_one-append whole any_price book true 5 signalled 10 frame (calm_day ∷ []) sold
      sold_at_open

resolve_one-resolved_example :
    (t : Trade whole any_price) × (resolve_one whole any_price book true 2 signalled 10 frame
      ≡ resolved t)
resolve_one-resolved_example =
    resolve_one-resolved whole any_price book true 2 signalled 10 frame (locked_day ∷ gap_day ∷ [])
      (session 11 (pos 100) (pos 103) (pos 99) (pos 101)) (pos 90) (pos 1) refl refl basis refl
      (omega arith) (omega arith)

walk_bars-locked_example :
    walk_bars whole any_price book 7 levels (locked_day ∷ calm_day ∷ []) first_walk
    ≡ walk_bars whole any_price book 7 levels []
        (next whole any_price levels calm_day (next whole any_price levels locked_day first_walk))
walk_bars-locked_example =
    walk_bars-locked whole any_price book 7 levels locked_day calm_day [] first_walk shut let_go
      still_held above_stop no_target

resolve_pending-once_example :
    (u : List (Entry whole any_price)) × (t : Tally whole any_price) × (resolve_pending whole
        any_price
        (λ s. frame)
        true
        5
        (run 1 ∷ run 2 ∷ [])
        []
      ≡ ok (u, t))
    × (u ≡ [] ++ t.written)
    × EntriesOnce whole any_price u
    × (length t.written + t.still_open + t.refused
        ≡ length (pending_of whole any_price (run 1 ∷ run 2 ∷ []) []))
resolve_pending-once_example =
    resolve_pending-once whole any_price (λ s. frame) true 5 (run 1 ∷ run 2 ∷ []) [] tt
