-- ===== src/Outcomes/Defs.antt =====
-- outcomes.py: `_resolve_one`, the walk of one signal over the sessions after it. A price is a float,
-- NaN included; `isfinite` is `numpy.isfinite`. A date is its ordinal, a ticker a number.
use prosignal.Prelude.{
  ℕ, ◌+◌, Bool, false, not, ◌&&◌, ◌||◌, Option, none, some, List, [], ◌∷◌, if◌then◌else◌, elem,
}
use prosignal.Prelude.Floats.{FloatOps}
use prosignal.Market.{is_untradeable, band_state}

pub data Reason : Type 0 where
  stop stop_gap target book_exit time_exit stop_unfilled_circuit : Reason
  after_circuit : Reason → Reason

-- What the engine held at the close of a session; `none` where no run was recorded for it
abbrev pub Holdings : Type 0
Holdings = ℕ → Option (List ℕ)

unfoldable pub closed_by_engine : Holdings → ℕ → ℕ → Bool
closed_by_engine book when ticker = elim (book when) as (λ x. Bool) [
  | none ↦ false
  | some names ↦ not (elem ticker names)
]

module _ (F : FloatOps) (isfinite : F.Float → Bool) where
  open F use {Float, lt, le, add, mul, div, neg, ratio}

  pub record Session : Type 0 where
    pub date : ℕ
    pub open_price : Float
    pub high : Float
    pub low : Float
    pub close : Float
    pub prev_close : Float
    pub volume : Float

  abbrev reading : Float → Option Float
  reading x = if isfinite x then some x else none

  -- The bar locked at its price band
  unfoldable pub locked : Session → Bool
  locked b = is_untradeable (
      band_state F (record {
        high = reading b.high;
        low = reading b.low;
        close = reading b.close;
        prev_close = reading b.prev_close;
        volume = reading b.volume;
      }))

  -- The levels in the price basis of the bars
  pub record Levels : Type 0 where
    pub entry_price : Float
    pub stop : Float
    pub t1 : Option Float
    pub t2 : Option Float
    pub use_target : Bool

  -- The variables of the loop
  pub record Walk : Type 0 where
    pub held : ℕ
    pub mae : Float
    pub mfe : Float
    pub touched_t1 : Bool
    pub touched_t2 : Bool
    pub decided_on : ℕ
    pub unfilled_stop_sessions : ℕ

  -- Python's `min` and `max`, which keep the first argument where neither is less
  abbrev pub py_min : Float → Float → Float
  py_min a b = if lt b a then b else a

  abbrev pub py_max : Float → Float → Float
  py_max a b = if lt a b then b else a

  abbrev excursion : Float → Float → Float
  excursion price entry = div (add price (neg entry)) entry

  abbrev pub breached : Levels → Session → Bool
  breached l b = le b.low l.stop

  abbrev pub reaches : Option Float → Session → Bool
  reaches none b = false
  reaches (some t) b = le t b.high

  unfoldable pub stop_fill : Levels → Session → Float
  stop_fill l b = if isfinite b.open_price then py_min b.open_price l.stop else l.stop

  abbrev pub stop_reason : Levels → Session → Reason
  stop_reason l b = if lt (stop_fill l b) l.stop then stop_gap else stop

  unfoldable pub target_fill : Levels → Session → Option Float
  target_fill l b = if l.use_target && reaches l.t2 b then l.t2 else none

  -- The price and the reason of an exit on a bar
  unfoldable pub trigger : Holdings → ℕ → Levels → Walk → Session → Option (Float × Reason)
  trigger book ticker l w b =
      if locked b
      then none
      else if breached l b
      then some (stop_fill l b, stop_reason l b)
      else elim (target_fill l b) [
        | some t ↦ some (t, target)
        | none ↦
            if closed_by_engine book w.decided_on ticker
            then some (b.open_price, book_exit)
            else none
      ]

  -- The variables after a bar
  unfoldable pub next : Levels → Session → Walk → Walk
  next l b w =
      let seen = record w {
        held = w.held + 1;
        mae = py_min w.mae (excursion b.low l.entry_price);
        mfe = py_max w.mfe (excursion b.high l.entry_price);
      } in
      if locked b
      then record seen {
        unfilled_stop_sessions =
            if breached l b then w.unfilled_stop_sessions + 1 else w.unfilled_stop_sessions;
      }
      else record seen {
        touched_t1 = reaches l.t1 b || w.touched_t1;
        touched_t2 = reaches l.t2 b || w.touched_t2;
        decided_on = b.date;
      }

  pub data Ending : Type 0 where
    running : Walk → Ending
    ended : Float → ℕ → Reason → Walk → Ending

  -- The loop over the bars
  abbrev pub walk_bars : Holdings → ℕ → Levels → List Session → Walk → Ending
  walk_bars book ticker l [] w = running w
  walk_bars book ticker l (b ∷ bs) w = elim (trigger book ticker l w b) [
    | some (price, reason) ↦ ended price b.date reason (next l b w)
    | none ↦ walk_bars book ticker l bs (next l b w)
  ]
