-- ===== src/Outcomes/Resolve.antt =====
-- outcomes.py: `_basis_factor` and `_resolve_one`. The result has what the walk determines; the
-- costs, the position size and the stamps that are copied through are not modelled.
use prosignal.Prelude.{
  ℕ, Bool, false, not, ◌&&◌, ◌||◌, Option, none, some, List, [], ◌∷◌, ltb, ◌==◌, if◌then◌else◌,
  is_some, length, take, filter, last_of,
}
use prosignal.Prelude.Floats.{FloatOps}
use prosignal.Outcomes.Defs.{
  Reason, time_exit, stop_unfilled_circuit, after_circuit, Holdings, Session, Levels, Walk, Ending,
  running, ended, walk_bars,
}

module _ (F : FloatOps) (isfinite : F.Float → Bool) where
  open F use {Float, lt, le, add, mul, div, neg, ratio}

  -- What the ledger recorded of a signal; a level that is missing or 0 is `none`.
  pub record Rec : Type 0 where
    pub ticker : ℕ
    pub last_close : Option Float
    pub stop : Option Float
    pub target_1 : Option Float
    pub target_2 : Option Float

  abbrev pub first_on : ℕ → List (Session F isfinite) → Option (Session F isfinite)
  first_on day [] = none
  first_on day (b ∷ bs) = if b.date == day then some b else first_on day bs

  -- The factor within `_BASIS_MIN` and `_BASIS_MAX`
  abbrev reconcilable : Float → Option Float
  reconcilable factor =
      if le (ratio 1 1000) factor && le factor (ratio 1000 1) then some factor else none

  abbrev basis_on : Float → Option (Session F isfinite) → Option Float
  basis_on recorded none = none
  basis_on recorded (some row) =
      if not (isfinite row.close) || le row.close (ratio 0 1)
      then none
      else reconcilable (div row.close recorded)

  abbrev pub basis_of : Option Float → Option (Session F isfinite) → Option Float
  basis_of none row = none
  basis_of (some recorded) row = if le recorded (ratio 0 1) then none else basis_on recorded row

  unfoldable pub basis_factor : Rec → List (Session F isfinite) → ℕ → Option Float
  basis_factor rec frame signal_date = basis_of rec.last_close (first_on signal_date frame)

  pub record Trade : Type 0 where
    pub entry_date : ℕ
    pub entry_price : Float
    pub exit_date : ℕ
    pub exit_price : Float
    pub exit_reason : Reason
    pub sessions_held : ℕ
    pub gross_return : Float
    pub mae : Float
    pub mfe : Float
    pub touched_t1 : Bool
    pub touched_t2 : Bool
    pub price_basis_factor : Float

  -- `None`, `_REFUSED`, the `TypeError` of `float(None)`, or the dictionary
  pub data Outcome : Type 0 where
    still_open refused no_stop : Outcome
    resolved : Trade → Outcome

  abbrev scaled : Float → Option Float → Option Float
  scaled factor none = none
  scaled factor (some level) = some (mul level factor)

  unfoldable pub levels_of : Rec → Float → Float → Float → Bool → Levels F isfinite
  levels_of rec level factor entry use_target = record {
    entry_price = entry;
    stop = mul level factor;
    t1 = scaled factor rec.target_1;
    t2 = if is_some rec.target_2 then scaled factor rec.target_2 else scaled factor rec.target_1;
    use_target = use_target;
  }

  abbrev pub start_walk : ℕ → Walk F isfinite
  start_walk entry_date = record {
    held = 0;
    mae = ratio 0 1;
    mfe = ratio 0 1;
    touched_t1 = false;
    touched_t2 = false;
    decided_on = entry_date;
    unfilled_stop_sessions = 0;
  }

  abbrev pub trade : Session F isfinite → Float → Float → ℕ → Reason → ℕ → Walk F isfinite → Trade
  trade entry_row factor price day reason held w = record {
    entry_date = entry_row.date;
    entry_price = entry_row.open_price;
    exit_date = day;
    exit_price = price;
    exit_reason = reason;
    sessions_held = held;
    gross_return = add (div price entry_row.open_price) (neg (ratio 1 1));
    mae = w.mae;
    mfe = w.mfe;
    touched_t1 = w.touched_t1;
    touched_t2 = w.touched_t2;
    price_basis_factor = factor;
  }

  -- After the loop: a window that has not elapsed is a position still running.
  unfoldable pub conclude :
      Session F isfinite → Float → ℕ → List (Session F isfinite) → Ending F isfinite → Outcome
  conclude entry_row factor max_hold walk (ended price day reason w) = resolved (
      trade entry_row factor price day
        (if ltb 0 w.unfilled_stop_sessions then after_circuit reason else reason) w.held w)
  conclude entry_row factor max_hold walk (running w) =
      if ltb (length walk) max_hold then still_open else elim (last_of walk) [
        | none ↦ still_open
        | some bar ↦ resolved (
            trade entry_row factor bar.close bar.date
              (if ltb 0 w.unfilled_stop_sessions then stop_unfilled_circuit else time_exit)
              (length walk) w)
      ]

  abbrev pub settle :
      Holdings
      → Bool
      → ℕ
      → Rec
      → Session F isfinite
      → List (Session F isfinite)
      → Float
      → Float
      → Outcome
  settle book use_target max_hold rec entry_row walk level factor =
      conclude entry_row factor max_hold walk (
        walk_bars F isfinite book rec.ticker
          (levels_of rec level factor entry_row.open_price use_target) walk
          (start_walk entry_row.date))

  abbrev pub resolve_priced :
      Holdings
      → Bool
      → ℕ
      → Rec
      → Session F isfinite
      → List (Session F isfinite)
      → Option Float
      → Option Float
      → Outcome
  resolve_priced book use_target max_hold rec entry_row rest none level = refused
  resolve_priced book use_target max_hold rec entry_row rest (some factor) none = no_stop
  resolve_priced book use_target max_hold rec entry_row rest (some factor) (some level) =
      settle book use_target max_hold rec entry_row (take max_hold rest) level factor

  abbrev pub unpriced : Session F isfinite → Bool
  unpriced b = not (isfinite b.open_price) || le b.open_price (ratio 0 1)

  abbrev pub resolve_future :
      Holdings → Bool → ℕ → Rec → Option Float → List (Session F isfinite) → Outcome
  resolve_future book use_target max_hold rec basis [] = still_open
  resolve_future book use_target max_hold rec basis (entry_row ∷ rest) =
      if unpriced entry_row
      then still_open
      else resolve_priced book use_target max_hold rec entry_row rest basis rec.stop

  abbrev pub after : ℕ → List (Session F isfinite) → List (Session F isfinite)
  after signal_date frame = filter (λ b. ltb signal_date b.date) frame

  unfoldable pub resolve_one : Holdings → Bool → ℕ → Rec → ℕ → List (Session F isfinite) → Outcome
  resolve_one book use_target max_hold rec signal_date frame =
      resolve_future book use_target max_hold rec (basis_factor rec frame signal_date)
        (after signal_date frame)
