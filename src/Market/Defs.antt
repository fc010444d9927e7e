-- ===== src/Market/Defs.antt =====
-- liquidity.py: `LiquidityView` and `assess`; indicators/circuit.py: `band_state` and
-- `is_untradeable`.
use prosignal.Prelude.{
  ℕ, Bool, true, false, not, ◌&&◌, ◌||◌, Option, none, some, ltb, if◌then◌else◌,
}
use prosignal.Prelude.Floats.{FloatOps}

pub data LiquidityState : Type 0 where
  known_valid known_stale missing invalid : LiquidityState

pub data BandState : Type 0 where
  open_band upper_circuit lower_circuit frozen no_trade unknown : BandState

unfoldable pub is_untradeable : BandState → Bool
is_untradeable upper_circuit = true
is_untradeable lower_circuit = true
is_untradeable frozen = true
is_untradeable no_trade = true
is_untradeable _ = false

module _ (F : FloatOps) where
  open F use {Float, lt, le, add, mul, div, neg, abs, ratio}

  -- A raw reading: absent, not convertible, not finite, or a finite value.
  pub data Reading : Type 0 where
    absent not_number : Reading
    not_finite finite : Float → Reading

  pub record LiquidityView : Type 0 where
    pub state : LiquidityState
    pub adtv_inr : Option Float
    pub raw_adtv_inr : Option Float
    pub age_sessions : Option ℕ

  unfoldable pub tradable : LiquidityView → Bool
  tradable v = elim v.state as (λ s. Bool) [
    | known_valid ↦ true
    | known_stale ↦ true
    | missing ↦ false
    | invalid ↦ false
  ]

  unfoldable pub confident : LiquidityView → Bool
  confident v = elim v.state as (λ s. Bool) [
    | known_valid ↦ true
    | known_stale ↦ false
    | missing ↦ false
    | invalid ↦ false
  ]

  abbrev view : LiquidityState → Option Float → Option Float → Option ℕ → LiquidityView
  view state adtv raw age = record {
    state = state;
    adtv_inr = adtv;
    raw_adtv_inr = raw;
    age_sessions = age;
  }

  -- `age_sessions is not None and age_sessions > max_age_sessions`
  abbrev pub is_old : Option ℕ → ℕ → Bool
  is_old none limit = false
  is_old (some age) limit = ltb limit age

  unfoldable pub assess : Reading → Option ℕ → ℕ → Bool → LiquidityView
  assess absent age max_age allow_stale = view missing none none age
  assess not_number age max_age allow_stale = view invalid none none age
  assess (not_finite x) age max_age allow_stale = view invalid none (some x) age
  assess (finite x) age max_age allow_stale =
      if le x (ratio 0 1)
      then view invalid none (some x) age
      else if is_old age max_age
      then if not allow_stale
        then view missing none (some x) age
        else view known_stale (some (mul x (ratio 1 2))) (some x) age
      else view known_valid (some x) (some x) age

  -- A bar; `none` is a value that is missing or not finite.
  pub record Bar : Type 0 where
    pub high : Option Float
    pub low : Option Float
    pub close : Option Float
    pub prev_close : Option Float
    pub volume : Option Float

  abbrev near_level : Float → Float → Bool
  near_level move level = le (abs (add (abs move) (neg level))) (ratio 6 1000)

  unfoldable pub at_band : Float → Bool
  at_band move =
      near_level move (ratio 2 100)
      || near_level move (ratio 5 100)
      || near_level move (ratio 10 100)
      || near_level move (ratio 20 100)

  -- `==` on finite values
  abbrev pub same : Float → Float → Bool
  same x y = le x y && le y x

  -- The label of a bar with one price, by the close before it.
  unfoldable pub frozen_state : Float → Option Float → BandState
  frozen_state close none = frozen
  frozen_state close (some prev) =
      let move = add (div close prev) (neg (ratio 1 1)) in
      if le prev (ratio 0 1)
      then frozen
      else if lt (abs move) (ratio 15 1000) || not (at_band move)
      then frozen
      else if lt (ratio 0 1) move
      then upper_circuit
      else lower_circuit

  -- The values that a complete bar has: high, low, close and volume.
  abbrev pub complete : Bar → Option (Float × Float × Float × Float)
  complete bar = elim bar.high [
    | none ↦ none
    | some h ↦ elim bar.low [
      | none ↦ none
      | some l ↦ elim bar.close [
        | none ↦ none
        | some c ↦ elim bar.volume [ none ↦ none | some v ↦ some (h, l, c, v) ]
      ]
    ]
  ]

  unfoldable pub band_state : Bar → BandState
  band_state bar = elim (complete bar) as (λ x. BandState) [
    | none ↦ unknown
    | some (h, l, c, v) ↦
        if le v (ratio 0 1)
        then no_trade
        else if not (same h l)
        then open_band
        else frozen_state c bar.prev_close
  ]
