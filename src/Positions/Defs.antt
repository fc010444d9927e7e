-- ===== src/Positions/Defs.antt =====
-- positions.py: `UniverseEvent`, `PositionAction`, `PositionDirective` and `review_open_position`.
-- A date is its ordinal; a reason is a constructor, a ticker and a stated exclusion are numbers.
use prosignal.Prelude.{
  ℕ, Bool, false, not, ◌&&◌, ◌||◌, Option, none, some, List, [], ◌∷◌, ltb, leb, if◌then◌else◌,
  is_some, length, filter,
}
use prosignal.Prelude.Floats.{FloatOps}

pub data UniverseEvent : Type 0 where
  no_event reconstitution suspension delisting : UniverseEvent

pub data PositionAction : Type 0 where
  hold hold_and_flag force_exit : PositionAction

pub data Reason : Type 0 where
  no_print_delisted no_print_suspended : ℕ → Reason
  left_universe trading_normally : Reason
  set_aside : ℕ → Reason

abbrev pub suspension_sessions : ℕ
suspension_sessions = 5

abbrev pub delisting_sessions : ℕ
delisting_sessions = 30

module _ (F : FloatOps) where
  open F use {Float, lt, ratio}

  -- A row of the frame; `none` is a value that is missing or not numeric.
  pub record Row : Type 0 where
    pub date : ℕ
    pub close : Option Float
    pub volume : Option Float

  pub record Frame : Type 0 where
    pub has_close : Bool
    pub has_volume : Bool
    pub has_date : Bool
    pub rows : List Row

  pub record PositionDirective : Type 0 where
    pub ticker : ℕ
    pub event : UniverseEvent
    pub action : PositionAction
    pub reason : Reason
    pub last_tradeable_price : Option Float
    pub last_tradeable_date : Option ℕ

  -- `fillna(0) > 0`
  abbrev pub has_volume_above_zero : Row → Bool
  has_volume_above_zero r = elim r.volume as (λ x. Bool) [
    | none ↦ lt (ratio 0 1) (ratio 0 1)
    | some v ↦ lt (ratio 0 1) v
  ]

  -- The rows left in `traded`
  unfoldable pub traded : Option Frame → List Row
  traded none = []
  traded (some f) =
      let closed = filter (λ r. is_some r.close) f.rows in
      if not f.has_close
      then []
      else if f.has_volume
      then filter has_volume_above_zero closed
      else closed

  abbrev pub last_row : List Row → Option Row
  last_row [] = none
  last_row (r ∷ rs) = elim (last_row rs) [ some l ↦ some l | none ↦ some r ]

  abbrev pub with_date : Option Frame → Bool
  with_date none = false
  with_date (some f) = f.has_date

  -- `last_date`
  unfoldable pub last_date : Option Frame → Option ℕ
  last_date frame = elim (last_row (traded frame)) [
    | none ↦ none
    | some r ↦ if with_date frame then some r.date else none
  ]

  unfoldable pub last_price : Option Frame → Option Float
  last_price frame = elim (last_row (traded frame)) [ none ↦ none | some r ↦ r.close ]

  unfoldable pub gap : Option Frame → ℕ → List ℕ → ℕ
  gap frame as_of sessions = elim (last_date frame) as (λ x. ℕ) [
    | none ↦ 0
    | some d ↦ length (filter (λ s. ltb d s && leb s as_of) sessions)
  ]

  abbrev pub classify : ℕ → Bool → Bool → Option ℕ → UniverseEvent × PositionAction × Reason
  classify silent in_universe delisted excluded_because =
      if delisted || leb delisting_sessions silent
      then (delisting, force_exit, no_print_delisted silent)
      else if leb suspension_sessions silent
      then (suspension, hold_and_flag, no_print_suspended silent)
      else if not in_universe
      then (reconstitution, hold_and_flag, left_universe)
      else elim excluded_because [
        | some why ↦ (no_event, hold, set_aside why)
        | none ↦ (no_event, hold, trading_normally)
      ]

  unfoldable pub review_open_position :
      ℕ → Option Frame → ℕ → Bool → List ℕ → Bool → Option ℕ → PositionDirective
  review_open_position ticker frame as_of in_universe sessions delisted excluded_because =
      let (event, action, reason) =
        classify (gap frame as_of sessions) in_universe delisted excluded_because in
      record {
        ticker = ticker;
        event = event;
        action = action;
        reason = reason;
        last_tradeable_price = last_price frame;
        last_tradeable_date = last_date frame;
      }
