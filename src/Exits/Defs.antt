-- ===== src/Exits/Defs.antt =====
-- features/exits.py: `resolve_exits` for one symbol, that is for one column of the frames. A float
-- may be NaN, with which no comparison holds; `isfinite`, `clip` and `minimum` are numpy's.
use prosignal.Prelude.{
  ℕ, suc, ◌+◌, ◌-◌, min, Bool, true, ◌&&◌, Option, none, some, List, [], ◌∷◌, ltb, leb, ◌==◌,
  if◌then◌else◌, length, get_elem?, slice, any, last_of,
}
use prosignal.Prelude.Floats.{FloatOps}

pub data Side : Type 0 where
  exit_stop exit_target exit_invalidation exit_timeout : Side

-- `_first`: the row of the first hit of a mask, by `argmax`; `n_bars + 1` if there is none
abbrev pub argmax {ℓ} : {A : Type ℓ} → (A → Bool) → List A → ℕ
argmax mask [] = 0
argmax mask (b ∷ bs) = let rest = argmax mask bs in if mask b then 0 else suc rest

unfoldable pub first_hit {ℓ} : {A : Type ℓ} → (A → Bool) → List A → ℕ
first_hit mask bars = if any mask bars then argmax mask bars else length bars + 1

abbrev pub side_at : ℕ → ℕ → ℕ → Side
side_at first f_stop f_inval =
    if f_stop == first
    then exit_stop
    else if f_inval == first
    then exit_invalidation
    else exit_target

module _ (F : FloatOps) (isfinite : F.Float → Bool) (clip : F.Float → F.Float → F.Float → F.Float)
    (minimum : F.Float → F.Float → F.Float) where
  open F use {Float, lt, le, add, mul, div, neg, ratio}

  pub record ExitRules : Type 0 where
    pub stop_atr_multiple : Float
    pub min_stop_distance_pct : Float
    pub max_stop_distance_pct : Float
    pub target_r_multiple : Float
    pub invalidation_buffer_atr : Float
    pub horizon : ℕ
    pub use_stop : Bool
    pub use_target : Bool
    pub use_invalidation : Bool

  -- A row of the frames: prices, moving average and ATR
  pub record Row : Type 0 where
    pub open_price : Float
    pub high : Float
    pub low : Float
    pub close : Float
    pub ma : Float
    pub atr : Float

  abbrev sub : Float → Float → Float
  sub x y = add x (neg y)

  unfoldable pub stop_fraction : ExitRules → Float → Float → Float
  stop_fraction rules atr entry =
      div
        (clip (mul (div (mul rules.stop_atr_multiple atr) entry) (ratio 100 1))
          rules.min_stop_distance_pct rules.max_stop_distance_pct)
        (ratio 100 1)

  unfoldable pub invalidation_level : Float → Float → ExitRules → Float
  invalidation_level ma atr rules = sub ma (mul rules.invalidation_buffer_atr atr)

  -- On numpy values
  unfoldable pub tradeable_at_entry : Float → Float → Float → ExitRules → Bool
  tradeable_at_entry close ma atr rules =
      le (invalidation_level ma atr rules) close
      && isfinite (invalidation_level ma atr rules)
      && isfinite close

  pub record Levels : Type 0 where
    pub entry : Float
    pub stop_lvl : Float
    pub target_lvl : Float

  unfoldable pub levels_of : ExitRules → Row → Levels
  levels_of rules row =
      let dist = stop_fraction rules row.atr row.close in
      record {
        entry = row.close;
        stop_lvl = mul row.close (sub (ratio 1 1) dist);
        target_lvl = mul row.close (add (ratio 1 1) (mul rules.target_r_multiple dist));
      }

  unfoldable pub hit_stop : Levels → Row → Bool
  hit_stop l b = le b.low l.stop_lvl

  unfoldable pub hit_target : Levels → Row → Bool
  hit_target l b = le l.target_lvl b.high

  unfoldable pub hit_inval : ExitRules → Row → Bool
  hit_inval rules b =
      isfinite b.ma
      && isfinite b.atr
      && isfinite b.close
      && lt b.close (sub b.ma (mul rules.invalidation_buffer_atr b.atr))

  pub record Exit : Type 0 where
    pub ret : Float
    pub side : Side
    pub held : ℕ
    pub t1 : ℕ

  abbrev pub return_of : Float → Float → Float
  return_of price entry = sub (div price entry) (ratio 1 1)

  unfoldable pub stop_fill : Levels → Row → Float
  stop_fill l b = if isfinite b.open_price then minimum b.open_price l.stop_lvl else l.stop_lvl

  -- The return of an exit on a bar
  abbrev pub side_return : Levels → Side → Row → Float
  side_return l exit_stop b = return_of (stop_fill l b) l.entry
  side_return l exit_invalidation b = return_of b.close l.entry
  side_return l exit_target b = return_of l.target_lvl l.entry
  side_return l exit_timeout b = return_of b.close l.entry

  -- The exit of a window that ended without one
  abbrev pub timeout_on : Levels → Option Row → ℕ → ℕ → Option Exit
  timeout_on l none n_bars end = none
  timeout_on l (some b) n_bars end =
      some
        (record { ret = return_of b.close l.entry; side = exit_timeout; held = n_bars; t1 = end })

  abbrev pub timeout_exit : Levels → List Row → ℕ → Option Exit
  timeout_exit l bars end = timeout_on l (last_of bars) (length bars) end

  -- The exit of a side on a bar, `first` rows into the window
  abbrev pub exit_at : Levels → ℕ → ℕ → Side → Row → Exit
  exit_at l i first side b = record {
    ret = side_return l side b;
    side = side;
    held = first + 1;
    t1 = i + 1 + first;
  }

  -- What is taken of the bars at the first hit; `none` only for a window without bars
  abbrev pub from_first : Levels → List Row → ℕ → ℕ → ℕ → ℕ → ℕ → Option Exit
  from_first l bars i end f_stop f_inval first =
      if ltb (length bars) first
      then timeout_exit l bars end
      else elim (get_elem? bars (min first (length bars - 1))) [
        | none ↦ none
        | some b ↦ some (exit_at l i first (side_at first f_stop f_inval) b)
      ]

  abbrev pub from_hits : Levels → List Row → ℕ → ℕ → ℕ → ℕ → ℕ → Option Exit
  from_hits l bars i end f_stop f_target f_inval =
      from_first l bars i end f_stop f_inval (min (min f_stop f_target) f_inval)

  unfoldable pub resolve_window : ExitRules → Levels → List Row → ℕ → ℕ → Option Exit
  resolve_window rules l bars i end =
      let never = length bars + 1 in
      from_hits l bars i end (if rules.use_stop then first_hit (hit_stop l) bars else never)
        (if rules.use_target then first_hit (hit_target l) bars else never)
        (if rules.use_invalidation then first_hit (hit_inval rules) bars else never)

  unfoldable pub usable : ExitRules → Row → Bool
  usable rules row =
      isfinite row.close
      && lt (ratio 0 1) row.close
      && isfinite row.atr
      && (if isfinite row.ma && isfinite row.atr
          then tradeable_at_entry row.close row.ma row.atr rules
          else true)

  abbrev pub resolve_row : ExitRules → ℕ → ℕ → List Row → Option Row → Option Exit
  resolve_row rules i end bars none = none
  resolve_row rules i end bars (some row) =
      if usable rules row then resolve_window rules (levels_of rules row) bars i end else none

  abbrev pub resolve_to : ExitRules → List Row → ℕ → ℕ → Option Exit
  resolve_to rules rows i end =
      if leb end i
      then none
      else resolve_row rules i end (slice (i + 1) (end + 1) rows) (get_elem? rows i)

  -- `resolve_exits` at row i; `none` is a row of NaN
  unfoldable pub resolve_exits : ExitRules → List Row → ℕ → Option Exit
  resolve_exits rules rows i = resolve_to rules rows i (min (i + rules.horizon) (length rows - 1))
