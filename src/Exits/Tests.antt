-- ===== src/Exits/Tests.antt =====
-- features/exits.py: a position opened at 100, over integers in place of floats. On its second bar
-- both the target and the invalidation level are met.
use prosignal.Prelude.{
  ◌+◌, ◌≤◌, ◌<◌, ◌≡◌, refl, Bool, true, ◌&&◌, some, List, [], ◌∷◌, ◌++◌, arith, if◌then◌else◌,
  length,
}
use prosignal.Prelude.Int.{ℤ, pos, negsuc, ◌+ℤ◌, ◌-ℤ◌, ◌*ℤ◌, ltb_ℤ}
use prosignal.Prelude.Whole.{whole}
use prosignal.Exits.Defs.{
  exit_invalidation, first_hit, ExitRules, Row, stop_fraction, invalidation_level,
  tradeable_at_entry, Levels, levels_of, hit_stop, hit_target, hit_inval, Exit, stop_fill,
  resolve_window, usable, resolve_exits,
}
use prosignal.Exits.Walk.{walk}
use prosignal.Exits.Masks.{exit_of, resolve_window-walk}
use prosignal.Exits.Window.{resolve_exits-append, resolve_exits-IsWithin}

abbrev any_price : ℤ → Bool
any_price x = true

abbrev clip : ℤ → ℤ → ℤ → ℤ
clip x lo hi = if ltb_ℤ x lo then lo else if ltb_ℤ hi x then hi else x

abbrev lesser : ℤ → ℤ → ℤ
lesser a b = if ltb_ℤ b a then b else a

abbrev rules : ExitRules whole any_price clip lesser
rules = record {
  stop_atr_multiple = pos 1;
  min_stop_distance_pct = pos 100;
  max_stop_distance_pct = pos 100;
  target_r_multiple = pos 1;
  invalidation_buffer_atr = pos 0;
  horizon = 2;
  use_stop = true;
  use_target = true;
  use_invalidation = true;
}

abbrev row : ℤ → ℤ → ℤ → Row whole any_price clip lesser
row h l c = record { open_price = c; high = h; low = l; close = c; ma = pos 50; atr = pos 5 }

abbrev opened : Row whole any_price clip lesser
opened = row (pos 105) (pos 95) (pos 100)

abbrev calm : Row whole any_price clip lesser
calm = row (pos 150) (pos 60) (pos 120)

abbrev both : Row whole any_price clip lesser
both = row (pos 210) (pos 30) (pos 40)

abbrev rows : List (Row whole any_price clip lesser)
rows = opened ∷ calm ∷ both ∷ []

abbrev levels : Levels whole any_price clip lesser
levels = levels_of whole any_price clip lesser rules opened

abbrev invalidated : Exit whole any_price clip lesser
invalidated = record { ret = negsuc 0; side = exit_invalidation; held = 2; t1 = 2 }

invalidated_first : resolve_exits whole any_price clip lesser rules rows 0 ≡ some invalidated
unfolding resolve_exits usable resolve_window levels_of first_hit hit_stop hit_target hit_inval
    stop_fill stop_fraction tradeable_at_entry invalidation_level ◌+ℤ◌ ◌-ℤ◌ ◌*ℤ◌
invalidated_first = refl

resolve_window-walk_example :
    resolve_window whole any_price clip lesser rules levels (calm ∷ both ∷ []) 0 2
    ≡ exit_of whole any_price clip lesser levels (calm ∷ both ∷ []) 0 2 (
        walk
          (λ b. rules.use_stop && hit_stop whole any_price clip lesser levels b)
          (λ b. rules.use_invalidation && hit_inval whole any_price clip lesser rules b)
          (λ b. rules.use_target && hit_target whole any_price clip lesser levels b)
          (calm ∷ both ∷ []))
resolve_window-walk_example =
    resolve_window-walk whole any_price clip lesser rules levels (calm ∷ both ∷ []) 0 2

resolve_exits-append_example :
    resolve_exits whole any_price clip lesser rules (rows ++ calm ∷ []) 0
    ≡ resolve_exits whole any_price clip lesser rules rows 0
resolve_exits-append_example =
    resolve_exits-append whole any_price clip lesser rules rows (calm ∷ []) 0 (omega arith)

resolve_exits-IsWithin_example : (1 ≤ 2) × (2 ≤ 2) × (2 ≡ 0 + 2) × (2 < length rows)
resolve_exits-IsWithin_example =
    resolve_exits-IsWithin whole any_price clip lesser rules rows 0 invalidated invalidated_first
