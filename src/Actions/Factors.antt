-- ===== src/Actions/Factors.antt =====
-- data/corporate_actions.py: what the factor of a date is.
use prosignal.Prelude.{ℕ, ◌≡◌, refl, ap, ◌∙◌, List, [], ◌∷◌, map, ltb, if◌then◌else◌}
use prosignal.Prelude.Floats.{FloatOps}
use prosignal.Actions.Defs.{Ratio, usable, scale_before, scale_all, build_adjustment_factors}

module _ (F : FloatOps) where
  open F use {Float, mul, ratio}

  -- The product of the ratios that take effect after a date, in the order of the rows
  abbrev pub product_after : ℕ → Float → List (ℕ × Float) → Float
  product_after day acc [] = acc
  product_after day acc (u ∷ us) = product_after day (if ltb day u.0 then mul acc u.1 else acc) us

  scale_all-map :
      (us : List (ℕ × Float)) (dates : List ℕ) (g : ℕ → Float)
      → scale_all F us dates (map g dates) ≡ map (λ d. product_after d (g d) us) dates
  scale_all-map [] dates g = refl
  scale_all-map (u ∷ us) dates g =
      ap (scale_all F us dates) (scaled dates)
      ∙ scale_all-map us dates (λ d. if ltb d u.0 then mul (g d) u.1 else g d)
    where
      scaled :
          (ds : List ℕ)
          → scale_before F u ds (map g ds) ≡ map (λ d. if ltb d u.0 then mul (g d) u.1 else g d) ds
      scaled [] = refl
      scaled (d ∷ ds) = ap (λ fs. (if ltb d u.0 then mul (g d) u.1 else g d) ∷ fs) (scaled ds)

  -- The factor of each date is the product of the usable ratios whose ex-date is strictly after it,
  -- and of no other.
  pub build_adjustment_factors-map :
      (limit : Float) (dates : List ℕ) (actions : List (Ratio F))
      → build_adjustment_factors F limit dates actions
        ≡ map (λ d. product_after d (ratio 1 1) (usable F limit actions)) dates
  unfolding build_adjustment_factors
  build_adjustment_factors-map limit dates actions =
      scale_all-map (usable F limit actions) dates (λ d. ratio 1 1)
