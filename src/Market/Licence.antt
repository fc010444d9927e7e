-- ===== src/Market/Licence.antt =====
-- liquidity.py and indicators/circuit.py: which readings license a trade.
use prosignal.Prelude.{
  ℕ, ◌≡◌, refl, inl, inr, Bool, true, false, not, ◌&&◌, ◌||◌, Option, none, some, Bool-cases,
  Option-cases, is_some,
}
use prosignal.Prelude.Floats.{FloatOps}
use prosignal.Market.Defs.{
  is_untradeable, Reading, absent, not_number, not_finite, finite, tradable, confident, is_old,
  assess, Bar, at_band, same, frozen_state, complete, band_state,
}

module _ (F : FloatOps) where
  assess-usable :
      (r : Reading F) (age : Option ℕ) (max_age : ℕ) (allow_stale : Bool)
      → is_some (assess F r age max_age allow_stale).adtv_inr
        ≡ tradable F (assess F r age max_age allow_stale)
  unfolding assess tradable
  assess-usable absent age max_age allow_stale = refl
  assess-usable not_number age max_age allow_stale = refl
  assess-usable (not_finite x) age max_age allow_stale = refl
  assess-usable (finite x) age max_age allow_stale = elim (Bool-cases (F.le x (F.ratio 0 1))) [
    | inl nothing ↦ rw nothing refl
    | inr some_volume ↦ elim (Bool-cases (is_old F age max_age)) [
      | inr fresh ↦ rw (some_volume, fresh) refl
      | inl old ↦ elim (Bool-cases allow_stale) [
        | inl allowed ↦ rw (some_volume, old, allowed) refl
        | inr strict ↦ rw (some_volume, old, strict) refl
      ]
    ]
  ]

  assess-confident :
      (x : F.Float) (age : Option ℕ) (max_age : ℕ) (allow_stale : Bool)
      → confident F (assess F (finite x) age max_age allow_stale)
        ≡ (not (F.le x (F.ratio 0 1)) && not (is_old F age max_age))
  unfolding assess confident
  assess-confident x age max_age allow_stale = elim (Bool-cases (F.le x (F.ratio 0 1))) [
    | inl nothing ↦ rw nothing refl
    | inr some_volume ↦ elim (Bool-cases (is_old F age max_age)) [
      | inr fresh ↦ rw (some_volume, fresh) refl
      | inl old ↦ elim (Bool-cases allow_stale) [
        | inl allowed ↦ rw (some_volume, old, allowed) refl
        | inr strict ↦ rw (some_volume, old, strict) refl
      ]
    ]
  ]

  frozen_state-is_untradeable :
      (close : F.Float) (prev : Option F.Float) → is_untradeable (frozen_state F close prev) ≡ true
  unfolding frozen_state is_untradeable
  frozen_state-is_untradeable close none = refl
  frozen_state-is_untradeable close (some prev) =
      let move = F.add (F.div close prev) (F.neg (F.ratio 1 1)) in
      elim (Bool-cases (F.le prev (F.ratio 0 1))) [
        | inl nothing ↦ rw nothing refl
        | inr positive ↦
            elim (Bool-cases (F.lt (F.abs move) (F.ratio 15 1000) || not (at_band F move))) [
              | inl thin ↦ rw (positive, thin) refl
              | inr banded ↦ elim (Bool-cases (F.lt (F.ratio 0 1) move)) [
                | inl up ↦ rw (positive, banded, up) refl
                | inr down ↦ rw (positive, banded, down) refl
              ]
            ]
      ]

  -- A view has a usable turnover exactly when its state is tradable, and a reading is confident
  -- exactly when it is finite, positive and not too old.
  pub assess-licence :
      (x : F.Float) (r : Reading F) (age : Option ℕ) (max_age : ℕ) (allow_stale : Bool)
      → (is_some (assess F r age max_age allow_stale).adtv_inr
          ≡ tradable F (assess F r age max_age allow_stale))
        × (confident F (assess F (finite x) age max_age allow_stale)
            ≡ (not (F.le x (F.ratio 0 1)) && not (is_old F age max_age)))
  assess-licence x r age max_age allow_stale =
      (assess-usable r age max_age allow_stale, assess-confident x age max_age allow_stale)

  -- Whatever the previous close, a bar is untradeable exactly when it is complete and had no volume
  -- or one price.
  pub band_state-is_untradeable :
      (bar : Bar F)
      → is_untradeable (band_state F bar) ≡ elim (complete F bar) as (λ x. Bool) [
        | none ↦ false
        | some (h, l, c, v) ↦ F.le v (F.ratio 0 1) || same F h l
      ]
  unfolding band_state is_untradeable
  band_state-is_untradeable bar = elim (Option-cases (complete F bar)) [
    | inl gap ↦ rw (gap, band_state) refl
    | inr ((h, l, c, v), full) ↦ elim (Bool-cases (F.le v (F.ratio 0 1))) [
      | inl nothing ↦ rw (full, band_state) (rw nothing refl)
      | inr volume ↦ elim (Bool-cases (same F h l)) [
        | inl one ↦
            rw (full, band_state)
              (rw volume (rw one (frozen_state-is_untradeable c bar.prev_close)))
        | inr range ↦ rw (full, band_state) (rw volume (rw range refl))
      ]
    ]
  ]
