-- ===== src/Outcomes/Fill.antt =====
-- outcomes.py: the price at which `_resolve_one` fills a stop.
use prosignal.Prelude.{ℕ, ◌≡◌, ap, ◌∙◌, ◌⊎◌, inl, inr, Bool, false, List, Bool-cases}
use prosignal.Prelude.Floats.{FloatOps, IsOrdered}
use prosignal.Outcomes.Defs.{
  Reason, stop, stop_gap, target, book_exit, Holdings, Session, Levels, Walk, stop_fill, ended,
  walk_bars,
}
use prosignal.Outcomes.Walk.{walk_bars-ended}

module _ (F : FloatOps) (isfinite : F.Float → Bool) (book : Holdings) (ticker : ℕ)
    (l : Levels F isfinite) where
  open F use {Float, lt}

  module _ (laws : IsOrdered F) where
    irrefl : (x : Float) → lt x x ≡ false
    irrefl x = elim (Bool-cases (lt x x)) [
      | inl less ↦ laws.lt_asym x x less
      | inr not_less ↦ not_less
    ]

    stop_fill-level : (b : Session F isfinite) → lt l.stop (stop_fill F isfinite l b) ≡ false
    unfolding stop_fill
    stop_fill-level b = elim (Bool-cases (isfinite b.open_price)) [
      | inr unknown ↦ rw unknown (irrefl l.stop)
      | inl known ↦ elim (Bool-cases (lt l.stop b.open_price)) [
        | inr gap ↦ rw known (rw gap gap)
        | inl above ↦ rw known (rw above (irrefl l.stop))
      ]
    ]

    -- Where the order is that of numbers, a stop is never filled above its level, gap or not.
    pub walk_bars-stop :
        (bs : List (Session F isfinite)) (w v : Walk F isfinite) (price : Float) (day : ℕ)
        (reason : Reason)
        → walk_bars F isfinite book ticker l bs w ≡ ended price day reason v
        → (reason ≡ stop) ⊎ (reason ≡ stop_gap)
        → lt l.stop price ≡ false
    walk_bars-stop bs w v price day reason h k =
        let (pre, b, post, split, quiet, traded, exits, at, held) =
          walk_bars-ended F isfinite book ticker l bs w v price day reason h in
        elim exits [
          | inl (hit, p, r) ↦ ap (lt l.stop) p ∙ stop_fill-level b
          | inr (inl (above, p, r)) ↦ absurd (not_stop k (inl r))
          | inr (inr (above, quiet, out, p, r)) ↦ absurd (not_stop k (inr r))
        ]
      where
        not_stop : {r : Reason} → (r ≡ stop) ⊎ (r ≡ stop_gap) → (r ≡ target) ⊎ (r ≡ book_exit) → ⊥
        not_stop (inl a) (inl b) = cc
        not_stop (inl a) (inr b) = cc
        not_stop (inr a) (inl b) = cc
        not_stop (inr a) (inr b) = cc
