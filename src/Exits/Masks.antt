-- ===== src/Exits/Masks.antt =====
-- features/exits.py: the masks of `resolve_exits` give the exit that a walk over the bars gives.
use prosignal.Prelude.{
  ℕ, ◌+◌, ◌-◌, ◌<◌, min, ◌≡◌, refl, ap, ◌∙◌, Bool, true, false, ◌&&◌, Option, none, some, List,
  arith, ltb, ◌==◌, if◌then◌else◌, lt→ltb, ==_iff, length, get_elem?,
}
use prosignal.Prelude.Floats.{FloatOps}
use prosignal.Exits.Defs.{
  Side, exit_stop, exit_target, exit_invalidation, exit_timeout, first_hit, side_at, ExitRules, Row,
  Levels, hit_stop, hit_target, hit_inval, Exit, timeout_exit, exit_at, from_first, from_hits,
  resolve_window,
}
use prosignal.Exits.Walk.{walk, first_hit-armed, IsEnd, walk-IsEnd}

module _ (F : FloatOps) (isfinite : F.Float → Bool) (clip : F.Float → F.Float → F.Float → F.Float)
    (minimum : F.Float → F.Float → F.Float) where
  abbrev Bars : Type 0
  Bars = List (Row F isfinite clip minimum)

  -- The exit of a walk
  abbrev pub exit_of :
      Levels F isfinite clip minimum
      → Bars
      → ℕ
      → ℕ
      → Option (ℕ × Side × Row F isfinite clip minimum)
      → Option (Exit F isfinite clip minimum)
  exit_of l bars i end none = timeout_exit F isfinite clip minimum l bars end
  exit_of l bars i end (some (k, side, b)) = some (exit_at F isfinite clip minimum l i k side b)

  module _ (l : Levels F isfinite clip minimum) (bars : Bars) (i end : ℕ) where
    -- The row that is taken, and its exit
    from_hits-at :
        (s v t k : ℕ) (side : Side) (b : Row F isfinite clip minimum)
        → min (min s t) v ≡ k
        → side_at k s v ≡ side
        → k < length bars
        → get_elem? bars k ≡ some b
        → from_hits F isfinite clip minimum l bars i end s t v
          ≡ some (exit_at F isfinite clip minimum l i k side b)
    from_hits-at s v t k side b first decided inside at =
        let in_time : ltb (length bars) k ≡ false = ground arith in
        let clipped : min k (length bars - 1) ≡ k = omega arith in
        let taken : get_elem? bars (min k (length bars - 1)) ≡ some b =
          ap (get_elem? bars) clipped ∙ at in
        let on_bar : from_first F isfinite clip minimum l bars i end s v k
            ≡ some (exit_at F isfinite clip minimum l i k (side_at k s v) b) =
          rw in_time (rw taken refl) in
        ap (from_first F isfinite clip minimum l bars i end s v) first
        ∙ on_bar
        ∙ ap (λ x. some (exit_at F isfinite clip minimum l i k x b)) decided

    from_hits-IsEnd :
        (s v t : ℕ) (w : Option (ℕ × Side × Row F isfinite clip minimum))
        → IsEnd s v t bars w
        → from_hits F isfinite clip minimum l bars i end s t v ≡ exit_of l bars i end w
    from_hits-IsEnd s v t none h =
        let out : ltb (length bars) (min (min s t) v) ≡ true =
          lt→ltb (length bars) (min (min s t) v) (omega arith) in
        rw out refl
    from_hits-IsEnd s v t (some (k, exit_stop, b)) h =
        from_hits-at s v t k exit_stop b (omega arith)
          (let on : (s == k) ≡ true = (==_iff s k).1 h.0 in rw on refl) h.3 h.4
    from_hits-IsEnd s v t (some (k, exit_invalidation, b)) h =
        from_hits-at s v t k exit_invalidation b (omega arith)
          (let off : (s == k) ≡ false = ground arith in
            let on : (v == k) ≡ true = (==_iff v k).1 h.1 in rw (off, on) refl)
          h.3 h.4
    from_hits-IsEnd s v t (some (k, exit_target, b)) h =
        from_hits-at s v t k exit_target b (omega arith)
          (let off : (s == k) ≡ false = ground arith in
            let out : (v == k) ≡ false = ground arith in rw (off, out) refl)
          h.3 h.4
    from_hits-IsEnd s v t (some (k, exit_timeout, b)) h = absurd h

  -- Taken by the first hit of each mask, the exit is that of the position walked bar by bar: on the
  -- first bar that meets an armed level, a stop before an invalidation before a target, and at the
  -- close of the last bar if none does.
  pub resolve_window-walk :
      (rules : ExitRules F isfinite clip minimum) (l : Levels F isfinite clip minimum) (bars : Bars)
      (i end : ℕ)
      → resolve_window F isfinite clip minimum rules l bars i end
        ≡ exit_of l bars i end (
            walk
              (λ b. rules.use_stop && hit_stop F isfinite clip minimum l b)
              (λ b. rules.use_invalidation && hit_inval F isfinite clip minimum rules b)
              (λ b. rules.use_target && hit_target F isfinite clip minimum l b)
              bars)
  unfolding resolve_window
  resolve_window-walk rules l bars i end =
      let stops = λ (b : Row F isfinite clip minimum).
        rules.use_stop && hit_stop F isfinite clip minimum l b in
      let fails = λ (b : Row F isfinite clip minimum).
        rules.use_invalidation && hit_inval F isfinite clip minimum rules b in
      let takes = λ (b : Row F isfinite clip minimum).
        rules.use_target && hit_target F isfinite clip minimum l b in
      let hits = from_hits F isfinite clip minimum l bars i end in
      let never = length bars + 1 in
      let t0 =
        if rules.use_target then first_hit (hit_target F isfinite clip minimum l) bars else never in
      let v0 =
        if rules.use_invalidation
        then first_hit (hit_inval F isfinite clip minimum rules) bars
        else never in
      ap (λ x. hits x t0 v0)
        (first_hit-armed rules.use_stop (hit_stop F isfinite clip minimum l) bars)
      ∙ ap (λ x. hits (first_hit stops bars) x v0)
          (first_hit-armed rules.use_target (hit_target F isfinite clip minimum l) bars)
      ∙ ap (hits (first_hit stops bars) (first_hit takes bars))
          (first_hit-armed rules.use_invalidation (hit_inval F isfinite clip minimum rules) bars)
      ∙ from_hits-IsEnd l bars i end (first_hit stops bars) (first_hit fails bars)
          (first_hit takes bars) (walk stops fails takes bars) (walk-IsEnd stops fails takes bars)
