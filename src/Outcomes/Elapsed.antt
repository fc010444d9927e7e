-- ===== src/Outcomes/Elapsed.antt =====
-- outcomes.py: when a signal has an outcome.
use prosignal.Prelude.{
  ℕ, ◌≤◌, ◌≡◌, refl, ap, ◌∙◌, ap₂, inl, inr, Bool, false, some, List, ◌∷◌, arith, ltb,
  if◌then◌else◌, Option-cases, length, take, length-take, last_of, last_of-none,
}
use prosignal.Prelude.Floats.{FloatOps}
use prosignal.Outcomes.Defs.{
  time_exit, stop_unfilled_circuit, after_circuit, Holdings, Session, Walk, running, walk_bars,
}
use prosignal.Outcomes.Resolve.{
  Rec, basis_factor, Trade, still_open, resolved, levels_of, start_walk, trade, conclude, settle,
  resolve_priced, unpriced, resolve_future, after, resolve_one,
}
use prosignal.Outcomes.Final.{Ending-cases}

module _ (F : FloatOps) (isfinite : F.Float → Bool) (book : Holdings) (use_target : Bool)
    (max_hold : ℕ) (rec : Rec F isfinite) where
  open F use {Float}

  settle-resolved :
      (entry_row : Session F isfinite) (walk : List (Session F isfinite)) (level factor : Float)
      → 1 ≤ max_hold
      → max_hold ≤ length walk
      → (t : Trade F isfinite) × (settle F isfinite book use_target max_hold rec entry_row walk
            level factor
          ≡ resolved t)
  unfolding conclude
  settle-resolved entry_row walk level factor long full =
      let l = levels_of F isfinite rec level factor entry_row.open_price use_target in
      let w0 = start_walk F isfinite entry_row.date in
      elim (Ending-cases F isfinite book use_target max_hold rec
        (walk_bars F isfinite book rec.ticker l walk w0)) [
          | inr (p, d, r, w, e) ↦ (
            trade F isfinite entry_row factor p d
                (if ltb 0 w.unfilled_stop_sessions then after_circuit r else r) w.held w,
            ap (conclude F isfinite entry_row factor max_hold walk) e,
          )
          | inl (w, e) ↦
              let (t, done) = elapsed w walk full in
              (t, ap (conclude F isfinite entry_row factor max_hold walk) e ∙ done)
        ]
    where
      elapsed :
          (w : Walk F isfinite) (bs : List (Session F isfinite))
          → max_hold ≤ length bs
          → (t : Trade F isfinite) × (conclude F isfinite entry_row factor max_hold bs (running w)
              ≡ resolved t)
      elapsed w bs full =
          let gone : ltb (length bs) max_hold ≡ false = ground arith in
          elim (Option-cases (last_of bs)) [
            | inl none_left ↦
                let none_at : length bs ≡ 0 =
                  ap (λ (xs : List (Session F isfinite)). length xs) (last_of-none bs none_left) in
                let bad : ⊥ = omega arith in absurd bad
            | inr (b, at) ↦ (
              trade F isfinite entry_row factor b.close b.date
                  (if ltb 0 w.unfilled_stop_sessions then stop_unfilled_circuit else time_exit)
                  (length bs) w,
              rw gone (rw at refl),
            )
          ]

  -- A signal whose entry and price basis are known, which has a stop, and after whose entry a whole
  -- window of sessions has passed, has an outcome: it is neither open nor refused.
  pub resolve_one-resolved :
      (day : ℕ) (frame rest : List (Session F isfinite)) (entry_row : Session F isfinite)
      (level factor : Float)
      → after F isfinite day frame ≡ entry_row ∷ rest
      → unpriced F isfinite entry_row ≡ false
      → basis_factor F isfinite rec frame day ≡ some factor
      → rec.stop ≡ some level
      → 1 ≤ max_hold
      → max_hold ≤ length rest
      → (t : Trade F isfinite) × (resolve_one F isfinite book use_target max_hold rec day frame
          ≡ resolved t)
  unfolding resolve_one
  resolve_one-resolved day frame rest entry_row level factor future priced basis has_stop long
        full =
      let whole : max_hold ≤ length (take max_hold rest) =
        omega (arith, length-take max_hold rest) in
      let (t, done) = settle-resolved entry_row (take max_hold rest) level factor long whole in
      (
        t,
        ap
              (resolve_future F isfinite book use_target max_hold rec
                (basis_factor F isfinite rec frame day))
              future
            ∙ ap
                (λ b.
                  if b
                  then still_open
                  else resolve_priced F isfinite book use_target max_hold rec entry_row rest
                      (basis_factor F isfinite rec frame day) rec.stop)
                priced
            ∙ ap₂ (resolve_priced F isfinite book use_target max_hold rec entry_row rest) basis
                has_stop
            ∙ done,
      )
