-- ===== src/Outcomes/Locked.antt =====
-- outcomes.py: the engine's decision at the close of a locked session.
use prosignal.Prelude.{
  ℕ, ◌≡◌, refl, ap, ◌∙◌, inl, inr, Bool, true, false, none, List, ◌∷◌, Bool-cases,
}
use prosignal.Prelude.Floats.{FloatOps}
use prosignal.Outcomes.Defs.{
  Holdings, closed_by_engine, Session, locked, Levels, Walk, breached, target_fill, trigger, next,
  walk_bars,
}
use prosignal.Outcomes.Walk.{silent_turn, next-decided}

module _ (F : FloatOps) (isfinite : F.Float → Bool) (book : Holdings) (ticker : ℕ)
    (l : Levels F isfinite) where
  -- What the engine decided at the close of a locked session is not carried out at the next open:
  -- if it closed the position there and held it at the decision before, and the next session
  -- meets no level, the walk goes on past that session.
  pub walk_bars-locked :
      (shut b : Session F isfinite) (bs : List (Session F isfinite)) (w : Walk F isfinite)
      → locked F isfinite shut ≡ true
      → closed_by_engine book shut.date ticker ≡ true
      → closed_by_engine book w.decided_on ticker ≡ false
      → breached F isfinite l b ≡ false
      → target_fill F isfinite l b ≡ none
      → walk_bars F isfinite book ticker l (shut ∷ b ∷ bs) w
        ≡ walk_bars F isfinite book ticker l bs (next F isfinite l b (next F isfinite l shut w))
  unfolding trigger
  walk_bars-locked shut b bs w locked_out out held above quiet =
      let u = next F isfinite l shut w in
      let first : trigger F isfinite book ticker l w shut ≡ none = rw locked_out refl in
      let still : closed_by_engine book u.decided_on ticker ≡ false =
        ap (λ d. closed_by_engine book d ticker)
          (next-decided F isfinite book ticker l shut w ∙ rw locked_out refl)
        ∙ held in
      let second : trigger F isfinite book ticker l u b ≡ none =
        elim (Bool-cases (locked F isfinite b)) [
          | inl also ↦ rw also refl
          | inr traded ↦ rw traded (rw above (rw quiet (rw still refl)))
        ] in
      silent_turn F isfinite book ticker l shut (b ∷ bs) w first
      ∙ silent_turn F isfinite book ticker l b bs u second
