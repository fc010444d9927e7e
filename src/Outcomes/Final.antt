-- ===== src/Outcomes/Final.antt =====
-- outcomes.py: what later bars do to an outcome.
use prosignal.Prelude.{
  ℕ, zero, suc, ◌≤◌, ◌≡◌, refl, sym, ap, ◌∙◌, ◌⊎◌, inl, inr, Bool, Option, none, some, List, [],
  ◌∷◌, ◌++◌, arith, ltb, ◌==◌, Bool-cases, Option-cases, length, take, length-take, take-append,
  filter-append,
}
use prosignal.Prelude.Floats.{FloatOps}
use prosignal.Outcomes.Defs.{
  Reason, Holdings, Session, Levels, Walk, trigger, next, Ending, running, ended, walk_bars,
}
use prosignal.Outcomes.Resolve.{
  Rec, first_on, basis_of, basis_factor, Trade, resolved, levels_of, start_walk, conclude, settle,
  resolve_priced, unpriced, resolve_future, after, resolve_one,
}
use prosignal.Outcomes.Walk.{silent_turn, fired_turn}

first_on-append :
    (F : FloatOps) (isfinite : F.Float → Bool) (day : ℕ) (frame more : List (Session F isfinite))
    (b : Session F isfinite)
    → first_on F isfinite day frame ≡ some b
    → first_on F isfinite day (frame ++ more) ≡ some b
first_on-append F isfinite day [] more b = λ h. cc
first_on-append F isfinite day (x ∷ frame) more b = elim (Bool-cases (x.date == day)) [
  | inl hit ↦ rw hit (λ h. h)
  | inr miss ↦ rw miss (first_on-append F isfinite day frame more b)
]

take-more {ℓ} :
    {A : Type ℓ} (n : ℕ) (xs ys : List A) → (zs : List A) × (take n (xs ++ ys) ≡ take n xs ++ zs)
take-more zero xs ys = ([], refl)
take-more (suc n) [] ys = (take (suc n) ys, refl)
take-more (suc n) (x ∷ xs) ys = let (zs, h) = take-more n xs ys in (zs, ap (λ us. x ∷ us) h)

module _ (F : FloatOps) (isfinite : F.Float → Bool) (book : Holdings) (use_target : Bool)
    (max_hold : ℕ) (rec : Rec F isfinite) where
  open F use {Float, le, ratio}

  walk_bars-append :
      (l : Levels F isfinite) (bs more : List (Session F isfinite)) (w v : Walk F isfinite)
      (price : Float) (day : ℕ) (reason : Reason)
      → walk_bars F isfinite book rec.ticker l bs w ≡ ended price day reason v
      → walk_bars F isfinite book rec.ticker l (bs ++ more) w ≡ ended price day reason v
  walk_bars-append l [] more w v price day reason h = cc
  walk_bars-append l (b ∷ bs) more w v price day reason h =
      elim (Option-cases (trigger F isfinite book rec.ticker l w b)) [
        | inr (exit, fired) ↦
            fired_turn F isfinite book rec.ticker l b (bs ++ more) w exit fired
            ∙ sym (fired_turn F isfinite book rec.ticker l b bs w exit fired)
            ∙ h
        | inl silent ↦
            silent_turn F isfinite book rec.ticker l b (bs ++ more) w silent
            ∙ walk_bars-append l bs more (next F isfinite l b w) v price day reason
                (sym (silent_turn F isfinite book rec.ticker l b bs w silent) ∙ h)
      ]

  pub Ending-cases :
      (e : Ending F isfinite)
      → ((w : Walk F isfinite) × (e ≡ running w))
        ⊎ ((p : Float) × (d : ℕ) × (r : Reason) × (w : Walk F isfinite) × (e ≡ ended p d r w))
  Ending-cases (running w) = inl (w, refl)
  Ending-cases (ended p d r w) = inr (p, d, r, w, refl)

  basis_of-none : (o : Option Float) → basis_of F isfinite o none ≡ none
  basis_of-none none = refl
  basis_of-none (some recorded) = elim (Bool-cases (le recorded (ratio 0 1))) [
    | inl bad ↦ rw bad refl
    | inr good ↦ rw good refl
  ]

  basis_factor-append :
      (frame more : List (Session F isfinite)) (day : ℕ) (factor : Float)
      → basis_factor F isfinite rec frame day ≡ some factor
      → basis_factor F isfinite rec (frame ++ more) day ≡ some factor
  unfolding basis_factor
  basis_factor-append frame more day factor h =
      elim (Option-cases (first_on F isfinite day frame)) [
        | inl absent ↦
            let bad =
              sym (basis_of-none rec.last_close)
              ∙ sym (ap (basis_of F isfinite rec.last_close) absent)
              ∙ h in
            cc
        | inr (b, found) ↦
            ap (basis_of F isfinite rec.last_close)
              (first_on-append F isfinite day frame more b found ∙ sym found)
            ∙ h
      ]

  settle-append :
      (entry_row : Session F isfinite) (rest more : List (Session F isfinite))
      (level factor : Float) (t : Trade F isfinite)
      → settle F isfinite book use_target max_hold rec entry_row (take max_hold rest) level factor
        ≡ resolved t
      → settle F isfinite book use_target max_hold rec entry_row
          (take max_hold (rest ++ more))
          level
          factor
        ≡ resolved t
  unfolding conclude
  settle-append entry_row rest more level factor t h =
      let l = levels_of F isfinite rec level factor entry_row.open_price use_target in
      let w0 = start_walk F isfinite entry_row.date in
      elim (Ending-cases (walk_bars F isfinite book rec.ticker l (take max_hold rest) w0)) [
        | inr (p, d, r, w, e) ↦
            let (zs, longer) = take-more max_hold rest more in
            ap (λ bs. settle F isfinite book use_target max_hold rec entry_row bs level factor)
              longer
            ∙ ap (conclude F isfinite entry_row factor max_hold (take max_hold rest ++ zs))
                (walk_bars-append l (take max_hold rest) zs w0 w p d r e)
            ∙ sym (ap (conclude F isfinite entry_row factor max_hold (take max_hold rest)) e)
            ∙ h
        | inl (w, e) ↦
            let waits =
              sym (ap (conclude F isfinite entry_row factor max_hold (take max_hold rest)) e) ∙ h in
            ap (λ bs. settle F isfinite book use_target max_hold rec entry_row bs level factor)
              (take-append max_hold rest more (elapsed w waits))
            ∙ h
      ]
    where
      elapsed :
          (w : Walk F isfinite)
          → conclude F isfinite entry_row factor max_hold (take max_hold rest) (running w)
            ≡ resolved t
          → max_hold ≤ length rest
      elapsed w = elim (Bool-cases (ltb (length (take max_hold rest)) max_hold)) [
        | inl short ↦ rw short (λ k. cc)
        | inr full ↦ λ k.
            let long : max_hold ≤ length (take max_hold rest) = ground arith in
            omega (arith, length-take max_hold rest)
      ]

  future-append :
      (basis basis' : Option Float) (xs more : List (Session F isfinite)) (t : Trade F isfinite)
      → ((f : Float) → basis ≡ some f → basis' ≡ some f)
      → resolve_future F isfinite book use_target max_hold rec basis xs ≡ resolved t
      → resolve_future F isfinite book use_target max_hold rec basis' (xs ++ more) ≡ resolved t
  future-append basis basis' [] more t keeps = λ h. cc
  future-append basis basis' (b ∷ rest) more t keeps = elim (Bool-cases (unpriced F isfinite b)) [
    | inl bad ↦ rw bad (λ h. cc)
    | inr good ↦ rw good (priced basis basis' rec.stop keeps)
  ]
    where
      priced :
          (o o' level : Option Float)
          → ((f : Float) → o ≡ some f → o' ≡ some f)
          → resolve_priced F isfinite book use_target max_hold rec b rest o level ≡ resolved t
          → resolve_priced F isfinite book use_target max_hold rec b (rest ++ more) o' level
            ≡ resolved t
      priced none o' level k h = cc
      priced (some f) o' none k h = cc
      priced (some f) o' (some level) k h =
          ap
            (λ (x : Option Float).
              resolve_priced F isfinite book use_target max_hold rec b (rest ++ more) x
                (some level))
            (k f refl)
          ∙ settle-append b rest more level f t h

  -- A resolved outcome is final: whatever bars are added to the frame later, the same book resolves
  -- the signal to the same trade.
  pub resolve_one-append :
      (day : ℕ) (frame more : List (Session F isfinite)) (t : Trade F isfinite)
      → resolve_one F isfinite book use_target max_hold rec day frame ≡ resolved t
      → resolve_one F isfinite book use_target max_hold rec day (frame ++ more) ≡ resolved t
  unfolding resolve_one
  resolve_one-append day frame more t h =
      ap
        (resolve_future F isfinite book use_target max_hold rec
          (basis_factor F isfinite rec (frame ++ more) day))
        (filter-append (λ (b : Session F isfinite). ltb day b.date) frame more)
      ∙ future-append (basis_factor F isfinite rec frame day)
          (basis_factor F isfinite rec (frame ++ more) day) (after F isfinite day frame)
          (after F isfinite day more) t (λ f k. basis_factor-append frame more day f k) h
