-- ===== src/Outcomes/Walk.antt =====
-- outcomes.py: on which bar the loop of `_resolve_one` ends, and at what price.
use prosignal.Prelude.{
  ℕ, ◌+◌, ◌≡◌, refl, sym, ap, ◌∙◌, subst, ◌⊎◌, inl, inr, Bool, true, false, Option, none, some,
  List, [], ◌∷◌, ◌++◌, arith, if◌then◌else◌, Bool-cases, Option-cases, length, All,
}
use prosignal.Prelude.Floats.{FloatOps}
use prosignal.Outcomes.Defs.{
  Reason, target, book_exit, Holdings, closed_by_engine, Session, locked, Levels, Walk, breached,
  stop_fill, stop_reason, target_fill, trigger, next, Ending, running, ended, walk_bars,
}

module _ (F : FloatOps) (isfinite : F.Float → Bool) (book : Holdings) (ticker : ℕ)
    (l : Levels F isfinite) where
  open F use {Float, lt, le}

  -- A bar on which no level is met that could be traded
  abbrev pub IsQuiet : Session F isfinite → Type 0
  IsQuiet b =
      (locked F isfinite b ≡ true)
      ⊎ ((breached F isfinite l b ≡ false) × (target_fill F isfinite l b ≡ none))

  -- The exit of a bar: the stop first, then the target, then the engine's own exit
  abbrev pub IsExit : Session F isfinite → ℕ → Float → Reason → Type 0
  IsExit b decided_on price reason =
      ((breached F isfinite l b ≡ true)
        × (price ≡ stop_fill F isfinite l b)
        × (reason ≡ stop_reason F isfinite l b))
      ⊎ ((breached F isfinite l b ≡ false)
          × (target_fill F isfinite l b ≡ some price)
          × (reason ≡ target))
      ⊎ ((breached F isfinite l b ≡ false)
          × (target_fill F isfinite l b ≡ none)
          × (closed_by_engine book decided_on ticker ≡ true)
          × (price ≡ b.open_price)
          × (reason ≡ book_exit))

  trigger-none :
      (w : Walk F isfinite) (b : Session F isfinite)
      → trigger F isfinite book ticker l w b ≡ none
      → IsQuiet b
  unfolding trigger
  trigger-none w b = elim (Bool-cases (locked F isfinite b)) [
    | inl shut ↦ λ h. inl shut
    | inr traded ↦ elim (Bool-cases (breached F isfinite l b)) [
      | inl hit ↦ rw traded (rw hit (λ h. cc))
      | inr above ↦ elim (Option-cases (target_fill F isfinite l b)) [
        | inl quiet ↦ λ h. inr (above, quiet)
        | inr (t, got) ↦ rw traded (rw above (rw got (λ h. cc)))
      ]
    ]
  ]

  trigger-some :
      (w : Walk F isfinite) (b : Session F isfinite) (price : Float) (reason : Reason)
      → trigger F isfinite book ticker l w b ≡ some (price, reason)
      → (locked F isfinite b ≡ false) × IsExit b w.decided_on price reason
  unfolding trigger
  trigger-some w b price reason = elim (Bool-cases (locked F isfinite b)) [
    | inl shut ↦ rw shut (λ h. cc)
    | inr traded ↦ elim (Bool-cases (breached F isfinite l b)) [
      | inl hit ↦ rw traded (
          rw hit (λ h.
            (refl, inl (refl, sym (ap (λ x. x.0) (some_eq h)), sym (ap (λ x. x.1) (some_eq h))))))
      | inr above ↦ elim (Option-cases (target_fill F isfinite l b)) [
        | inr (t, got) ↦ rw traded (
            rw above (
              rw got (λ h. (
                refl,
                inr (inl (refl, ap (λ x. some x.0) (some_eq h), sym (ap (λ x. x.1) (some_eq h)))),
              ))))
        | inl quiet ↦ elim (Bool-cases (closed_by_engine book w.decided_on ticker)) [
          | inl out ↦ rw traded (
              rw above (
                rw quiet (
                  rw out (λ h. (
                    refl,
                    inr (
                        inr (
                          refl,
                          refl,
                          refl,
                          sym (ap (λ x. x.0) (some_eq h)),
                          sym (ap (λ x. x.1) (some_eq h)),
                        )),
                  )))))
          | inr in_book ↦ rw traded (rw above (rw quiet (rw in_book (λ h. cc))))
        ]
      ]
    ]
  ]
    where
      some_eq : {x y : Float × Reason} → Path (Option (Float × Reason)) (some x) (some y) → x ≡ y
      some_eq h = cc

  next-held :
      (b : Session F isfinite) (w : Walk F isfinite) → (next F isfinite l b w).held ≡ w.held + 1
  unfolding next
  next-held b w = elim (Bool-cases (locked F isfinite b)) [
    | inl shut ↦ rw shut refl
    | inr traded ↦ rw traded refl
  ]

  abbrev turn :
      Session F isfinite
      → List (Session F isfinite)
      → Walk F isfinite
      → Option (Float × Reason)
      → Ending F isfinite
  turn b bs w o = elim o [
    | some (price, reason) ↦ ended price b.date reason (next F isfinite l b w)
    | none ↦ walk_bars F isfinite book ticker l bs (next F isfinite l b w)
  ]

  pub silent_turn :
      (b : Session F isfinite) (bs : List (Session F isfinite)) (w : Walk F isfinite)
      → trigger F isfinite book ticker l w b ≡ none
      → walk_bars F isfinite book ticker l (b ∷ bs) w
        ≡ walk_bars F isfinite book ticker l bs (next F isfinite l b w)
  silent_turn b bs w h = ap (turn b bs w) h

  pub fired_turn :
      (b : Session F isfinite) (bs : List (Session F isfinite)) (w : Walk F isfinite)
      (e : Float × Reason)
      → trigger F isfinite book ticker l w b ≡ some e
      → walk_bars F isfinite book ticker l (b ∷ bs) w ≡ ended e.0 b.date e.1 (next F isfinite l b w)
  fired_turn b bs w e h = ap (turn b bs w) h

  -- The last date at which the engine had decided, after a list of bars
  abbrev pub last_decided : ℕ → List (Session F isfinite) → ℕ
  last_decided day [] = day
  last_decided day (b ∷ bs) = last_decided (if locked F isfinite b then day else b.date) bs

  pub next-decided :
      (b : Session F isfinite) (w : Walk F isfinite)
      → (next F isfinite l b w).decided_on ≡ (if locked F isfinite b then w.decided_on else b.date)
  unfolding next
  next-decided b w = elim (Bool-cases (locked F isfinite b)) [
    | inl shut ↦ rw shut refl
    | inr traded ↦ rw traded refl
  ]

  -- A walk that ends does so on a bar that was traded, after bars that were locked or met no level;
  -- the price is that of the stop if it was breached, else of the target, else the open of the bar
  -- if the engine had closed the position at the last session that was traded.
  pub walk_bars-ended :
      (bs : List (Session F isfinite)) (w v : Walk F isfinite) (price : Float) (day : ℕ)
      (reason : Reason)
      → walk_bars F isfinite book ticker l bs w ≡ ended price day reason v
      → (pre : List (Session F isfinite)) × (b : Session F isfinite) × (post : List
          (Session F isfinite))
        × (bs ≡ pre ++ b ∷ post)
        × All IsQuiet pre
        × (locked F isfinite b ≡ false)
        × IsExit b (last_decided w.decided_on pre) price reason
        × (day ≡ b.date)
        × (v.held ≡ w.held + length pre + 1)
  walk_bars-ended [] w v price day reason h = cc
  walk_bars-ended (b ∷ bs) w v price day reason h =
      elim (Option-cases (trigger F isfinite book ticker l w b)) [
        | inr (exit, fired) ↦
            let (p, d, r, u) = ended_eq (sym (fired_turn b bs w exit fired) ∙ h) in
            let (traded, exits) = trigger-some w b exit.0 exit.1 fired in
            (
              [],
              b,
              bs,
              refl,
              tt,
              traded,
              subst (λ x. IsExit b w.decided_on x reason) p
                  (subst (λ x. IsExit b w.decided_on exit.0 x) r exits),
              sym d,
              omega (arith, ap (λ (x : Walk F isfinite). x.held) u, next-held b w),
            )
        | inl silent ↦
            let (pre, c, post, split, quiet, traded, exits, at, held) =
              walk_bars-ended bs (next F isfinite l b w) v price day reason
                (sym (silent_turn b bs w silent) ∙ h) in
            (
              b ∷ pre,
              c,
              post,
              ap (λ xs. b ∷ xs) split,
              (trigger-none w b silent, quiet),
              traded,
              subst (λ d. IsExit c (last_decided d pre) price reason) (next-decided b w) exits,
              at,
              omega (arith, held, next-held b w),
            )
      ]
    where
      ended_eq :
          {p q : Float} {d e : ℕ} {r s : Reason} {u v : Walk F isfinite}
          → Path (Ending F isfinite) (ended p d r u) (ended q e s v)
          → (p ≡ q) × (d ≡ e) × (r ≡ s) × (u ≡ v)
      ended_eq h = (cc, cc, cc, cc)

  -- And a walk that does not end met no level on any bar.
  pub walk_bars-running :
      (bs : List (Session F isfinite)) (w v : Walk F isfinite)
      → walk_bars F isfinite book ticker l bs w ≡ running v
      → All IsQuiet bs
  walk_bars-running [] w v h = tt
  walk_bars-running (b ∷ bs) w v h = elim (Option-cases (trigger F isfinite book ticker l w b)) [
    | inr (exit, fired) ↦ let bad = sym (fired_turn b bs w exit fired) ∙ h in cc
    | inl silent ↦ (
      trigger-none w b silent,
      walk_bars-running bs (next F isfinite l b w) v (sym (silent_turn b bs w silent) ∙ h),
    )
  ]
