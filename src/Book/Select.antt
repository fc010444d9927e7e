-- ===== src/Book/Select.antt =====
-- book.py: the names that `build_book` chooses.
use prosignal.Prelude.{
  ℕ, zero, suc, ◌+◌, ◌-◌, ◌≤◌, max, min, ◌≡◌, refl, sym, ap, ◌∙◌, true, ◌||◌, List, [], ◌∷◌, ◌++◌,
  arith, ◌==◌, length, take, All, length-append, length-take, elem, elem-append, All-elem,
  elem-filter,
}
use prosignal.Prelude.Floats.{FloatOps}
use prosignal.Book.Defs.{
  BookSpec, target_count, incumbents, newcomers, rank_from, insert_by_rank, sort_by_rank, exit_cut,
  chosen,
}
use mathlib.Core.List.{append-nil}

elem-insert_by_rank :
    (F : FloatOps) (rank : ℕ → ℕ) (v t : ℕ) (us : List ℕ)
    → elem v (insert_by_rank F rank t us) ≡ elem v (t ∷ us)
elem-insert_by_rank F rank v t [] = refl
elem-insert_by_rank F rank v t (u ∷ us) = ground (arith, elem-insert_by_rank F rank v t us)

elem-sort_by_rank :
    (F : FloatOps) (rank : ℕ → ℕ) (v : ℕ) (ts : List ℕ)
    → elem v (sort_by_rank F rank ts) ≡ elem v ts
elem-sort_by_rank F rank v [] = refl
elem-sort_by_rank F rank v (t ∷ ts) =
    elem-insert_by_rank F rank v t (sort_by_rank F rank ts)
    ∙ ap (λ b. (v == t) || b) (elem-sort_by_rank F rank v ts)

length-insert_by_rank :
    (F : FloatOps) (rank : ℕ → ℕ) (t : ℕ) (us : List ℕ)
    → length (insert_by_rank F rank t us) ≡ suc (length us)
length-insert_by_rank F rank t [] = refl
length-insert_by_rank F rank t (u ∷ us) = ground (arith, length-insert_by_rank F rank t us)

length-sort_by_rank :
    (F : FloatOps) (rank : ℕ → ℕ) (ts : List ℕ) → length (sort_by_rank F rank ts) ≡ length ts
length-sort_by_rank F rank [] = refl
length-sort_by_rank F rank (t ∷ ts) =
    omega (
      arith,
      length-insert_by_rank F rank t (sort_by_rank F rank ts),
      length-sort_by_rank F rank ts,
    )

elem-take : (t n : ℕ) (xs : List ℕ) → elem t (take n xs) ≡ true → elem t xs ≡ true
elem-take t zero xs h = cc
elem-take t (suc n) [] h = h
elem-take t (suc n) (x ∷ xs) h = ground (arith, elem-take t n xs)

take_zero :
    {k : ℕ} (t : ℕ) (keep others : List ℕ) → k ≡ 0 → elem t (keep ++ take k others) ≡ elem t keep
take_zero t keep others z = rw z (ap (elem t) (append-nil keep))

module _ (F : FloatOps) (scaled : ℕ → F.Float → ℕ) (spec : BookSpec F) where
  -- Of the held names inside the exit band, the first ones, as many as the target, are all chosen,
  -- whatever names rank above them. The book has as many names as the target, or, if they are fewer,
  -- as there are held names inside the exit band and other names inside the entry band.
  pub chosen-incumbents :
      (ranking held : List ℕ)
      → All
          (λ t. elem t (chosen F scaled ranking spec held) ≡ true)
          (take
            (target_count F scaled (length ranking) spec)
            (incumbents F (exit_cut F scaled ranking spec) ranking held))
        × (length (chosen F scaled ranking spec held)
            ≡ min (target_count F scaled (length ranking) spec) (
                length (incumbents F (exit_cut F scaled ranking spec) ranking held)
                + length (
                    newcomers F
                      (max (target_count F scaled (length ranking) spec) 1)
                      ranking
                      held)))
  unfolding chosen
  chosen-incumbents ranking held =
      let n = target_count F scaled (length ranking) spec in
      let inside = incumbents F (exit_cut F scaled ranking spec) ranking held in
      let others = newcomers F (max n 1) ranking held in
      let keep = take n inside in
      let fresh = take (n - length keep) others in
      let rank = rank_from F 0 ranking in
      (
        All-elem keep (λ t. elem t (sort_by_rank F rank (keep ++ fresh)) ≡ true)
            (λ t kept.
              elem-sort_by_rank F rank t (keep ++ fresh) ∙ elem-append t keep fresh ∙ rw kept refl),
        omega (
          arith,
          length-sort_by_rank F rank (keep ++ fresh),
          length-append keep fresh,
          length-take n inside,
          length-take (n - length keep) others,
        ),
      )

  -- If the held names inside the exit band fill the target, only held names are chosen: a new name
  -- displaces none of them.
  pub chosen-held :
      (ranking held : List ℕ) (t : ℕ)
      → target_count F scaled (length ranking) spec
        ≤ length (incumbents F (exit_cut F scaled ranking spec) ranking held)
      → elem t (chosen F scaled ranking spec held) ≡ true
      → elem t held ≡ true
  unfolding chosen
  chosen-held ranking held t full h =
      let n = target_count F scaled (length ranking) spec in
      let inside = incumbents F (exit_cut F scaled ranking spec) ranking held in
      let others = newcomers F (max n 1) ranking held in
      let keep = take n inside in
      let no_room : n - length keep ≡ 0 = omega (arith, length-take n inside) in
      let kept : elem t keep ≡ true =
        sym (take_zero t keep others no_room)
        ∙ sym
            (elem-sort_by_rank F (rank_from F 0 ranking) t (keep ++ take (n - length keep) others))
        ∙ h in
      let split =
        elem-filter t (λ u. elem u held) (take (exit_cut F scaled ranking spec) ranking) in
      let found = elem-take t n inside kept in ground arith
