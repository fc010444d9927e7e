-- ===== src/Gate/Select.antt =====
-- conviction/gate.py: what `select_at_most_two` buys.
use prosignal.Prelude.{
  suc, ◌-◌, ◌≤◌, max, ◌≡◌, refl, sym, ap, ◌∙◌, subst, ◌⊎◌, inl, inr, true, false, not, Option, List,
  [], ◌∷◌, ◌++◌, arith, leb, Bool-cases, Option-cases, is_some, length, take, filter, any, All,
  length-append, take-nil, length-take,
}
use prosignal.Prelude.Floats.{FloatOps, IsOrdered}
use prosignal.Gate.Defs.{Thresholds, Candidate, is_empty, clears}
use prosignal.Gate.Slots.{
  quality, Independence, insert_by_quality, sort_by_quality, pair_failure, fill_slots, verdict_of,
  select_at_most_two,
}
use prosignal.Gate.Order.{IsBest, HeadIsBest, sort-HeadIsBest, sort-IsBest, IsBest-self}
use prosignal.Gate.Ranking.{
  is_independent, passes, passes-pair_failure, IsDescending, sort-IsDescending, sort-Perm,
}
use mathlib.Core.List.{append-nil, append_assoc}
use mathlib.Core.List.{Perm}

module _ (F : FloatOps) (assess : Candidate F → Candidate F → Option (Independence F))
    (th : Thresholds F) where
  -- The best candidate that clears, and after it, best first, those that pass the tests of the
  -- second slot against it, as many as there are slots.
  abbrev pub slots_of : List (Candidate F) → List (Candidate F)
  slots_of [] = []
  slots_of (first ∷ rest) =
      first ∷ take (th.max_buys - 1) (filter (λ c. is_independent F th (assess first c)) rest)

  fill_slots-take :
      (first : Candidate F) (buys cs : List (Candidate F))
      → (fill_slots F assess th first buys cs).0
        ≡ buys
          ++ take
              (th.max_buys - length buys)
              (filter (λ c. is_independent F th (assess first c)) cs)
  unfolding fill_slots
  fill_slots-take first buys [] = rw (take-nil (th.max_buys - length buys)) (sym (append-nil buys))
  fill_slots-take first buys (c ∷ cs) = elim (Bool-cases (leb th.max_buys (length buys))) [
    | inl full ↦
        let none_left : th.max_buys - length buys ≡ 0 = ground arith in
        rw (full, fill_slots) (rw none_left (sym (append-nil buys)))
    | inr room ↦ elim (Option-cases (pair_failure F th (assess first c))) [
      | inl pass ↦
          let more : th.max_buys - length buys ≡ suc (th.max_buys - length (buys ++ c ∷ [])) =
            ground (arith, length-append buys (c ∷ [])) in
          let ind : is_independent F th (assess first c) ≡ true =
            sym (passes-pair_failure F th (assess first c)) ∙ ap passes pass in
          let tail = filter (λ d. is_independent F th (assess first d)) cs in
          rw (room, fill_slots)
            (rw (pass, fill_slots)
              (rw ind (
                fill_slots-take first (buys ++ c ∷ []) cs
                ∙ append_assoc buys (c ∷ []) (take (th.max_buys - length (buys ++ c ∷ [])) tail)
                ∙ ap (λ n. buys ++ take n (c ∷ tail)) (sym more))))
      | inr (f, failed) ↦
          let dep : is_independent F th (assess first c) ≡ false =
            sym (passes-pair_failure F th (assess first c)) ∙ ap passes failed in
          rw (room, fill_slots) (rw (failed, fill_slots) (rw dep (fill_slots-take first buys cs)))
    ]
  ]

  verdict_of-buys :
      (considered ranked cleared : List (Candidate F))
      → (verdict_of F assess th considered ranked cleared).buys ≡ slots_of cleared
  unfolding verdict_of
  verdict_of-buys considered [] [] = refl
  verdict_of-buys considered (best ∷ ranked) [] = refl
  verdict_of-buys considered ranked (first ∷ rest) = fill_slots-take first (first ∷ []) rest

  verdict_of-cause :
      (considered ranked cleared : List (Candidate F))
      → is_some (verdict_of F assess th considered ranked cleared).cause ≡ is_empty F cleared
  unfolding verdict_of
  verdict_of-cause considered [] [] = refl
  verdict_of-cause considered (best ∷ ranked) [] = refl
  verdict_of-cause considered ranked (first ∷ rest) = refl

  select-buys :
      (considered : List (Candidate F))
      → (select_at_most_two F assess th considered).buys
        ≡ slots_of (sort_by_quality F (filter (clears F) considered))
  unfolding select_at_most_two
  select-buys considered =
      verdict_of-buys considered (sort_by_quality F considered)
        (sort_by_quality F (filter (clears F) considered))

  insert-ne-nil :
      (c : Candidate F) (cs : List (Candidate F)) → is_empty F (insert_by_quality F c cs) ≡ false
  insert-ne-nil c [] = refl
  insert-ne-nil c (d ∷ ds) = ground arith

  sort-empty : (cs : List (Candidate F)) → is_empty F (sort_by_quality F cs) ≡ is_empty F cs
  unfolding sort_by_quality
  sort-empty [] = refl
  sort-empty (c ∷ cs) = insert-ne-nil c (sort_by_quality F cs)

  filter-any :
      (cs : List (Candidate F)) → is_empty F (filter (clears F) cs) ≡ not (any (clears F) cs)
  filter-any [] = refl
  filter-any (c ∷ cs) = ground (arith, filter-any cs)

  slots_of-empty : (cs : List (Candidate F)) → is_empty F (slots_of cs) ≡ is_empty F cs
  slots_of-empty [] = refl
  slots_of-empty (c ∷ cs) = refl

  length-slots_of : (cs : List (Candidate F)) → length (slots_of cs) ≤ max th.max_buys 1
  length-slots_of [] = omega arith
  length-slots_of (c ∷ cs) =
      omega
        (arith, length-take (th.max_buys - 1) (filter (λ d. is_independent F th (assess c d)) cs))

  -- There is a buy exactly when some candidate cleared its gates, and a cause exactly when there is
  -- no buy; there are never more buys than slots, or than one if no slot is allowed.
  pub select-no_trade :
      (considered : List (Candidate F))
      → let v = select_at_most_two F assess th considered in
        (is_empty F v.buys ≡ not (any (clears F) considered))
        × (is_some v.cause ≡ is_empty F v.buys)
        × (length v.buys ≤ max th.max_buys 1)
  select-no_trade considered =
      let cleared = sort_by_quality F (filter (clears F) considered) in
      let buys = select-buys considered in
      let empty = ap (is_empty F) buys ∙ slots_of-empty cleared in
      let cause : is_some (select_at_most_two F assess th considered).cause ≡ is_empty F cleared =
        unfold select_at_most_two in
        verdict_of-cause considered (sort_by_quality F considered) cleared in
      (
        empty ∙ sort-empty (filter (clears F) considered) ∙ filter-any considered,
        cause ∙ sym empty,
        subst (λ bs. length bs ≤ max th.max_buys 1) (sym buys) (length-slots_of cleared),
      )

  slots_of-first :
      (o : IsOrdered F) (first : Candidate F) (rest s : List (Candidate F))
      → HeadIsBest F o s
      → slots_of s ≡ first ∷ rest
      → IsBest F o first s
  slots_of-first o first rest [] h e = cc
  slots_of-first o first rest (c ∷ cs) h e =
      let same : c ≡ first = cc in subst (λ b. IsBest F o b (c ∷ cs)) same (IsBest-self F o c cs h)

  filter-IsBest :
      (o : IsOrdered F) (b : Candidate F) (cs : List (Candidate F))
      → IsBest F o b (filter (clears F) cs)
      → All (λ c. (clears F c ≡ false) ⊎ (F.lt (quality F b) (quality F c) ≡ false)) cs
  filter-IsBest o b [] = λ h. tt
  filter-IsBest o b (c ∷ cs) = elim (Bool-cases (clears F c)) [
    | inl met ↦ rw met (λ h. (inr h.0, filter-IsBest o b cs h.1))
    | inr failed ↦ rw failed (λ h. (inl refl, filter-IsBest o b cs h))
  ]

  -- With an order on the quality, no candidate that cleared is better than the first buy.
  pub select-first_best :
      (o : IsOrdered F) (considered rest : List (Candidate F)) (first : Candidate F)
      → (select_at_most_two F assess th considered).buys ≡ first ∷ rest
      → All (λ c. (clears F c ≡ false) ⊎ (F.lt (quality F first) (quality F c) ≡ false)) considered
  select-first_best o considered rest first h =
      let cleared = filter (clears F) considered in
      filter-IsBest o first considered (
        sort-IsBest F o first cleared (
          slots_of-first o first rest (sort_by_quality F cleared) (sort-HeadIsBest F o cleared)
            (sym (select-buys considered) ∙ h)))

  -- Rank the candidates that cleared their gates so that none has a greater quality than one before
  -- it. The buys are the first of them and, in that order, those of the rest whose pair with the
  -- first is measured and within the limits on residual correlation (in absolute value), on
  -- similarity of the evidence and on the breadth of the basket, up to the number of slots: a
  -- candidate that fails fills no slot.
  pub select-slots_of :
      (o : IsOrdered F) (considered : List (Candidate F))
      → (ranked : List (Candidate F)) × (Perm ranked (filter (clears F) considered)
          × (IsDescending F o ranked
              × ((select_at_most_two F assess th considered).buys ≡ slots_of ranked)))
  select-slots_of o considered =
      let cleared = filter (clears F) considered in
      (
        sort_by_quality F cleared,
        (sort-Perm F cleared, (sort-IsDescending F o cleared, select-buys considered)),
      )
