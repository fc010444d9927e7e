-- ===== src/Gate/Order.antt =====
-- conviction/gate.py: the order by decision quality.
use prosignal.Prelude.{◌≡◌, sym, ◌∙◌, inl, inr, false, List, [], ◌∷◌, Bool-cases}
use prosignal.Prelude.Floats.{FloatOps, IsOrdered}
use prosignal.Gate.Defs.{Candidate}
use prosignal.Gate.Slots.{quality, insert_by_quality, sort_by_quality}

module _ (F : FloatOps) (o : IsOrdered F) where
  open F use {lt, neg}
  open o use {lt_asym, ge_trans, lt-neg}

  -- No candidate of the list has a greater quality.
  abbrev pub IsBest : Candidate F → List (Candidate F) → Type 0
  IsBest c [] = Unit
  IsBest c (d ∷ ds) = (lt (quality F c) (quality F d) ≡ false) × IsBest c ds

  lt_irrefl : (x : F.Float) → lt x x ≡ false
  lt_irrefl x = elim (Bool-cases (lt x x)) [ inl h ↦ lt_asym x x h | inr h ↦ h ]

  pub IsBest-trans :
      (c d : Candidate F) (cs : List (Candidate F))
      → lt (quality F c) (quality F d) ≡ false
      → IsBest d cs
      → IsBest c cs
  IsBest-trans c d [] h b = tt
  IsBest-trans c d (e ∷ cs) h b =
      (ge_trans (quality F c) (quality F d) (quality F e) h b.0, IsBest-trans c d cs h b.1)

  abbrev pub HeadIsBest : List (Candidate F) → Type 0
  HeadIsBest [] = Unit
  HeadIsBest (c ∷ cs) = IsBest c cs

  pub IsBest-insert :
      (b c : Candidate F) (ds : List (Candidate F))
      → lt (quality F b) (quality F c) ≡ false
      → IsBest b ds
      → IsBest b (insert_by_quality F c ds)
  IsBest-insert b c [] h best = (h, tt)
  IsBest-insert b c (d ∷ ds) h best =
      elim (Bool-cases (lt (neg (quality F d)) (neg (quality F c)))) [
        | inl after ↦ rw after (best.0, IsBest-insert b c ds h best.1)
        | inr before ↦ rw before (h, best)
      ]

  insert-HeadIsBest :
      (c : Candidate F) (ds : List (Candidate F))
      → HeadIsBest ds
      → HeadIsBest (insert_by_quality F c ds)
  insert-HeadIsBest c [] h = tt
  insert-HeadIsBest c (d ∷ ds) h =
      let e = lt-neg (quality F d) (quality F c) in
      elim (Bool-cases (lt (neg (quality F d)) (neg (quality F c)))) [
        | inl after ↦
            rw after (IsBest-insert d c ds (lt_asym (quality F c) (quality F d) (sym e ∙ after)) h)
        | inr before ↦ let b = sym e ∙ before in rw before (b, IsBest-trans c d ds b h)
      ]

  pub sort-HeadIsBest : (cs : List (Candidate F)) → HeadIsBest (sort_by_quality F cs)
  unfolding sort_by_quality
  sort-HeadIsBest [] = tt
  sort-HeadIsBest (c ∷ cs) = insert-HeadIsBest c (sort_by_quality F cs) (sort-HeadIsBest cs)

  -- Best of the inserted list: best of what it was made of.
  insert-IsBest :
      (b c : Candidate F) (ds : List (Candidate F))
      → IsBest b (insert_by_quality F c ds)
      → (lt (quality F b) (quality F c) ≡ false) × IsBest b ds
  insert-IsBest b c [] = λ h. h
  insert-IsBest b c (d ∷ ds) = elim (Bool-cases (lt (neg (quality F d)) (neg (quality F c)))) [
    | inl after ↦ rw after (λ h. let i = insert-IsBest b c ds h.1 in (i.0, (h.0, i.1)))
    | inr before ↦ rw before (λ h. h)
  ]

  pub sort-IsBest :
      (b : Candidate F) (cs : List (Candidate F)) → IsBest b (sort_by_quality F cs) → IsBest b cs
  unfolding sort_by_quality
  sort-IsBest b [] h = tt
  sort-IsBest b (c ∷ cs) h =
      let i = insert-IsBest b c (sort_by_quality F cs) h in (i.0, sort-IsBest b cs i.1)

  pub IsBest-self : (b : Candidate F) (cs : List (Candidate F)) → IsBest b cs → IsBest b (b ∷ cs)
  IsBest-self b cs h = (lt_irrefl (quality F b), h)
