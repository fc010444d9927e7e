-- ===== src/Gate/Ranking.antt =====
-- conviction/gate.py: the ranking by quality, and the tests of the second slot on a pair.
use prosignal.Prelude.{
  ◌≡◌, refl, sym, ◌∙◌, ap₂, inl, inr, Bool, true, false, not, ◌&&◌, Option, none, some, List, [],
  ◌∷◌, if◌then◌else◌, Bool-cases,
}
use prosignal.Prelude.Floats.{FloatOps, IsOrdered}
use prosignal.Gate.Defs.{
  Failure, correlated, overlapping_evidence, narrow_basket, Thresholds, Candidate,
}
use prosignal.Gate.Slots.{
  quality, Independence, insert_by_quality, sort_by_quality, over, pair_failure,
}
use prosignal.Gate.Order.{IsBest, IsBest-trans, IsBest-insert}
use mathlib.Core.List.{Perm}
use mathlib.Core.List.Perm

abbrev within_limit : (F : FloatOps) → Option F.Float → F.Float → Bool
within_limit F none limit = true
within_limit F (some x) limit = not (F.lt limit x)

abbrev reaches : (F : FloatOps) → Option F.Float → F.Float → Bool
reaches F none limit = true
reaches F (some x) limit = not (F.lt x limit)

abbrev size : (F : FloatOps) → Option F.Float → Option F.Float
size F none = none
size F (some x) = some (F.abs x)

-- A pair that was measured is independent if no measure it has is past its limit.
abbrev pub is_independent : (F : FloatOps) → Thresholds F → Option (Independence F) → Bool
is_independent F th none = false
is_independent F th (some i) =
    within_limit F (size F i.residual_correlation) th.max_residual_correlation
    && (within_limit F i.evidence_similarity th.max_evidence_similarity
        && reaches F i.basket_enb th.min_basket_enb)

abbrev pub passes : Option Failure → Bool
passes none = true
passes (some f) = false

passes-if :
    (b : Bool) (f : Failure) (x : Option Failure)
    → passes (if b then some f else x) ≡ (not b && passes x)
passes-if true f x = refl
passes-if false f x = refl

not-over :
    (F : FloatOps) (x : Option F.Float) (limit : F.Float)
    → not (over F x limit) ≡ within_limit F x limit
not-over F none limit = refl
not-over F (some x) limit = refl

abbrev is_low : (F : FloatOps) → Option F.Float → F.Float → Bool
is_low F enb limit = elim enb as (λ x. Bool) [ none ↦ false | some b ↦ F.lt b limit ]

not-is_low :
    (F : FloatOps) (enb : Option F.Float) (limit : F.Float)
    → passes (if is_low F enb limit then some narrow_basket else none) ≡ reaches F enb limit
not-is_low F none limit = refl
not-is_low F (some b) limit = elim (Bool-cases (F.lt b limit)) [
  | inl h ↦ rw h refl
  | inr h ↦ rw h refl
]

pub passes-pair_failure :
    (F : FloatOps) (th : Thresholds F) (pair : Option (Independence F))
    → passes (pair_failure F th pair) ≡ is_independent F th pair
unfolding pair_failure
passes-pair_failure F th none = refl
passes-pair_failure F th (some i) =
    let past = over F (size F i.residual_correlation) th.max_residual_correlation in
    let alike = over F i.evidence_similarity th.max_evidence_similarity in
    let last = if is_low F i.basket_enb th.min_basket_enb then some narrow_basket else none in
    passes-if past correlated (if alike then some overlapping_evidence else last)
    ∙ ap₂ (λ u v. u && v) (not-over F (size F i.residual_correlation) th.max_residual_correlation)
        (passes-if alike overlapping_evidence last
          ∙ ap₂ (λ u v. u && v) (not-over F i.evidence_similarity th.max_evidence_similarity)
              (not-is_low F i.basket_enb th.min_basket_enb))

module _ (F : FloatOps) (o : IsOrdered F) where
  -- Best first: no later one has a greater quality.
  abbrev pub IsDescending : List (Candidate F) → Type 0
  IsDescending [] = Unit
  IsDescending (c ∷ cs) = IsBest F o c cs × IsDescending cs

  insert-IsDescending :
      (c : Candidate F) (ds : List (Candidate F))
      → IsDescending ds
      → IsDescending (insert_by_quality F c ds)
  insert-IsDescending c [] h = (tt, tt)
  insert-IsDescending c (d ∷ ds) h =
      let e = o.lt-neg (quality F d) (quality F c) in
      elim (Bool-cases (F.lt (F.neg (quality F d)) (F.neg (quality F c)))) [
        | inl after ↦
            let below = o.lt_asym (quality F c) (quality F d) (sym e ∙ after) in
            rw after (IsBest-insert F o d c ds below h.0, insert-IsDescending c ds h.1)
        | inr before ↦ let b = sym e ∙ before in rw before ((b, IsBest-trans F o c d ds b h.0), h)
      ]

  pub sort-IsDescending : (cs : List (Candidate F)) → IsDescending (sort_by_quality F cs)
  unfolding sort_by_quality
  sort-IsDescending [] = tt
  sort-IsDescending (c ∷ cs) = insert-IsDescending c (sort_by_quality F cs) (sort-IsDescending cs)

insert-Perm :
    (F : FloatOps) (c : Candidate F) (ds : List (Candidate F))
    → Perm (insert_by_quality F c ds) (c ∷ ds)
insert-Perm F c [] = Perm.refl (c ∷ [])
insert-Perm F c (d ∷ ds) = elim (Bool-cases (F.lt (F.neg (quality F d)) (F.neg (quality F c)))) [
  | inl after ↦ rw after (Perm.trans (Perm.cons d (insert-Perm F c ds)) (Perm.swap c d ds))
  | inr before ↦ rw before (Perm.refl (c ∷ d ∷ ds))
]

pub sort-Perm : (F : FloatOps) (cs : List (Candidate F)) → Perm (sort_by_quality F cs) cs
unfolding sort_by_quality
sort-Perm F [] = Perm.refl []
sort-Perm F (c ∷ cs) =
    Perm.trans (insert-Perm F c (sort_by_quality F cs)) (Perm.cons c (sort-Perm F cs))
