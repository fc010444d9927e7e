-- ===== src/Gate/Slots.antt =====
-- conviction/gate.py: `Candidate.quality` and `grade`, `Verdict`, and `select_at_most_two`. The
-- candidates are shared objects: a failure that the second slot adds shows in `considered` too, so
-- the changed candidates are written back by their identity.
use prosignal.Prelude.{
  ℕ, Bool, true, false, not, ◌&&◌, Option, none, some, List, [], ◌∷◌, ◌++◌, map, ltb, leb, ◌==◌,
  if◌then◌else◌, length, filter,
}
use prosignal.Prelude.Floats.{FloatOps}
use prosignal.Gate.Defs.{
  Failure, independence_not_testable, correlated, overlapping_evidence, narrow_basket, Thresholds,
  Evidence, NetEdge, Candidate, clears,
}

pub data Grade : Type 0 where
  ungraded a_grade a_minus b_plus b_grade : Grade

pub data Cause : Type 0 where
  no_candidate : Cause

module _ (F : FloatOps) where
  open F use {Float, lt, le, add, mul, neg, abs, ratio}

  abbrev pub or_zero : Option Float → Float
  or_zero none = ratio 0 1
  or_zero (some x) = x

  abbrev pub gap_or_zero : Option (Option Float) → Float
  gap_or_zero none = ratio 0 1
  gap_or_zero (some gap) = or_zero gap

  abbrev pub effective_or_zero : Option (Evidence F) → Float
  effective_or_zero none = ratio 0 1
  effective_or_zero (some e) = e.effective

  abbrev pub net_or_zero : Option (NetEdge F) → Float
  net_or_zero none = ratio 0 1
  net_or_zero (some n) = or_zero n.net_edge

  unfoldable pub quality : Candidate F → Float
  quality c =
      let m = c.measures in
      add
        (add (add (effective_or_zero m.evidence) (gap_or_zero m.separation))
          (mul (ratio 2 1) (or_zero m.robustness)))
        (mul (ratio 100 1) (net_or_zero m.economics))

  unfoldable pub grade : Candidate F → Grade
  grade c =
      let q = quality c in
      if not (clears F c)
      then ungraded
      else if le (ratio 9 1) q
      then a_grade
      else if le (ratio 15 2) q
      then a_minus
      else if le (ratio 6 1) q
      then b_plus
      else b_grade

  pub record Independence : Type 0 where
    pub residual_correlation : Option Float
    pub evidence_similarity : Option Float
    pub basket_enb : Option Float

  pub data Reason : Type 0 where
    nothing_evaluated : Reason
    none_cleared : ℕ → Candidate F → Reason
    one_position : ℕ → Reason

  pub record Verdict : Type 0 where
    pub buys : List (Candidate F)
    pub considered : List (Candidate F)
    pub cause : Option Cause
    pub reason : Option Reason

  -- `sorted(..., key=lambda c: -c.quality())`, which is stable
  abbrev pub insert_by_quality : Candidate F → List (Candidate F) → List (Candidate F)
  insert_by_quality c [] = c ∷ []
  insert_by_quality c (d ∷ ds) =
      if lt (neg (quality d)) (neg (quality c)) then d ∷ insert_by_quality c ds else c ∷ d ∷ ds

  unfoldable pub sort_by_quality : List (Candidate F) → List (Candidate F)
  sort_by_quality [] = []
  sort_by_quality (c ∷ cs) = insert_by_quality c (sort_by_quality cs)

  abbrev pub over : Option Float → Float → Bool
  over none limit = false
  over (some x) limit = lt limit x

  -- The tests of the second slot on one pair, in their order.
  unfoldable pub pair_failure : Thresholds F → Option Independence → Option Failure
  pair_failure th none = some independence_not_testable
  pair_failure th (some i) =
      if over
        (elim i.residual_correlation as (λ x. Option Float) [ none ↦ none | some r ↦ some (abs r) ])
        th.max_residual_correlation
      then some correlated
      else if over i.evidence_similarity th.max_evidence_similarity
      then some overlapping_evidence
      else if elim i.basket_enb as (λ x. Bool) [ none ↦ false | some b ↦ lt b th.min_basket_enb ]
      then some narrow_basket
      else none

  abbrev pub refuse : Failure → Candidate F → Candidate F
  refuse f c = record c { failures = c.failures ++ f ∷ [] }

  -- The loop over `cleared[1:]`: the slots filled, and the candidates that it refused.
  module _ (assess_pair : Candidate F → Candidate F → Option Independence) (th : Thresholds F) where
    unfoldable pub fill_slots :
        Candidate F
        → List (Candidate F)
        → List (Candidate F)
        → List (Candidate F) × List (Candidate F)
    fill_slots first buys [] = (buys, [])
    fill_slots first buys (c ∷ cs) = elim (leb th.max_buys (length buys)) [
      | true ↦ (buys, [])
      | false ↦ elim (pair_failure th (assess_pair first c)) [
        | some f ↦ let (bs, rs) = fill_slots first buys cs in (bs, refuse f c ∷ rs)
        | none ↦ fill_slots first (buys ++ c ∷ []) cs
      ]
    ]

  -- What an object of the list has become.
  abbrev pub current : List (Candidate F) → Candidate F → Candidate F
  current [] c = c
  current (r ∷ rs) c = if r.ref == c.ref then r else current rs c

  abbrev no_trade : List (Candidate F) → List (Candidate F) → Verdict
  no_trade considered [] = record {
    buys = [];
    considered = considered;
    cause = some no_candidate;
    reason = some nothing_evaluated;
  }
  no_trade considered (best ∷ rest) = record {
    buys = [];
    considered = considered;
    cause = some no_candidate;
    reason = some (none_cleared (length considered) best);
  }

  -- By the cleared candidates, best first; `ranked` are all of them, best first.
  unfoldable pub verdict_of :
      (Candidate F → Candidate F → Option Independence)
      → Thresholds F
      → List (Candidate F)
      → List (Candidate F)
      → List (Candidate F)
      → Verdict
  verdict_of assess_pair th considered ranked [] = no_trade considered ranked
  verdict_of assess_pair th considered ranked (first ∷ rest) =
      let (buys, refused) = fill_slots assess_pair th first (first ∷ []) rest in
      record {
        buys = buys;
        considered = map (current refused) considered;
        cause = none;
        reason =
            if length buys == 1 && ltb 1 (length (first ∷ rest))
            then some (one_position (length rest))
            else none;
      }

  unfoldable pub select_at_most_two :
      (Candidate F → Candidate F → Option Independence)
      → Thresholds F
      → List (Candidate F)
      → Verdict
  select_at_most_two assess_pair th considered =
      verdict_of assess_pair th considered (sort_by_quality considered)
        (sort_by_quality (filter (clears F) considered))
