-- ===== src/Gate/Defs.antt =====
-- conviction/gate.py: `Thresholds`, `Candidate`, `_momentum_share`, `_panic_state` and `evaluate`.
-- The measurements that `evaluate` asks of its sibling modules are its arguments.
use prosignal.Prelude.{
  ℕ, Bool, true, false, not, ◌&&◌, ◌||◌, Option, none, some, List, [], ◌∷◌, ◌++◌, if◌then◌else◌,
}
use prosignal.Prelude.Floats.{FloatOps}

-- Why a candidate is refused.
pub data Failure : Type 0 where
  evidence_not_testable few_directions concentrated_evidence : Failure
  separation_not_testable near_median : Failure
  robustness_not_testable fragile : Failure
  economics_not_testable negative_edge costly : Failure
  models_disagree liquidity_unknown momentum_in_panic : Failure
  independence_not_testable correlated overlapping_evidence narrow_basket : Failure

-- `LiquidityState`
pub data LiquidityState : Type 0 where
  known_valid known_stale missing invalid : LiquidityState

abbrev pub is_known_valid : LiquidityState → Bool
is_known_valid known_valid = true
is_known_valid _ = false

module _ (F : FloatOps) where
  open F use {Float, lt, le, add, mul, div, abs, ratio}

  pub record Thresholds : Type 0 where
    pub min_independent_evidence : Float
    pub max_evidence_concentration : Float
    pub min_gap_to_median : Float
    pub min_robustness : Float
    pub max_cost_burden : Float
    pub max_residual_correlation : Float
    pub max_evidence_similarity : Float
    pub min_basket_enb : Float
    pub min_model_agreement : Float
    pub require_known_liquidity : Bool
    pub max_buys : ℕ

  -- The members of an evidence profile.
  pub record Evidence : Type 0 where
    pub effective : Float
    pub concentration : Float

  pub record NetEdge : Type 0 where
    pub net_edge : Option Float
    pub cost_burden : Option Float

  pub record Regime : Type 0 where
    -- `"down" in trend_regime.lower()`
    pub declining : Bool
    pub vix_percentile : Option Float
    pub transition_flag : Bool

  -- The contribution of a theme, if the score has a finite one.
  pub record Theme : Type 0 where
    pub is_momentum : Bool
    pub contribution : Option Float

  -- What is measured of one candidate; `none` where the measurement is not testable.
  pub record Measures : Type 0 where
    pub evidence : Option Evidence
    pub separation : Option (Option Float)
    pub robustness : Option Float
    pub economics : Option NetEdge
    pub agreement : Option (Option Float)
    pub liquidity_state : Option LiquidityState
    pub regime : Regime
    pub themes : List Theme

  pub record Candidate : Type 0 where
    -- The identity of the object.
    pub ref : ℕ
    pub rank : ℕ
    pub measures : Measures
    pub failures : List Failure

  -- The loop of `_momentum_share`, on the total and the momentum part.
  abbrev pub share_loop : List Theme → Float × Float → Float × Float
  share_loop [] acc = acc
  share_loop (t ∷ ts) (total, mom) = share_loop ts (elim t.contribution [
    | none ↦ (total, mom)
    | some c ↦ (add total (abs c), if t.is_momentum then add mom (abs c) else mom)
  ])

  unfoldable pub momentum_share : List Theme → Option Float
  momentum_share themes =
      let (total, mom) = share_loop themes (ratio 0 1, ratio 0 1) in
      if lt (ratio 0 1) total then some (div mom total) else none

  unfoldable pub panic_state : Regime → Bool
  panic_state r =
      let high_vol = elim r.vix_percentile as (λ x. Bool) [
        | none ↦ false
        | some pct ↦ le (ratio 70 1) pct
      ] in
      (r.declining && high_vol) || (r.transition_flag && high_vol)

  abbrev when : Bool → Failure → List Failure
  when true f = f ∷ []
  when false f = []

  unfoldable pub evidence_gate : Thresholds → Option Evidence → List Failure
  evidence_gate th none = evidence_not_testable ∷ []
  evidence_gate th (some e) =
      when (lt e.effective th.min_independent_evidence) few_directions
      ++ when (lt th.max_evidence_concentration e.concentration) concentrated_evidence

  unfoldable pub separation_gate : Thresholds → Option (Option Float) → List Failure
  separation_gate th none = separation_not_testable ∷ []
  separation_gate th (some none) = near_median ∷ []
  separation_gate th (some (some gap)) = when (lt gap th.min_gap_to_median) near_median

  unfoldable pub robustness_gate : Thresholds → Option Float → List Failure
  robustness_gate th none = robustness_not_testable ∷ []
  robustness_gate th (some survival) = when (lt survival th.min_robustness) fragile

  abbrev pub is_nonpositive : Option Float → Bool
  is_nonpositive none = false
  is_nonpositive (some x) = le x (ratio 0 1)

  abbrev pub exceeds : Option Float → Float → Bool
  exceeds none limit = false
  exceeds (some x) limit = lt limit x

  unfoldable pub economics_gate : Thresholds → Option NetEdge → List Failure
  economics_gate th none = economics_not_testable ∷ []
  economics_gate th (some n) =
      if is_nonpositive n.net_edge
      then negative_edge ∷ []
      else when (exceeds n.cost_burden th.max_cost_burden) costly

  unfoldable pub agreement_gate : Thresholds → Option (Option Float) → List Failure
  agreement_gate th none = []
  agreement_gate th (some none) = []
  agreement_gate th (some (some consensus)) =
      when (lt consensus th.min_model_agreement) models_disagree

  unfoldable pub liquidity_gate : Thresholds → Option LiquidityState → List Failure
  liquidity_gate th none = []
  liquidity_gate th (some s) =
      when (th.require_known_liquidity && not (is_known_valid s)) liquidity_unknown

  unfoldable pub panic_gate : Regime → List Theme → List Failure
  panic_gate r themes = elim (momentum_share themes) [
    | none ↦ []
    | some share ↦ when (panic_state r && le (ratio 1 2) share) momentum_in_panic
  ]

  unfoldable pub evaluate : ℕ → ℕ → Measures → Thresholds → Candidate
  evaluate ref rank m th = record {
    ref = ref;
    rank = rank;
    measures = m;
    failures =
        evidence_gate th m.evidence
        ++ (separation_gate th m.separation
            ++ (robustness_gate th m.robustness
                ++ (economics_gate th m.economics
                    ++ (agreement_gate th m.agreement
                        ++ (liquidity_gate th m.liquidity_state
                            ++ panic_gate m.regime m.themes)))));
  }

  abbrev pub is_empty {ℓ} : {A : Type ℓ} → List A → Bool
  is_empty [] = true
  is_empty (x ∷ xs) = false

  unfoldable pub clears : Candidate → Bool
  clears c = is_empty c.failures
