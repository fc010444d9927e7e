-- ===== src/Gate/Evaluate.antt =====
-- conviction/gate.py: what a candidate that `evaluate` does not refuse has shown.
use prosignal.Prelude.{
  ℕ, ◌≡◌, refl, sym, ◌∙◌, ◌↔◌, inl, inr, true, false, not, ◌&&◌, Option, none, some, List, [], ◌∷◌,
  ◌++◌, arith, Option-cases,
}
use prosignal.Prelude.Floats.{FloatOps}
use prosignal.Gate.Defs.{
  Failure, LiquidityState, is_known_valid, Thresholds, Evidence, NetEdge, Regime, Theme, Measures,
  momentum_share, panic_state, evidence_gate, separation_gate, robustness_gate, is_nonpositive,
  exceeds, economics_gate, agreement_gate, liquidity_gate, panic_gate, evaluate, is_empty, clears,
}

module _ (F : FloatOps) where
  open F use {Float, lt, le, ratio}

  -- The evidence is testable, in enough directions, none of them too heavy.
  abbrev pub HasEvidence : Thresholds F → Option (Evidence F) → Type 0
  HasEvidence th none = ⊥
  HasEvidence th (some e) =
      (lt e.effective th.min_independent_evidence ≡ false)
      × (lt th.max_evidence_concentration e.concentration ≡ false)

  abbrev pub HasSeparation : Thresholds F → Option (Option Float) → Type 0
  HasSeparation th none = ⊥
  HasSeparation th (some none) = ⊥
  HasSeparation th (some (some gap)) = lt gap th.min_gap_to_median ≡ false

  abbrev pub HasRobustness : Thresholds F → Option Float → Type 0
  HasRobustness th none = ⊥
  HasRobustness th (some survival) = lt survival th.min_robustness ≡ false

  abbrev pub HasEdge : Thresholds F → Option (NetEdge F) → Type 0
  HasEdge th none = ⊥
  HasEdge th (some n) =
      (is_nonpositive F n.net_edge ≡ false) × (exceeds F n.cost_burden th.max_cost_burden ≡ false)

  -- A measured consensus is not below the threshold.
  abbrev pub HasAgreement : Thresholds F → Option (Option Float) → Type 0
  HasAgreement th none = Unit
  HasAgreement th (some none) = Unit
  HasAgreement th (some (some consensus)) = lt consensus th.min_model_agreement ≡ false

  abbrev pub HasLiquidity : Thresholds F → Option LiquidityState → Type 0
  HasLiquidity th none = Unit
  HasLiquidity th (some s) = (th.require_known_liquidity && not (is_known_valid s)) ≡ false

  abbrev pub IsNoCrash : Regime F → Option Float → Type 0
  IsNoCrash r none = Unit
  IsNoCrash r (some share) = (panic_state F r && le (ratio 1 2) share) ≡ false

  pub record IsAdmissible (th : Thresholds F) (m : Measures F) : Type 0 where
    pub evidence : HasEvidence th m.evidence
    pub separation : HasSeparation th m.separation
    pub robustness : HasRobustness th m.robustness
    pub edge : HasEdge th m.economics
    pub agreement : HasAgreement th m.agreement
    pub liquidity : HasLiquidity th m.liquidity_state
    pub no_crash : IsNoCrash m.regime (momentum_share F m.themes)

  empty-append : (xs ys : List Failure) → is_empty F (xs ++ ys) ≡ (is_empty F xs && is_empty F ys)
  empty-append [] ys = refl
  empty-append (x ∷ xs) ys = refl

  evidence_gate-empty :
      (th : Thresholds F) (e : Option (Evidence F))
      → (is_empty F (evidence_gate F th e) ≡ true) ↔ HasEvidence th e
  unfolding evidence_gate
  evidence_gate-empty th none = (λ h. cc, λ h. absurd h)
  evidence_gate-empty th (some e) = (λ h. ground arith, λ h. ground arith)

  separation_gate-empty :
      (th : Thresholds F) (s : Option (Option Float))
      → (is_empty F (separation_gate F th s) ≡ true) ↔ HasSeparation th s
  unfolding separation_gate
  separation_gate-empty th none = (λ h. cc, λ h. absurd h)
  separation_gate-empty th (some none) = (λ h. cc, λ h. absurd h)
  separation_gate-empty th (some (some g)) = (λ h. ground arith, λ h. ground arith)

  robustness_gate-empty :
      (th : Thresholds F) (r : Option Float)
      → (is_empty F (robustness_gate F th r) ≡ true) ↔ HasRobustness th r
  unfolding robustness_gate
  robustness_gate-empty th none = (λ h. cc, λ h. absurd h)
  robustness_gate-empty th (some r) = (λ h. ground arith, λ h. ground arith)

  economics_gate-empty :
      (th : Thresholds F) (n : Option (NetEdge F))
      → (is_empty F (economics_gate F th n) ≡ true) ↔ HasEdge th n
  unfolding economics_gate
  economics_gate-empty th none = (λ h. cc, λ h. absurd h)
  economics_gate-empty th (some n) = (λ h. ground arith, λ h. ground arith)

  agreement_gate-empty :
      (th : Thresholds F) (a : Option (Option Float))
      → (is_empty F (agreement_gate F th a) ≡ true) ↔ HasAgreement th a
  unfolding agreement_gate
  agreement_gate-empty th none = (λ h. tt, λ h. refl)
  agreement_gate-empty th (some none) = (λ h. tt, λ h. refl)
  agreement_gate-empty th (some (some c)) = (λ h. ground arith, λ h. ground arith)

  liquidity_gate-empty :
      (th : Thresholds F) (l : Option LiquidityState)
      → (is_empty F (liquidity_gate F th l) ≡ true) ↔ HasLiquidity th l
  unfolding liquidity_gate
  liquidity_gate-empty th none = (λ h. tt, λ h. refl)
  liquidity_gate-empty th (some s) = (λ h. ground arith, λ h. ground arith)

  panic_gate-empty :
      (r : Regime F) (ts : List (Theme F))
      → (is_empty F (panic_gate F r ts) ≡ true) ↔ IsNoCrash r (momentum_share F ts)
  unfolding panic_gate
  panic_gate-empty r ts = elim (Option-cases (momentum_share F ts)) [
    | inl e ↦ rw (e, panic_gate) (λ h. tt, λ h. refl)
    | inr (s, e) ↦ rw (e, panic_gate) (λ h. ground arith, λ h. ground arith)
  ]

  -- `evaluate` leaves a candidate without a failure exactly when every gate is met: its evidence,
  -- separation, robustness and edge are measured and within their thresholds, what was measured of
  -- agreement and liquidity is too, and it is not a momentum case in a panic state.
  pub evaluate-clears :
      (ref rank : ℕ) (m : Measures F) (th : Thresholds F)
      → (clears F (evaluate F ref rank m th) ≡ true) ↔ IsAdmissible th m
  unfolding clears evaluate
  evaluate-clears ref rank m th =
      let a = evidence_gate F th m.evidence in
      let b = separation_gate F th m.separation in
      let c = robustness_gate F th m.robustness in
      let d = economics_gate F th m.economics in
      let e = agreement_gate F th m.agreement in
      let f = liquidity_gate F th m.liquidity_state in
      let g = panic_gate F m.regime m.themes in
      let split : is_empty F (a ++ (b ++ (c ++ (d ++ (e ++ (f ++ g)))))) ≡ (
          is_empty F a
          && (is_empty F b
              && (is_empty F c
                  && (is_empty F d && (is_empty F e && (is_empty F f && is_empty F g)))))) =
        simp empty-append in
      (
        λ h.
            let met : (is_empty F a
                  && (is_empty F b
                      && (is_empty F c
                          && (is_empty F d && (is_empty F e && (is_empty F f && is_empty F g))))))
                ≡ true =
              sym split ∙ h in
            record {
              evidence = (evidence_gate-empty th m.evidence).0 (ground arith);
              separation = (separation_gate-empty th m.separation).0 (ground arith);
              robustness = (robustness_gate-empty th m.robustness).0 (ground arith);
              edge = (economics_gate-empty th m.economics).0 (ground arith);
              agreement = (agreement_gate-empty th m.agreement).0 (ground arith);
              liquidity = (liquidity_gate-empty th m.liquidity_state).0 (ground arith);
              no_crash = (panic_gate-empty m.regime m.themes).0 (ground arith);
            },
        λ k.
            let ha = (evidence_gate-empty th m.evidence).1 k.evidence in
            let hb = (separation_gate-empty th m.separation).1 k.separation in
            let hc = (robustness_gate-empty th m.robustness).1 k.robustness in
            let hd = (economics_gate-empty th m.economics).1 k.edge in
            let he = (agreement_gate-empty th m.agreement).1 k.agreement in
            let hf = (liquidity_gate-empty th m.liquidity_state).1 k.liquidity in
            let hg = (panic_gate-empty m.regime m.themes).1 k.no_crash in
            split ∙ simp (ha, hb, hc, hd, he, hf, hg),
      )
