-- ===== src/Gate/Tests.antt =====
-- conviction/gate.py: runs of the gate over integers in place of floats.
use prosignal.Prelude.{
  ℕ, ◌+◌, ◌*◌, ◌/◌, ◌≡◌, refl, ◌↔◌, true, false, not, Option, none, some, List, [], ◌∷◌, arith,
  ◌==◌, if◌then◌else◌, filter,
}
use prosignal.Prelude.Int.{ℤ, pos, negsuc, pos_part, neg_part, ◌+ℤ◌, ◌-ℤ◌, ◌*ℤ◌, ltb_ℤ}
use prosignal.Prelude.Floats.{FloatOps, IsOrdered}
use prosignal.Gate.Defs.{
  Failure, fragile, known_valid, Thresholds, Regime, Measures, Candidate, momentum_share,
  panic_state, evidence_gate, separation_gate, robustness_gate, economics_gate, agreement_gate,
  liquidity_gate, panic_gate, evaluate, clears,
}
use prosignal.Gate.Slots.{
  quality, Independence, Verdict, sort_by_quality, pair_failure, fill_slots, verdict_of,
  select_at_most_two,
}
use prosignal.Gate.Evaluate.{IsAdmissible, evaluate-clears}
use prosignal.Gate.Ranking.{IsDescending}
use prosignal.Gate.Select.{slots_of, select-slots_of}
use mathlib.Core.List.{Perm}

-- A product of hundredths, in hundredths.
abbrev quotient : ℤ → ℤ
quotient (pos n) = pos (n / 100)
quotient (negsuc n) = pos 0 -ℤ pos ((n + 1) / 100)

-- Hundredths, so that the literals with a fraction are numbers.
abbrev hundredths : FloatOps
hundredths = record {
  Float = ℤ;
  lt = ltb_ℤ;
  le = λ a b. not (ltb_ℤ b a);
  add = λ a b. a +ℤ b;
  mul = λ a b. quotient (a *ℤ b);
  div = λ a b. pos (pos_part a * 100 / pos_part b);
  neg = λ a. pos 0 -ℤ a;
  abs = λ a. pos (pos_part a + neg_part a);
  ratio = λ n d. pos (n * 100 / d);
}

hundredths-IsOrdered : IsOrdered hundredths
unfolding ◌-ℤ◌
hundredths-IsOrdered = record {
  lt_asym = λ a b h. ground arith;
  ge_trans = λ a b c h k. ground arith;
  lt-neg = λ a b. ground arith;
}

abbrev limits : Thresholds hundredths
limits = record {
  min_independent_evidence = pos 200;
  max_evidence_concentration = pos 60;
  min_gap_to_median = pos 10;
  min_robustness = pos 60;
  max_cost_burden = pos 40;
  max_residual_correlation = pos 70;
  max_evidence_similarity = pos 80;
  min_basket_enb = pos 130;
  min_model_agreement = pos 50;
  require_known_liquidity = true;
  max_buys = 2;
}

abbrev calm : Regime hundredths
calm = record { declining = false; vix_percentile = some (pos 4000); transition_flag = false }

-- A candidate with the given gap to the median.
abbrev measured : ℤ → Measures hundredths
measured gap = record {
  evidence = some (record { effective = pos 300; concentration = pos 50 });
  separation = some (some gap);
  robustness = some (pos 90);
  economics = some (record { net_edge = some (pos 2); cost_burden = some (pos 20) });
  agreement = some none;
  liquidity_state = some known_valid;
  regime = calm;
  themes =
      record { is_momentum = true; contribution = some (pos 100) }
      ∷ record { is_momentum = false; contribution = some (negsuc 99) }
      ∷ [];
}

abbrev candidate : ℕ → ℤ → List Failure → Candidate hundredths
candidate n gap fs = record { ref = n; rank = n; measures = measured gap; failures = fs }

abbrev pair : Candidate hundredths → Candidate hundredths → Option (Independence hundredths)
pair a b = some (record {
  residual_correlation = some (if b.ref == 2 then pos 75 else pos 10);
  evidence_similarity = some (pos 30);
  basket_enb = some (pos 180);
})

abbrev field : List (Candidate hundredths)
field =
    candidate 1 (pos 20) []
    ∷ candidate 2 (pos 40) []
    ∷ candidate 3 (pos 90) (fragile ∷ [])
    ∷ candidate 4 (pos 50) []
    ∷ []

evaluate-clears_example :
    (clears hundredths (evaluate hundredths 1 1 (measured (pos 20)) limits) ≡ true)
    ↔ IsAdmissible hundredths limits (measured (pos 20))
evaluate-clears_example = evaluate-clears hundredths 1 1 (measured (pos 20)) limits

admitted : clears hundredths (evaluate hundredths 1 1 (measured (pos 20)) limits) ≡ true
unfolding clears evaluate evidence_gate separation_gate robustness_gate economics_gate
    agreement_gate liquidity_gate panic_gate momentum_share panic_state ◌+ℤ◌ ◌-ℤ◌ ◌*ℤ◌
admitted = refl

-- The best candidate that clears is the fourth; the second is too close to it, the first is not.
abbrev verdict : Verdict hundredths
verdict = select_at_most_two hundredths pair limits field

buys_first_and_fourth : verdict.buys ≡ candidate 4 (pos 50) [] ∷ candidate 1 (pos 20) [] ∷ []
unfolding select_at_most_two verdict_of fill_slots sort_by_quality quality clears pair_failure ◌+ℤ◌
    ◌-ℤ◌ ◌*ℤ◌
buys_first_and_fourth = refl

select-slots_of_example :
    (ranked : List (Candidate hundredths)) × (Perm ranked (filter (clears hundredths) field)
      × (IsDescending hundredths hundredths-IsOrdered ranked
          × (verdict.buys ≡ slots_of hundredths pair limits ranked)))
select-slots_of_example = select-slots_of hundredths pair limits hundredths-IsOrdered field
