-- ===== src/Registry/Allocation.antt =====
-- validation/registry.py: the gate that `record` passes before it writes.
use prosignal.Prelude.{
  ℕ, ◌+◌, ◌≤◌, ◌≡◌, refl, ap, subst, inl, inr, true, false, List, arith, ltb, ==_iff, Bool-cases,
  Result, ok, err, ◌>>=◌, raise_if,
}
use prosignal.Registry.Defs.{
  Pass, pre_v10, v10, other_pass, same_pass, Line, load, spent, Fault, budget_exceeded, allocation,
  wanted, check_budget,
}

gate-within :
    (r : Result Fault ℕ) (n a : ℕ) (e : ℕ → Fault)
    → (r >>= λ (b : ℕ). raise_if (ltb b n) (e b)) ≡ ok tt
    → r ≡ ok a
    → n ≤ a
gate-within (ok b) n a e h k = elim (Bool-cases (ltb b n)) [
  | inl over ↦ let bad : err (e b) ≡ ok tt = subst (λ x. raise_if x (e b) ≡ ok tt) over h in cc
  | inr under ↦ let same : b ≡ a = cc in ground arith
]
gate-within (err x) n a e h k = cc

gate-passes :
    (r : Result Fault ℕ) (n m : ℕ) (e d : ℕ → Fault)
    → (r >>= λ (b : ℕ). raise_if (ltb b n) (e b)) ≡ ok tt
    → m ≤ n
    → (r >>= λ (b : ℕ). raise_if (ltb b m) (d b)) ≡ ok tt
gate-passes (ok b) n m e d h k = elim (Bool-cases (ltb b n)) [
  | inl over ↦ let bad : err (e b) ≡ ok tt = subst (λ x. raise_if x (e b) ≡ ok tt) over h in cc
  | inr under ↦ let fits : ltb b m ≡ false = ground arith in rw fits refl
]
gate-passes (err x) n m e d h k = cc

no_allocation : {a : ℕ} → allocation pre_v10 ≡ ok a → ⊥
unfolding allocation
no_allocation e = cc

pub check_budget-within :
    (lines : List Line) (p : Pass) (ks : List ℕ) (a : ℕ)
    → check_budget lines p ks ≡ ok tt
    → allocation p ≡ ok a
    → spent lines p + wanted ks (load lines) ≤ a
unfolding check_budget
check_budget-within lines pre_v10 ks a h e = absurd (no_allocation e)
check_budget-within lines (v10 m) ks a h e =
    gate-within (allocation (v10 m)) (spent lines (v10 m) + wanted ks (load lines)) a
      (λ b. budget_exceeded (v10 m) b (spent lines (v10 m)) (wanted ks (load lines))) h e
check_budget-within lines (other_pass m) ks a h e =
    gate-within (allocation (other_pass m)) (spent lines (other_pass m) + wanted ks (load lines)) a
      (λ b. budget_exceeded (other_pass m) b (spent lines (other_pass m)) (wanted ks (load lines)))
      h e

-- A campaign that passed passes against a register in which no more is spent and wanted.
pub check_budget-again :
    (lines u : List Line) (p : Pass) (ks : List ℕ)
    → check_budget lines p ks ≡ ok tt
    → spent u p + wanted ks (load u) ≤ spent lines p + wanted ks (load lines)
    → check_budget u p ks ≡ ok tt
unfolding check_budget
check_budget-again lines u pre_v10 ks h k = refl
check_budget-again lines u (v10 m) ks h k =
    gate-passes (allocation (v10 m)) (spent lines (v10 m) + wanted ks (load lines))
      (spent u (v10 m) + wanted ks (load u))
      (λ b. budget_exceeded (v10 m) b (spent lines (v10 m)) (wanted ks (load lines)))
      (λ b. budget_exceeded (v10 m) b (spent u (v10 m)) (wanted ks (load u))) h k
check_budget-again lines u (other_pass m) ks h k =
    gate-passes (allocation (other_pass m)) (spent lines (other_pass m) + wanted ks (load lines))
      (spent u (other_pass m) + wanted ks (load u))
      (λ b. budget_exceeded (other_pass m) b (spent lines (other_pass m)) (wanted ks (load lines)))
      (λ b. budget_exceeded (other_pass m) b (spent u (other_pass m)) (wanted ks (load u))) h k

pub same_pass_eq : (p q : Pass) → same_pass p q ≡ true → p ≡ q
same_pass_eq pre_v10 pre_v10 h = refl
same_pass_eq pre_v10 (v10 b) h = cc
same_pass_eq pre_v10 (other_pass b) h = cc
same_pass_eq (v10 a) pre_v10 h = cc
same_pass_eq (v10 a) (v10 b) h = ap v10 ((==_iff a b).0 h)
same_pass_eq (v10 a) (other_pass b) h = cc
same_pass_eq (other_pass a) pre_v10 h = cc
same_pass_eq (other_pass a) (v10 b) h = cc
same_pass_eq (other_pass a) (other_pass b) h = ap other_pass ((==_iff a b).0 h)

pub same_pass_self : (p : Pass) → same_pass p p ≡ true
same_pass_self pre_v10 = refl
same_pass_self (v10 a) = (==_iff a a).1 refl
same_pass_self (other_pass a) = (==_iff a a).1 refl
