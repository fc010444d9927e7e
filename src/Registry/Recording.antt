-- ===== src/Registry/Recording.antt =====
-- validation/registry.py: `record` as a whole.
use prosignal.Prelude.{
  ℕ, ◌+◌, ◌≤◌, ◌≡◌, refl, sym, ap, ◌∙◌, subst, ◌⊎◌, inl, inr, true, Option, List, [], ◌++◌, map,
  arith, Bool-cases, length, All, Result, ok, err,
}
use prosignal.Registry.Defs.{
  Pass, same_pass, Trial, Line, load_from, load, trial_total, spent, Fault, allocation, wanted,
  write_lines, zip_scores, lines_up, check_budget, record_loop, record_trials,
}
use prosignal.Registry.Merge.{has, spent_in, load_from-append}
use prosignal.Registry.Wanted.{added-wanted}
use prosignal.Registry.Budget.{charge, loop-Adds}
use prosignal.Registry.Known.{none_unknown, keys-items, loop-Known}
use prosignal.Registry.Allocation.{
  check_budget-within, check_budget-again, same_pass_eq, same_pass_self,
}

Result-cases : (r : Result Fault (Unit {0})) → (r ≡ ok tt) ⊎ ((e : Fault) × (r ≡ err e))
Result-cases (ok tt) = inl refl
Result-cases (err e) = inr (e, refl)

module _ (key_for : ℕ → ℕ → ℕ) (command : ℕ) (labels : List ℕ) (scores : Option (List (Option ℕ)))
    (p : Pass) where
  abbrev items : List (ℕ × Option ℕ)
  items = zip_scores labels scores

  abbrev keys : List ℕ
  keys = map (key_for command) labels

  pub record-cases :
      (lines u : List Line) (now n : ℕ)
      → record_trials key_for lines now command labels scores p ≡ ok (n, u)
      → (check_budget lines p keys ≡ ok tt)
        × (lines_up labels scores ≡ true)
        × (n ≡ (record_loop key_for command now p (load lines) items).1)
        × (u ≡ lines ++ write_lines (record_loop key_for command now p (load lines) items).0)
  unfolding record_trials
  record-cases lines u now n = elim (Bool-cases (lines_up labels scores)) [
    | inr bad ↦ rw bad (λ h. cc)
    | inl good ↦ elim (Result-cases (check_budget lines p keys)) [
      | inr (e, refused) ↦ rw good (rw refused (λ h. cc))
      | inl passed ↦ rw good (
          rw passed (λ h.
            let both = ok_eq h in (refl, refl, sym (ap (λ x. x.0) both), sym (ap (λ x. x.1) both))))
    ]
  ]
    where
      ok_eq : {a b : ℕ × List Line} → Path (Result Fault (ℕ × List Line)) (ok a) (ok b) → a ≡ b
      ok_eq h = cc

  record-passed :
      (lines : List Line) (now : ℕ)
      → lines_up labels scores ≡ true
      → check_budget lines p keys ≡ ok tt
      → record_trials key_for lines now command labels scores p
        ≡ ok (
          (record_loop key_for command now p (load lines) items).1,
          lines ++ write_lines (record_loop key_for command now p (load lines) items).0,
        )
  unfolding record_trials
  record-passed lines now good passed = rw good (rw passed refl)

  pub loaded-after :
      (lines u : List Line) (fresh : List Trial)
      → u ≡ lines ++ write_lines fresh
      → load u ≡ load_from (write_lines fresh) (load lines)
  unfolding load
  loaded-after lines u fresh h = ap load h ∙ load_from-append lines (write_lines fresh) []

  -- A campaign that is recorded adds as many trials as it reports, and charges them to its pass and
  -- to no other.
  pub record_trials-counts :
      (lines u : List Line) (now n : ℕ) (q : Pass)
      → record_trials key_for lines now command labels scores p ≡ ok (n, u)
      → (trial_total u ≡ trial_total lines + n) × (spent u q ≡ spent lines q + charge p q n)
  unfolding trial_total spent
  record_trials-counts lines u now n q h =
      let (passed, good, counted, written) = record-cases lines u now n h in
      let fresh = (record_loop key_for command now p (load lines) items).0 in
      let read = loaded-after lines u fresh written in
      let adds = loop-Adds key_for command now p items (load lines) (load lines) (λ k. refl) in
      (
        ap length read ∙ adds.0 ∙ ap (λ (m : ℕ). length (load lines) + m) (sym counted),
        ap (spent_in q) read
            ∙ adds.1 q
            ∙ ap (λ (m : ℕ). spent_in q (load lines) + charge p q m) (sym counted),
      )

  wanted-counted :
      (lines u : List Line) (now n : ℕ)
      → record_trials key_for lines now command labels scores p ≡ ok (n, u)
      → n ≡ wanted keys (load lines)
  wanted-counted lines u now n h =
      let (passed, good, counted, written) = record-cases lines u now n h in
      counted
      ∙ added-wanted key_for command now p items (load lines)
      ∙ ap (λ ks. wanted ks (load lines)) (keys-items key_for command p labels scores)

module _ (key_for : ℕ → ℕ → ℕ) (command : ℕ) (labels : List ℕ) (scores : Option (List (Option ℕ)))
    (p : Pass) (lines u : List Line) (now n : ℕ)
    (done : record_trials key_for lines now command labels scores p ≡ ok (n, u)) where
  -- A pass that is within its allocation is within it after any campaign that is recorded.
  pub record_trials-within :
      (q : Pass) (a : ℕ) → allocation q ≡ ok a → spent lines q ≤ a → spent u q ≤ a
  record_trials-within q a e h =
      let counts = record_trials-counts key_for command labels scores p lines u now n q done in
      elim (Bool-cases (same_pass p q)) [
        | inl same ↦
            let at = same_pass_eq p q same in
            let passed = (record-cases key_for command labels scores p lines u now n done).0 in
            let total : spent u q ≡ spent lines q + n = counts.1 ∙ rw same refl in
            let room =
              check_budget-within lines p (map (key_for command) labels) a passed (rw at e) in
            let here : spent lines p ≡ spent lines q = ap (spent lines) at in
            omega (arith, wanted-counted key_for command labels scores p lines u now n done)
        | inr other ↦
            let total : spent u q ≡ spent lines q + 0 = counts.1 ∙ rw other refl in omega arith
      ]

  nothing_wanted : wanted (map (key_for command) labels) (load u) ≡ 0
  unfolding wanted
  nothing_wanted =
      let is = zip_scores labels scores in
      let (passed, good, counted, written) =
        record-cases key_for command labels scores p lines u now n done in
      let fresh = (record_loop key_for command now p (load lines) is).0 in
      let read = loaded-after key_for command labels scores p lines u fresh written in
      let known = loop-Known key_for command p now is (load lines) (load lines) (λ k. refl) in
      none_unknown (map (key_for command) labels) (λ k. has k (load u))
        (subst (λ o. All (λ k. has k o ≡ true) (map (key_for command) labels)) (sym read)
          (subst (λ ks. All (λ k. has k (load_from (write_lines fresh) (load lines)) ≡ true) ks)
            (keys-items key_for command p labels scores) known))

  gate_again : check_budget u p (map (key_for command) labels) ≡ ok tt
  gate_again =
      let passed = (record-cases key_for command labels scores p lines u now n done).0 in
      let total : spent u p ≡ spent lines p + n =
        (record_trials-counts key_for command labels scores p lines u now n p done).1
        ∙ rw (same_pass_self p) refl in
      check_budget-again lines u p (map (key_for command) labels) passed (
        omega (
          arith,
          total,
          wanted-counted key_for command labels scores p lines u now n done,
          nothing_wanted,
        ))

  -- The same campaign again is never refused and charges nothing.
  pub record_trials_again :
      (later : ℕ)
      → (v : List Line) × (record_trials key_for u later command labels scores p ≡ ok (0, v))
        × (trial_total v ≡ trial_total u)
  record_trials_again later =
      let is = zip_scores labels scores in
      let good = (record-cases key_for command labels scores p lines u now n done).1 in
      let v = u ++ write_lines (record_loop key_for command later p (load u) is).0 in
      let none_added : (record_loop key_for command later p (load u) is).1 ≡ 0 =
        added-wanted key_for command later p is (load u)
        ∙ ap (λ ks. wanted ks (load u)) (keys-items key_for command p labels scores)
        ∙ nothing_wanted in
      let run =
        record-passed key_for command labels scores p u later good gate_again
        ∙ ap (λ (m : ℕ). ok (m, v)) none_added in
      let counts = record_trials-counts key_for command labels scores p u v later 0 p run in
      (v, run, omega (arith, counts.0))
