-- ===== src/Registry/Budget.antt =====
-- validation/registry.py: what `record` writes, and the budget that it keeps.
use prosignal.Prelude.{
  ℕ, ◌+◌, ◌≡◌, refl, sym, ap, ◌∙◌, subst, inl, inr, true, false, not, ◌&&◌, ◌||◌, Option, none,
  some, List, [], ◌∷◌, ◌++◌, arith, ◌==◌, if◌then◌else◌, Bool-cases, Option-cases, is_some, length,
  length-append,
}
use prosignal.Registry.Defs.{
  Pass, same_pass, Trial, as_row, find_trial, fill_at, merge, load_from, write_lines, new_trial,
  record_loop,
}
use prosignal.Registry.Merge.{
  has, of_blob-as_row, find-append, has-fill_at, length-fill_at, spent_in, spent-fill_at,
}

pub has-append :
    (k : ℕ) (xs : List Trial) (t : Trial) → has k (xs ++ t ∷ []) ≡ (has k xs || t.key == k)
has-append k xs t = elim (Option-cases (find_trial k xs)) [
  | inr (u, found) ↦
      let kept : find_trial k (xs ++ t ∷ []) ≡ some u = find-append k xs (t ∷ []) ∙ rw found refl in
      rw (found, kept) refl
  | inl new ↦
      let last : find_trial k (xs ++ t ∷ []) ≡ (if t.key == k then some t else none) =
        find-append k xs (t ∷ []) ∙ rw new refl in
      rw (new, last)
        (elim (Bool-cases (t.key == k)) [ inl hit ↦ rw hit refl | inr miss ↦ rw miss refl ])
]

pub merge-known :
    (t : Trial) (out : List Trial)
    → has t.key out ≡ true
    → merge (as_row t) out ≡ fill_at t.key t.score out
unfolding merge as_row
merge-known t out h = rw h refl

pub merge-new :
    (t : Trial) (out : List Trial) → has t.key out ≡ false → merge (as_row t) out ≡ out ++ t ∷ []
unfolding merge
merge-new t out h =
    let same : has (as_row t).key out ≡ false = unfold as_row in h in
    rw (same, of_blob-as_row t) refl

spent-append :
    (q : Pass) (xs : List Trial) (t : Trial)
    → spent_in q (xs ++ t ∷ []) ≡ spent_in q xs + (if same_pass t.pass_id q then 1 else 0)
spent-append q [] t = ground arith
spent-append q (x ∷ xs) t = ground (arith, spent-append q xs t)

abbrev pub charge : Pass → Pass → ℕ → ℕ
charge p q n = if same_pass p q then n else 0

charge-suc : (p q : Pass) (n : ℕ) → charge p q 1 + charge p q n ≡ charge p q (n + 1)
charge-suc p q n = ground arith

module _ (key_for : ℕ → ℕ → ℕ) (command now : ℕ) (p : Pass) where
  -- The second list is the first with so many trials more, all of this pass.
  abbrev pub Adds : List Trial → ℕ → List Trial → Type 0
  Adds out added final =
      (length final ≡ length out + added)
      × ((q : Pass) → spent_in q final ≡ spent_in q out + charge p q added)

  Adds-filled :
      (k : ℕ) (s : Option ℕ) (out final : List Trial) (n : ℕ)
      → Adds (fill_at k s out) n final
      → Adds out n final
  Adds-filled k s out final n h = (
    omega (arith, h.0, length-fill_at k s out),
    λ q. omega (arith, h.1 q, spent-fill_at q k s out),
  )

  Adds-new :
      (t : Trial) (out final : List Trial) (n : ℕ)
      → t.pass_id ≡ p
      → Adds (out ++ t ∷ []) n final
      → Adds out (n + 1) final
  Adds-new t out final n same h = (
    omega (arith, h.0, length-append out (t ∷ [])),
    λ q.
        let one : charge t.pass_id q 1 ≡ charge p q 1 = ap (λ x. charge x q 1) same in
        omega (arith, h.1 q, spent-append q out t, charge-suc p q n, one),
  )

  pub loop-Adds :
      (items : List (ℕ × Option ℕ)) (prior out : List Trial)
      → ((k : ℕ) → has k out ≡ has k prior)
      → Adds out
          (record_loop key_for command now p prior items).1
          (load_from (write_lines (record_loop key_for command now p prior items).0) out)
  unfolding record_loop
  loop-Adds [] prior out same = (omega arith, λ q. ground arith)
  loop-Adds (item ∷ items) prior out same =
      let k = key_for command item.0 in
      elim (Option-cases (find_trial k prior)) [
        | inr (seen, found) ↦
            let known : has k out ≡ true = same k ∙ ap (λ o. is_some o) found in
            let t = new_trial key_for command now seen.pass_id item in
            let (fresh, added) = record_loop key_for command now p prior items in
            elim (Bool-cases (not (is_some seen.score) && is_some item.1)) [
              | inr quiet ↦ rw (found, record_loop) (rw quiet (loop-Adds items prior out same))
              | inl supplies ↦
                  let ih =
                    loop-Adds items prior (fill_at k item.1 out)
                      (λ j. has-fill_at j k item.1 out ∙ same j) in
                  rw (found, record_loop)
                    (rw supplies (
                      subst (λ o. Adds out added (load_from (write_lines fresh) o))
                        (sym (merge-known t out known))
                        (Adds-filled k item.1 out
                          (load_from (write_lines fresh) (fill_at k item.1 out)) added ih)))
            ]
        | inl new ↦
            let t = new_trial key_for command now p item in
            let absent : has k out ≡ false = same k ∙ ap (λ o. is_some o) new in
            let (fresh, added) = record_loop key_for command now p (prior ++ t ∷ []) items in
            let ih = loop-Adds items (prior ++ t ∷ []) (out ++ t ∷ []) (λ j.
              has-append j out t
              ∙ ap (λ b. b || t.key == j) (same j)
              ∙ sym (has-append j prior t)) in
            rw (new, record_loop)
              (subst (λ o. Adds out (added + 1) (load_from (write_lines fresh) o))
                (sym (merge-new t out absent))
                (Adds-new t out (load_from (write_lines fresh) (out ++ t ∷ [])) added refl ih))
      ]
