-- ===== src/Registry/Wanted.antt =====
-- validation/registry.py: the charge of a campaign is the number of trials it adds.
use prosignal.Prelude.{
  ℕ, suc, ◌≡◌, refl, sym, ap, ◌∙◌, inl, inr, Bool, true, false, not, ◌&&◌, Option, none, some, List,
  [], ◌∷◌, ◌++◌, map, arith, ◌==◌, if◌then◌else◌, ==_iff, Bool-cases, Option-cases, is_some, length,
  filter, elem, IsSetList,
}
use prosignal.Registry.Defs.{Pass, Trial, find_trial, set_of, wanted, new_trial, record_loop}
use prosignal.Registry.Merge.{has, find-append}

-- The keys that are not known, each once
abbrev unknown : (ℕ → Bool) → List ℕ → ℕ
unknown known ks = length (filter (λ k. not (known k)) (set_of ks))

set_of-IsSetList : (ks : List ℕ) → IsSetList (set_of ks)
set_of-IsSetList [] = tt
set_of-IsSetList (k ∷ ks) = elim (Bool-cases (elem k (set_of ks))) [
  | inl old ↦ rw old (set_of-IsSetList ks)
  | inr new ↦ rw new (new, set_of-IsSetList ks)
]

module _ (p q : ℕ → Bool) (k : ℕ) (apart : (j : ℕ) → q j ≡ (p j && not (k == j))) where
  filter-absent : (xs : List ℕ) → elem k xs ≡ false → length (filter p xs) ≡ length (filter q xs)
  filter-absent [] h = refl
  filter-absent (x ∷ xs) h = ground (arith, apart x, filter-absent xs)

  filter-once :
      (xs : List ℕ)
      → p k ≡ true
      → IsSetList xs
      → elem k xs ≡ true
      → length (filter p xs) ≡ suc (length (filter q xs))
  filter-once [] pk s h = cc
  filter-once (x ∷ xs) pk s h = elim (Bool-cases (k == x)) [
    | inl same ↦
        let at : k ≡ x = (==_iff k x).0 same in
        let px : p x ≡ true = ap p (sym at) ∙ pk in
        let qx : q x ≡ false = apart x ∙ rw (px, same) refl in
        let absent : elem k xs ≡ false = ap (λ z. elem z xs) at ∙ s.0 in
        rw (px, qx) (ap suc (filter-absent xs absent))
    | inr other ↦
        let there : elem k xs ≡ true = ground arith in
        let ih = filter-once xs pk s.1 there in
        elim (Bool-cases (p x)) [
          | inl px ↦ let qx : q x ≡ true = apart x ∙ rw (px, other) refl in rw (px, qx) (ap suc ih)
          | inr px ↦ let qx : q x ≡ false = apart x ∙ rw px refl in rw (px, qx) ih
        ]
  ]

  -- A key seen for the first time counts once, however often it comes again.
  pub unknown-new :
      (ks : List ℕ)
      → p k ≡ true
      → length (filter p (set_of (k ∷ ks))) ≡ suc (length (filter q (set_of ks)))
  unknown-new ks pk = elim (Bool-cases (elem k (set_of ks))) [
    | inl again ↦ rw again (filter-once (set_of ks) pk (set_of-IsSetList ks) again)
    | inr first ↦ rw first (rw pk (ap suc (filter-absent (set_of ks) first)))
  ]

pub unknown-old :
    (p : ℕ → Bool) (k : ℕ) (ks : List ℕ)
    → p k ≡ false
    → length (filter p (set_of (k ∷ ks))) ≡ length (filter p (set_of ks))
unknown-old p k ks pk = elim (Bool-cases (elem k (set_of ks))) [
  | inl again ↦ rw again refl
  | inr first ↦ rw first (rw pk refl)
]

unknown-append :
    (prior : List Trial) (t : Trial) (j : ℕ)
    → not (has j (prior ++ t ∷ [])) ≡ (not (has j prior) && not (t.key == j))
unknown-append prior t j = elim (Option-cases (find_trial j prior)) [
  | inr (u, found) ↦
      let kept : find_trial j (prior ++ t ∷ []) ≡ some u =
        find-append j prior (t ∷ []) ∙ rw found refl in
      rw (found, kept) refl
  | inl new ↦
      let last : find_trial j (prior ++ t ∷ []) ≡ (if t.key == j then some t else none) =
        find-append j prior (t ∷ []) ∙ rw new refl in
      rw (new, last)
        (elim (Bool-cases (t.key == j)) [ inl hit ↦ rw hit refl | inr miss ↦ rw miss refl ])
]

module _ (key_for : ℕ → ℕ → ℕ) (command now : ℕ) (p : Pass) where
  pub added-wanted :
      (items : List (ℕ × Option ℕ)) (prior : List Trial)
      → (record_loop key_for command now p prior items).1
        ≡ wanted (map (λ i. key_for command i.0) items) prior
  unfolding record_loop wanted
  added-wanted [] prior = refl
  added-wanted (item ∷ items) prior =
      let k = key_for command item.0 in
      let keys = map (λ (i : ℕ × Option ℕ). key_for command i.0) items in
      elim (Option-cases (find_trial k prior)) [
        | inr (seen, found) ↦
            rw (found, record_loop)
              (added-wanted items prior
                ∙ sym
                    (unknown-old (λ j. not (is_some (find_trial j prior))) k keys (rw found refl)))
        | inl new ↦
            let t = new_trial key_for command now p item in
            let once =
              unknown-new (λ j. not (has j prior)) (λ j. not (has j (prior ++ t ∷ []))) k
                (λ j. unknown-append prior t j) keys (rw new refl) in
            let ih = added-wanted items (prior ++ t ∷ []) in
            rw (new, record_loop) (omega (arith, ih, once))
      ]
