-- ===== src/Book/Amounts.antt =====
-- book.py: amounts by name, and the names that are left open.
use prosignal.Prelude.{
  ℕ, ◌≤◌, ◌<◌, ◌≡◌, refl, sym, ◌∙◌, subst, inl, inr, true, false, none, some, List, [], ◌∷◌, arith,
  ◌==◌, ==_iff, Bool-cases, length, All, elem, IsSetList,
}
use prosignal.Prelude.Floats.{FloatOps}
use prosignal.Book.Defs.{set_amount, amount, remove}

pub elem-head : (t : ℕ) (ts : List ℕ) → elem t (t ∷ ts) ≡ true
elem-head t ts = ground arith

pub elem-tail : (u t : ℕ) (ts : List ℕ) → elem u ts ≡ true → elem u (t ∷ ts) ≡ true
elem-tail u t ts h = ground arith

pub elem-distinct :
    (u t : ℕ) (ts : List ℕ) → elem u ts ≡ true → elem t ts ≡ false → (u == t) ≡ false
elem-distinct u t ts h k = elim (Bool-cases (u == t)) [
  | inl hit ↦ let at = (==_iff u t).0 hit in cc
  | inr miss ↦ miss
]

module _ (F : FloatOps) where
  open F use {Float, lt, add, ratio}

  -- No amount is above the cap of its name.
  abbrev pub IsWithin : (ℕ → Float) → List (ℕ × Float) → Type 0
  IsWithin caps amounts = All (λ p. lt (caps p.0) p.1 ≡ false) amounts

  abbrev pub IsFresh : List ℕ → List (ℕ × Float) → Type 0
  IsFresh ts amounts = (u : ℕ) → elem u ts ≡ true → amount F u amounts ≡ none

  pub set_amount-IsWithin :
      (caps : ℕ → Float) (t : ℕ) (x : Float) (amounts : List (ℕ × Float))
      → lt (caps t) x ≡ false
      → IsWithin caps amounts
      → IsWithin caps (set_amount F t x amounts)
  set_amount-IsWithin caps t x [] h w = (h, tt)
  set_amount-IsWithin caps t x ((u, y) ∷ others) h w = elim (Bool-cases (u == t)) [
    | inl same ↦ rw same (h, w.1)
    | inr other ↦ rw other (w.0, set_amount-IsWithin caps t x others h w.1)
  ]

  pub amount-set_amount :
      (u t : ℕ) (x : Float) (amounts : List (ℕ × Float))
      → (u == t) ≡ false
      → amount F u (set_amount F t x amounts) ≡ amount F u amounts
  amount-set_amount u t x [] h = let missed : (t == u) ≡ false = ground arith in rw missed refl
  amount-set_amount u t x ((v, y) ∷ others) h = elim (Bool-cases (v == t)) [
    | inl same ↦
        let at = (==_iff v t).0 same in
        let missed : (t == u) ≡ false = ground arith in
        let missed_too : (v == u) ≡ false = ground arith in rw (same, missed, missed_too) refl
    | inr other ↦ rw other (elim (Bool-cases (v == u)) [
      | inl hit ↦ rw hit refl
      | inr miss ↦ rw miss (amount-set_amount u t x others h)
    ])
  ]

  pub amount-set_amount_same :
      (t : ℕ) (x : Float) (amounts : List (ℕ × Float))
      → amount F t (set_amount F t x amounts) ≡ some x
  amount-set_amount_same t x [] = let hit : (t == t) ≡ true = ground arith in rw hit refl
  amount-set_amount_same t x ((v, y) ∷ others) = elim (Bool-cases (v == t)) [
    | inl same ↦ let hit : (t == t) ≡ true = ground arith in rw (same, hit) refl
    | inr other ↦ rw other (rw other (amount-set_amount_same t x others))
  ]

  pub length-remove : (t : ℕ) (us : List ℕ) → length (remove F t us) ≤ length us
  length-remove t [] = omega arith
  length-remove t (u ∷ us) = ground (arith, length-remove t us)

  pub length-remove_found :
      (t : ℕ) (us : List ℕ) → elem t us ≡ true → length (remove F t us) < length us
  length-remove_found t [] h = cc
  length-remove_found t (u ∷ us) h = ground (arith, length-remove_found t us)

  pub remove-absent : (v t : ℕ) (us : List ℕ) → elem v us ≡ false → elem v (remove F t us) ≡ false
  remove-absent v t [] h = refl
  remove-absent v t (u ∷ us) h = ground (arith, remove-absent v t us)

  pub remove-IsSetList : (t : ℕ) (us : List ℕ) → IsSetList us → IsSetList (remove F t us)
  remove-IsSetList t [] s = tt
  remove-IsSetList t (u ∷ us) s = elim (Bool-cases (u == t)) [
    | inl same ↦ rw same s.1
    | inr other ↦ rw other (remove-absent u t us s.0, remove-IsSetList t us s.1)
  ]

  pub elem-remove :
      (v t : ℕ) (us : List ℕ)
      → IsSetList us
      → elem v (remove F t us) ≡ true
      → ((v == t) ≡ false) × (elem v us ≡ true)
  elem-remove v t [] s = λ h. cc
  elem-remove v t (u ∷ us) s = elim (Bool-cases (u == t)) [
    | inl same ↦ rw same (λ h. elim (Bool-cases (v == t)) [
      | inl hit ↦
          let at = (==_iff u t).0 same in
          let at_too = (==_iff v t).0 hit in
          let twice : elem u us ≡ true = subst (λ x. elem x us ≡ true) (at_too ∙ sym at) h in
          let once = s.0 in cc
      | inr miss ↦ (miss, ground arith)
    ])
    | inr other ↦ rw other (λ h. elim (Bool-cases (v == u)) [
      | inl hit ↦ let at = (==_iff v u).0 hit in (ground arith, ground arith)
      | inr miss ↦ rw miss (elem-remove v t us s.1 (ground arith))
    ])
  ]

  pub elem-remove_other :
      (v t : ℕ) (us : List ℕ) → (v == t) ≡ false → elem v (remove F t us) ≡ elem v us
  elem-remove_other v t [] h = refl
  elem-remove_other v t (u ∷ us) h = ground (arith, elem-remove_other v t us)
