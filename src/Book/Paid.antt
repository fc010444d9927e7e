-- ===== src/Book/Paid.antt =====
-- book.py: what the redistribution loop pays out and what it has left.
use prosignal.Prelude.{
  ℕ, ◌≡◌, sym, ap, ◌⊎◌, inl, inr, Bool, true, false, none, some, List, [], ◌∷◌, ◌++◌, arith, ◌==◌,
  ==_iff, Bool-cases, length, filter, All, elem, IsSetList, elem-filter,
}
use prosignal.Prelude.Floats.{FloatOps}
use prosignal.Book.Defs.{Allocation, amount, remove, cap_one, share_of, capped}
use mathlib.Core.List.{Perm, perm_middle}
use mathlib.Core.List.Perm

pub IsSetList-filter : (p : ℕ → Bool) (xs : List ℕ) → IsSetList xs → IsSetList (filter p xs)
IsSetList-filter p [] s = tt
IsSetList-filter p (x ∷ xs) s = elim (Bool-cases (p x)) [
  | inl keeps ↦
      let once : elem x (filter p xs) ≡ false = ground (arith, elem-filter x p xs, s.0) in
      rw (keeps, filter) (once, IsSetList-filter p xs s.1)
  | inr drops ↦ rw (drops, filter) (IsSetList-filter p xs s.1)
]

module _ (F : FloatOps) where
  open F use {Float, lt, add, neg, div, ratio}

  -- What is left of an amount after the caps of names were taken from it, the last name first.
  abbrev pub left_after : (ℕ → Float) → Float → List ℕ → Float
  left_after caps capital [] = capital
  left_after caps capital (t ∷ ts) = add (left_after caps capital ts) (neg (caps t))

  -- The open names have nothing and all is left, or they have equal parts of it and nothing is.
  abbrev pub HasShares : Float → Allocation F → Type 0
  HasShares rest b =
      ((b.remaining ≡ rest) × All (λ t. amount F t b.alloc ≡ none) b.open_names)
      ⊎ ((b.remaining ≡ ratio 0 1)
          × All (λ t. amount F t b.alloc ≡ some (div rest (ratio (length b.open_names) 1)))
              b.open_names)

  -- The names given up, in some order, and the open ones are the names there were.
  abbrev pub IsSplit : List ℕ → List ℕ → Allocation F → Type 0
  IsSplit ts tradable b = Perm (ts ++ b.open_names) tradable

  abbrev pub IsPaid : (ℕ → Float) → Float → List ℕ → Allocation F → Type 0
  IsPaid caps capital tradable a =
      (ts : List ℕ) × (IsSplit ts tradable a × (a.remaining ≡ left_after caps capital ts))

  -- The open names share what the caps of the others leave of the capital.
  abbrev pub IsShared : (ℕ → Float) → Float → List ℕ → Allocation F → Type 0
  IsShared caps capital tradable b =
      (ts : List ℕ) × (IsSplit ts tradable b × HasShares (left_after caps capital ts) b)

  pub capped-open :
      (caps : ℕ → Float) (a : Allocation F) (u : ℕ)
      → elem u (capped F caps a) ≡ true
      → elem u a.open_names ≡ true
  capped-open caps a u h =
      let split = elem-filter u (λ t. lt (caps t) (share_of F a)) a.open_names in ground arith

  remove-Perm : (t : ℕ) (us : List ℕ) → elem t us ≡ true → Perm (t ∷ remove F t us) us
  remove-Perm t [] h = cc
  remove-Perm t (u ∷ us) h = elim (Bool-cases (u == t)) [
    | inl same ↦
        let at : u ≡ t = (==_iff u t).0 same in rw same (Perm.cons' (sym at) (Perm.refl us))
    | inr other ↦
        let there : elem t us ≡ true = ground arith in
        rw other (Perm.trans (Perm.swap u t (remove F t us)) (Perm.cons u (remove-Perm t us there)))
  ]

  module _ (caps : ℕ → Float) (capital : Float) (tradable : List ℕ) where
    pub cap_one-IsPaid :
        (t : ℕ) (a : Allocation F)
        → elem t a.open_names ≡ true
        → IsPaid caps capital tradable a
        → IsPaid caps capital tradable (cap_one F caps t a)
    cap_one-IsPaid t a h (ts, (split, paid)) =
        let us = remove F t a.open_names in
        let back : Perm (t ∷ (ts ++ us)) (ts ++ a.open_names) =
          Perm.trans (Perm.symm (perm_middle ts us))
            (Perm.append_left ts (remove-Perm t a.open_names h)) in
        (t ∷ ts, (Perm.trans back split, ap (λ x. add x (neg (caps t))) paid))
