-- ===== src/Cadence/Position.antt =====
-- cadence.py: the two positions that `resolve` counts from.
use prosignal.Prelude.{
  ℕ, zero, suc, ◌≡◌, inl, inr, Bool, true, none, some, List, [], ◌∷◌, arith, ltb, ◌==◌,
  if◌then◌else◌, Bool-cases, Option-cases, length, get_elem?,
}
use prosignal.Cadence.Defs.{find_index, index_of, anchor_index}
use prosignal.Calendar.{bisect_left}
use prosignal.Calendar.Order.{IsAscending, Above-elem, elem_of_get}

find_index-get :
    (p : ℕ → Bool) (xs : List ℕ) (i : ℕ)
    → find_index p xs ≡ some i
    → (s : ℕ) × (get_elem? xs i ≡ some s) × (p s ≡ true)
find_index-get p [] i h = cc
find_index-get p (x ∷ xs) i h = elim (Bool-cases (p x)) [
  | inl here ↦ (x, ground arith, here)
  | inr later ↦ elim (Option-cases (find_index p xs)) [
    | inl missing ↦ ground arith
    | inr (j, found) ↦ let (s, g, q) = find_index-get p xs j found in (s, ground arith, q)
  ]
]

pub index_of-get :
    (xs : List ℕ) (when i : ℕ) → index_of xs when ≡ some i → get_elem? xs i ≡ some when
unfolding index_of
index_of-get xs when i h = let (s, g, e) = find_index-get (λ s. s == when) xs i h in ground arith

-- In an ascending list a session is found at its position.
pub index_of_get :
    (xs : List ℕ) (when i : ℕ)
    → IsAscending xs
    → get_elem? xs i ≡ some when
    → index_of xs when ≡ some i
unfolding index_of
index_of_get [] when i a g = cc
index_of_get (x ∷ xs) when zero a g = ground arith
index_of_get (x ∷ xs) when (suc i) a g =
    ground (arith, index_of_get xs when i a.1 g, Above-elem x when xs a.0, elem_of_get xs i when g)

-- On an ascending list the anchor's position is the bisection of the anchor.
pub anchor_index-bisect_left :
    (xs : List ℕ) (anchor : ℕ)
    → anchor_index xs anchor
      ≡ (if ltb (bisect_left xs anchor) (length xs) then some (bisect_left xs anchor) else none)
unfolding anchor_index
anchor_index-bisect_left [] anchor = ground arith
anchor_index-bisect_left (x ∷ xs) anchor = ground (arith, anchor_index-bisect_left xs anchor)
