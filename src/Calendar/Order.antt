-- ===== src/Calendar/Order.antt =====
-- core/calendar.py: the order of the session list, which `bisect` relies on.
use prosignal.Prelude.{
  ℕ, zero, suc, ◌≤◌, ◌<◌, ◌≡◌, refl, inl, inr, true, false, ◌||◌, some, List, [], ◌∷◌, arith, ◌==◌,
  Bool-cases, length, get_elem?, elem, IsSetList,
}
use prosignal.Calendar.Defs.{insort, sorted}

abbrev pub Above : ℕ → List ℕ → Type 0
Above d [] = Unit
Above d (x ∷ xs) = (d < x) × Above d xs

-- Strictly ascending: in order, and without duplicates.
abbrev pub IsAscending : List ℕ → Type 0
IsAscending [] = Unit
IsAscending (x ∷ xs) = Above x xs × IsAscending xs

pub Above-elem : (d e : ℕ) (xs : List ℕ) → Above d xs → elem e xs ≡ true → d < e
Above-elem d e [] a h = cc
Above-elem d e (x ∷ xs) a h = ground (arith, Above-elem d e xs a.1)

pub Above-trans : (d e : ℕ) (xs : List ℕ) → d ≤ e → Above e xs → Above d xs
Above-trans d e [] h a = tt
Above-trans d e (x ∷ xs) h a = (omega arith, Above-trans d e xs h a.1)

pub elem-insort : (e d : ℕ) (xs : List ℕ) → elem e (insort d xs) ≡ (e == d || elem e xs)
elem-insort e d [] = ground arith
elem-insort e d (x ∷ xs) = ground (arith, elem-insort e d xs)

Above-insort : (e d : ℕ) (xs : List ℕ) → e < d → Above e xs → Above e (insort d xs)
Above-insort e d [] h a = (h, tt)
Above-insort e d (x ∷ xs) h a = ground (arith, Above-insort e d xs h a.1)

pub insort-IsAscending :
    (d : ℕ) (xs : List ℕ) → elem d xs ≡ false → IsAscending xs → IsAscending (insort d xs)
insort-IsAscending d [] h a = (tt, tt)
insort-IsAscending d (x ∷ xs) h a =
    ground (arith, insort-IsAscending d xs, Above-insort x d xs, Above-trans d x xs)

pub elem-sorted : (e : ℕ) (xs : List ℕ) → elem e (sorted xs) ≡ elem e xs
unfolding sorted
elem-sorted e [] = refl
elem-sorted e (x ∷ xs) = ground (arith, elem-insort e x (sorted xs), elem-sorted e xs)

pub sorted-IsAscending : (xs : List ℕ) → IsSetList xs → IsAscending (sorted xs)
unfolding sorted
sorted-IsAscending [] h = tt
sorted-IsAscending (x ∷ xs) h =
    ground (arith, insort-IsAscending x (sorted xs), elem-sorted x xs, sorted-IsAscending xs h.1)

-- Where an entry stands in the list.
pub elem_of_get : (xs : List ℕ) (i s : ℕ) → get_elem? xs i ≡ some s → elem s xs ≡ true
elem_of_get [] i s h = cc
elem_of_get (x ∷ xs) zero s h = ground arith
elem_of_get (x ∷ xs) (suc i) s h = ground (arith, elem_of_get xs i s h)

pub get_of_elem : (xs : List ℕ) (s : ℕ) → elem s xs ≡ true → (i : ℕ) × (get_elem? xs i ≡ some s)
get_of_elem [] s h = cc
get_of_elem (x ∷ xs) s h = elim (Bool-cases (s == x)) [
  | inl e ↦ (0, ground arith)
  | inr n ↦ let (i, p) = get_of_elem xs s (ground arith) in (suc i, p)
]

pub get_of_lt {ℓ} :
    {A : Type ℓ} (xs : List A) (i : ℕ) → i < length xs → (s : A) × (get_elem? xs i ≡ some s)
get_of_lt [] i h = elim h [ ]
get_of_lt (x ∷ xs) zero h = (x, refl)
get_of_lt (x ∷ xs) (suc i) h = get_of_lt xs i (omega arith)

pub lt_of_get {ℓ} :
    {A : Type ℓ} (xs : List A) (i : ℕ) (s : A) → get_elem? xs i ≡ some s → i < length xs
lt_of_get [] i s h = cc
lt_of_get (x ∷ xs) zero s h = omega arith
lt_of_get (x ∷ xs) (suc i) s h = omega (arith, lt_of_get xs i s h)
