-- ===== src/Prelude/Lists.antt =====
-- Lists measured, indexed and searched by native numbers and Boolean tests.
use Prim.Native.Nat.{ℕ, zero, suc, ◌+◌, ◌-◌, ◌≤◌, ◌<◌, min}
use mathlib.Core.Path.{◌≡◌, refl, ap}
use mathlib.Core.Bool.{Bool, true, false, ◌&&◌, ◌||◌}
use mathlib.Core.Option.{Option, none, some}
use mathlib.Core.List.{List, [], ◌∷◌, ◌++◌}
use native.Mathlib.Omega.{arith}
use mathlib.Core.Logic.{inl, inr}
use prosignal.Prelude.Tests.{◌==◌, if◌then◌else◌, Bool-cases}

module _ {ℓ} {A : Type ℓ} where
  abbrev pub length : List A → ℕ
  length [] = 0
  length (x ∷ xs) = suc (length xs)

  abbrev pub get_elem? : List A → ℕ → Option A
  get_elem? [] i = none
  get_elem? (x ∷ xs) zero = some x
  get_elem? (x ∷ xs) (suc i) = get_elem? xs i

  abbrev pub take : ℕ → List A → List A
  take zero xs = []
  take (suc n) [] = []
  take (suc n) (x ∷ xs) = x ∷ take n xs

  abbrev pub drop : ℕ → List A → List A
  drop zero xs = xs
  drop (suc n) [] = []
  drop (suc n) (x ∷ xs) = drop n xs

  -- `xs[lo:hi]` at bounds that are not negative
  abbrev pub slice : ℕ → ℕ → List A → List A
  slice lo hi xs = drop lo (take hi xs)

  -- `[x for x in xs if p(x)]`
  abbrev pub filter : (A → Bool) → List A → List A
  filter p [] = []
  filter p (x ∷ xs) = let rest = filter p xs in if p x then x ∷ rest else rest

  abbrev pub all : (A → Bool) → List A → Bool
  all p [] = true
  all p (x ∷ xs) = p x && all p xs

  abbrev pub any : (A → Bool) → List A → Bool
  any p [] = false
  any p (x ∷ xs) = p x || any p xs

  abbrev pub All {κ} : (A → Type κ) → List A → Type κ
  All P [] = Unit
  All P (x ∷ xs) = P x × All P xs

  pub length-append : (xs ys : List A) → length (xs ++ ys) ≡ length xs + length ys
  length-append [] ys = omega arith
  length-append (x ∷ xs) ys = omega (arith, length-append xs ys)

  pub length-filter : (p : A → Bool) (xs : List A) → length (filter p xs) ≤ length xs
  length-filter p [] = omega arith
  length-filter p (x ∷ xs) = ground (arith, length-filter p xs)

  pub take-nil : (n : ℕ) → take n [] ≡ []
  take-nil zero = refl
  take-nil (suc n) = refl

  pub length-drop : (n : ℕ) (xs : List A) → length (drop n xs) ≡ length xs - n
  length-drop zero xs = omega arith
  length-drop (suc n) [] = omega arith
  length-drop (suc n) (x ∷ xs) = omega (arith, length-drop n xs)

  pub length-take : (n : ℕ) (xs : List A) → length (take n xs) ≡ min n (length xs)
  length-take zero xs = omega arith
  length-take (suc n) [] = omega arith
  length-take (suc n) (x ∷ xs) = omega (arith, length-take n xs)

  pub take-append : (n : ℕ) (xs ys : List A) → n ≤ length xs → take n (xs ++ ys) ≡ take n xs
  take-append zero xs ys h = refl
  take-append (suc n) [] ys h = let bad : ⊥ = omega arith in absurd bad
  take-append (suc n) (x ∷ xs) ys h = ap (λ us. x ∷ us) (take-append n xs ys (omega arith))

  pub All-append {κ} : (P : A → Type κ) (xs ys : List A) → All P xs → All P ys → All P (xs ++ ys)
  All-append P [] ys a b = b
  All-append P (x ∷ xs) ys a b = (a.0, All-append P xs ys a.1 b)

  pub filter-append :
      (p : A → Bool) (xs ys : List A) → filter p (xs ++ ys) ≡ filter p xs ++ filter p ys
  filter-append p [] ys = refl
  filter-append p (x ∷ xs) ys = elim (Bool-cases (p x)) [
    | inl hit ↦ rw hit (ap (λ zs. x ∷ zs) (filter-append p xs ys))
    | inr miss ↦ rw miss (filter-append p xs ys)
  ]

  pub get_elem-append :
      (xs ys : List A) (i : ℕ) → i < length xs → get_elem? (xs ++ ys) i ≡ get_elem? xs i
  get_elem-append [] ys i h = let bad : ⊥ = omega arith in absurd bad
  get_elem-append (x ∷ xs) ys zero h = refl
  get_elem-append (x ∷ xs) ys (suc i) h = get_elem-append xs ys i (omega arith)

-- `x in xs`
abbrev pub elem : ℕ → List ℕ → Bool
elem d [] = false
elem d (x ∷ xs) = (d == x) || elem d xs

-- how many entries pass a test
abbrev pub count {ℓ} : {A : Type ℓ} → (A → Bool) → List A → ℕ
count p [] = 0
count p (x ∷ xs) = let rest = count p xs in if p x then suc rest else rest

pub elem-append : (d : ℕ) (xs ys : List ℕ) → elem d (xs ++ ys) ≡ (elem d xs || elem d ys)
elem-append d [] ys = refl
elem-append d (x ∷ xs) ys = ground (arith, elem-append d xs ys)

pub count-length {ℓ} : {A : Type ℓ} (p : A → Bool) (xs : List A) → count p xs ≡ length (filter p xs)
count-length p [] = refl
count-length p (x ∷ xs) = ground (arith, count-length p xs)

-- A set, as a list with no entry twice.
abbrev pub IsSetList : List ℕ → Type 0
IsSetList [] = Unit
IsSetList (x ∷ xs) = (elem x xs ≡ false) × IsSetList xs

pub All-elem : (xs : List ℕ) (P : ℕ → Type 0) → ((t : ℕ) → elem t xs ≡ true → P t) → All P xs
All-elem [] P h = tt
All-elem (x ∷ xs) P h = (h x (ground arith), All-elem xs P (λ t m. h t (ground arith)))

pub elem-filter : (t : ℕ) (p : ℕ → Bool) (xs : List ℕ) → elem t (filter p xs) ≡ (elem t xs && p t)
elem-filter t p [] = refl
elem-filter t p (x ∷ xs) = elim (Bool-cases (t == x)) [
  | inl e ↦ let same : t ≡ x = ground arith in rw same (ground (arith, elem-filter x p xs))
  | inr n ↦ ground (arith, elem-filter t p xs)
]
