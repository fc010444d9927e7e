-- ===== src/Calendar/Search.antt =====
-- core/calendar.py: what the two bisections return on an ascending session list.
use prosignal.Prelude.{
  ℕ, zero, suc, ◌≤◌, ◌<◌, ◌≡◌, refl, Bool, false, some, List, [], ◌∷◌, arith, ltb, leb, length,
  get_elem?, count,
}
use prosignal.Calendar.Defs.{bisect_left, bisect_right}
use prosignal.Calendar.Order.{Above, IsAscending, Above-elem, elem_of_get}

pub bisect_left-le-length : (xs : List ℕ) (d : ℕ) → bisect_left xs d ≤ length xs
bisect_left-le-length [] d = omega arith
bisect_left-le-length (x ∷ xs) d = ground (arith, bisect_left-le-length xs d)

pub bisect_right-le-length : (xs : List ℕ) (d : ℕ) → bisect_right xs d ≤ length xs
bisect_right-le-length [] d = omega arith
bisect_right-le-length (x ∷ xs) d = ground (arith, bisect_right-le-length xs d)

-- On an ascending list the entries before the bisection are those below the date.
pub lt_of_before-left :
    (xs : List ℕ) (d i s : ℕ) → get_elem? xs i ≡ some s → i < bisect_left xs d → s < d
lt_of_before-left [] d i s g h = cc
lt_of_before-left (x ∷ xs) d zero s g h = ground arith
lt_of_before-left (x ∷ xs) d (suc i) s g h = ground (arith, lt_of_before-left xs d i s g)

pub le_of_before-right :
    (xs : List ℕ) (d i s : ℕ) → get_elem? xs i ≡ some s → i < bisect_right xs d → s ≤ d
le_of_before-right [] d i s g h = cc
le_of_before-right (x ∷ xs) d zero s g h = ground arith
le_of_before-right (x ∷ xs) d (suc i) s g h = ground (arith, le_of_before-right xs d i s g)

pub le_of_after-left :
    (xs : List ℕ) (d i s : ℕ)
    → IsAscending xs
    → get_elem? xs i ≡ some s
    → bisect_left xs d ≤ i
    → d ≤ s
le_of_after-left [] d i s a g h = cc
le_of_after-left (x ∷ xs) d zero s a g h = ground arith
le_of_after-left (x ∷ xs) d (suc i) s a g h =
    ground (arith, le_of_after-left xs d i s a.1 g, Above-elem x s xs a.0, elem_of_get xs i s g)

pub lt_of_after-right :
    (xs : List ℕ) (d i s : ℕ)
    → IsAscending xs
    → get_elem? xs i ≡ some s
    → bisect_right xs d ≤ i
    → d < s
lt_of_after-right [] d i s a g h = cc
lt_of_after-right (x ∷ xs) d zero s a g h = ground arith
lt_of_after-right (x ∷ xs) d (suc i) s a g h =
    ground (arith, lt_of_after-right xs d i s a.1 g, Above-elem x s xs a.0, elem_of_get xs i s g)

-- The bisections of a session are its own position and the next one.
pub bisect_left_of_get :
    (xs : List ℕ) (i s : ℕ) → IsAscending xs → get_elem? xs i ≡ some s → bisect_left xs s ≡ i
bisect_left_of_get [] i s a g = cc
bisect_left_of_get (x ∷ xs) zero s a g = ground arith
bisect_left_of_get (x ∷ xs) (suc i) s a g =
    ground (arith, bisect_left_of_get xs i s a.1 g, Above-elem x s xs a.0, elem_of_get xs i s g)

pub bisect_right_of_get :
    (xs : List ℕ) (i s : ℕ) → IsAscending xs → get_elem? xs i ≡ some s → bisect_right xs s ≡ suc i
bisect_right_of_get [] i s a g = cc
bisect_right_of_get (x ∷ xs) zero s a g = bisect_right_head x s xs a (ground arith)
  where
    bisect_right_above : (d : ℕ) (ys : List ℕ) → Above d ys → bisect_right ys d ≡ 0
    bisect_right_above d [] a = refl
    bisect_right_above d (y ∷ ys) a = ground arith

    bisect_right_head :
        (x s : ℕ) (xs : List ℕ) → IsAscending (x ∷ xs) → x ≡ s → bisect_right (x ∷ xs) s ≡ 1
    bisect_right_head x s xs a e = ground (arith, bisect_right_above x xs a.0)
bisect_right_of_get (x ∷ xs) (suc i) s a g =
    ground (arith, bisect_right_of_get xs i s a.1 g, Above-elem x s xs a.0, elem_of_get xs i s g)

-- Both are counts: of the sessions before the date, and of those up to it.
count_none :
    (p : ℕ → Bool) (d : ℕ) (xs : List ℕ)
    → ((e : ℕ) → d < e → p e ≡ false)
    → Above d xs
    → count p xs ≡ 0
count_none p d [] h a = refl
count_none p d (x ∷ xs) h a = ground (arith, h x, count_none p d xs h a.1)

pub bisect_left-count :
    (xs : List ℕ) (d : ℕ) → IsAscending xs → bisect_left xs d ≡ count (λ s. ltb s d) xs
bisect_left-count [] d a = refl
bisect_left-count (x ∷ xs) d a = ground (
  arith,
  bisect_left-count xs d a.1,
  λ (h : d ≤ x). count_none (λ s. ltb s d) x xs (λ e g. ground arith) a.0,
)

pub bisect_right-count :
    (xs : List ℕ) (d : ℕ) → IsAscending xs → bisect_right xs d ≡ count (λ s. leb s d) xs
bisect_right-count [] d a = refl
bisect_right-count (x ∷ xs) d a = ground (
  arith,
  bisect_right-count xs d a.1,
  λ (h : d < x). count_none (λ s. leb s d) x xs (λ e g. ground arith) a.0,
)

pub before-left_of_lt :
    (xs : List ℕ) (d i s : ℕ)
    → IsAscending xs
    → get_elem? xs i ≡ some s
    → s < d
    → i < bisect_left xs d
before-left_of_lt xs d i s a g h = ground (arith, le_of_after-left xs d i s a g)

pub before-right_of_le :
    (xs : List ℕ) (d i s : ℕ)
    → IsAscending xs
    → get_elem? xs i ≡ some s
    → s ≤ d
    → i < bisect_right xs d
before-right_of_le xs d i s a g h = ground (arith, lt_of_after-right xs d i s a g)

-- Later entries are later dates.
pub get_mono :
    (xs : List ℕ) (i j s t : ℕ)
    → IsAscending xs
    → get_elem? xs i ≡ some s
    → get_elem? xs j ≡ some t
    → i < j
    → s < t
get_mono xs i j s t a p q h = lt_of_before-left xs t i s p (rw (bisect_left_of_get xs j t a q) h)
