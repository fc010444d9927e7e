-- ===== src/Cpcv/Combine.antt =====
-- validation/cpcv.py: how many splits there are, and how often a group is tested.
use prosignal.Prelude.{
  ℕ, zero, suc, ◌+◌, ◌-◌, ◌≤◌, ◌<◌, ◌≡◌, refl, ap, ◌∙◌, ap₂, ◌↔◌, inl, inr, Bool, true, false, List,
  [], ◌∷◌, ◌++◌, map, arith, ◌==◌, if◌then◌else◌, Bool-cases, length, length-append, elem, count,
  IsSetList, ok, err,
}
use prosignal.Prelude.Int.{ℤ}
use prosignal.Cpcv.Defs.{
  Numpy, too_few_observations, range_from, arange, CombinatorialPurgedCv, new, comb, n_splits,
  paths_per_observation, combinations, CpcvSplit, split_one, split_all, split,
}
use prosignal.Cpcv.Purge.{elem-range_from}

length-map {ℓ κ} :
    {A : Type ℓ} {B : Type κ} (f : A → B) (xs : List A) → length (map f xs) ≡ length xs
length-map f [] = refl
length-map f (x ∷ xs) = ap suc (length-map f xs)

length-combinations : (k : ℕ) (xs : List ℕ) → length (combinations k xs) ≡ comb (length xs) k
unfolding combinations comb
length-combinations zero [] = refl
length-combinations zero (x ∷ xs) = refl
length-combinations (suc k) [] = refl
length-combinations (suc k) (x ∷ xs) =
    length-append (map (λ c. x ∷ c) (combinations k xs)) (combinations (suc k) xs)
    ∙ ap₂ (λ a b. a + b) (length-map (λ c. x ∷ c) (combinations k xs) ∙ length-combinations k xs)
        (length-combinations (suc k) xs)

count-append :
    (p : List ℕ → Bool) (xs ys : List (List ℕ)) → count p (xs ++ ys) ≡ count p xs + count p ys
count-append p [] ys = omega arith
count-append p (x ∷ xs) ys = ground (arith, count-append p xs ys)

-- The combinations that begin with an entry.
count_with-head :
    (g x : ℕ) (cs : List (List ℕ))
    → count (elem g) (map (λ c. x ∷ c) cs) ≡ (if g == x then length cs else count (elem g) cs)
count_with-head g x [] = ground arith
count_with-head g x (c ∷ cs) = ground (arith, count_with-head g x cs)

count-combinations :
    (g x k : ℕ) (xs : List ℕ)
    → count (elem g) (combinations (suc k) (x ∷ xs))
      ≡ (if g == x then length (combinations k xs) else count (elem g) (combinations k xs))
        + count (elem g) (combinations (suc k) xs)
count-combinations g x k xs =
    unfold combinations in
    (count-append (elem g) (map (λ c. x ∷ c) (combinations k xs)) (combinations (suc k) xs)
      ∙ ap (λ n. n + count (elem g) (combinations (suc k) xs))
          (count_with-head g x (combinations k xs)))

comb_zero : (n : ℕ) → comb n 0 ≡ 1
unfolding comb
comb_zero zero = refl
comb_zero (suc n) = refl

count_zero : (g : ℕ) (xs : List ℕ) → count (elem g) (combinations 0 xs) ≡ 0
unfolding combinations
count_zero g [] = refl
count_zero g (x ∷ xs) = refl

count_nil : (g k : ℕ) → count (elem g) (combinations (suc k) []) ≡ 0
unfolding combinations
count_nil g k = refl

count_absent : (g k : ℕ) (xs : List ℕ) → elem g xs ≡ false → count (elem g) (combinations k xs) ≡ 0
count_absent g zero xs n = count_zero g xs
count_absent g (suc k) [] n = count_nil g k
count_absent g (suc k) (x ∷ xs) n =
    ground (arith, count-combinations g x k xs, count_absent g k xs, count_absent g (suc k) xs)

comb_pascal : (n k : ℕ) → comb (suc n) (suc k) ≡ comb n k + comb n (suc k)
unfolding comb
comb_pascal n k = refl

count_tail :
    (g x k n : ℕ) (xs : List ℕ)
    → (g == x) ≡ false
    → elem g xs ≡ true
    → length xs ≡ n
    → ((j p : ℕ) → length xs ≡ suc p → count (elem g) (combinations (suc j) xs) ≡ comb p j)
    → count (elem g) (combinations (suc k) (x ∷ xs)) ≡ comb n k
count_tail g x k zero [] t m l ih = cc
count_tail g x k zero (y ∷ xs) t m l ih = absurd (omega arith)
count_tail g x zero (suc n) xs t m l ih =
    ground (
      arith,
      count-combinations g x 0 xs,
      count_zero g xs,
      ih 0 n l,
      comb_zero n,
      comb_zero (suc n),
    )
count_tail g x (suc k) (suc n) xs t m l ih =
    ground (arith, count-combinations g x (suc k) xs, ih k n l, ih (suc k) n l, comb_pascal n k)

-- An entry is in as many combinations as there are choices of the other entries.
count_present :
    (g k n : ℕ) (xs : List ℕ)
    → IsSetList xs
    → elem g xs ≡ true
    → length xs ≡ suc n
    → count (elem g) (combinations (suc k) xs) ≡ comb n k
count_present g k n [] d m l = cc
count_present g k n (x ∷ xs) d m l = elim (Bool-cases (g == x)) [
  | inl head ↦
      let gone : elem g xs ≡ false = ground arith in
      let size : length xs ≡ n = omega arith in
      ground (
        arith,
        count-combinations g x k xs,
        count_absent g (suc k) xs gone,
        length-combinations k xs,
      )
  | inr tail ↦
      let later : elem g xs ≡ true = ground arith in
      let size : length xs ≡ n = omega arith in
      count_tail g x k n xs tail later size (λ j p. count_present g j p xs d.1 later)
]

length-range_from : (a n : ℕ) → length (range_from a n) ≡ n
length-range_from a zero = refl
length-range_from a (suc n) = ap suc (length-range_from (suc a) n)

range_from-IsSetList : (a n : ℕ) → IsSetList (range_from a n)
range_from-IsSetList a zero = tt
range_from-IsSetList a (suc n) =
    (ground (arith, elem-range_from a (suc a) n), range_from-IsSetList (suc a) n)

length-split_all :
    (np : Numpy) (cv : CombinatorialPurgedCv) (groups : List (List ℕ)) (n_obs id : ℕ)
    (cs : List (List ℕ))
    → length (split_all np cv groups n_obs id cs) ≡ length cs
length-split_all np cv groups n_obs id [] = refl
length-split_all np cv groups n_obs id (c ∷ cs) =
    ap suc (length-split_all np cv groups n_obs (suc id) cs)

count-split_all :
    (g : ℕ) (np : Numpy) (cv : CombinatorialPurgedCv) (groups : List (List ℕ)) (n_obs id : ℕ)
    (cs : List (List ℕ))
    → count (λ sp. elem g sp.test_groups) (split_all np cv groups n_obs id cs) ≡ count (elem g) cs
unfolding split_one
count-split_all g np cv groups n_obs id [] = refl
count-split_all g np cv groups n_obs id (c ∷ cs) =
    ground (arith, count-split_all g np cv groups n_obs (suc id) cs)

-- With at least two groups, at least one of them tested, and as many observations as groups,
-- `split` yields C(N, k) splits, and every group is tested in exactly as many of them as
-- `paths_per_observation` says.
pub split-counts :
    (np : Numpy) (cv : CombinatorialPurgedCv) (n_obs g : ℕ)
    → 2 ≤ cv.n_groups
    → cv.n_groups ≤ n_obs
    → 1 ≤ cv.n_test_groups
    → g < cv.n_groups
    → (sps : List CpcvSplit) × (split np cv n_obs ≡ ok sps)
      × (length sps ≡ n_splits cv)
      × (count (λ sp. elem g sp.test_groups) sps ≡ paths_per_observation cv)
unfolding split n_splits paths_per_observation
split-counts np cv n_obs g two enough one below =
    let groups = np.array_split (arange n_obs) cv.n_groups in
    let k = cv.n_test_groups in
    let n = cv.n_groups in
    let cs = combinations k (arange n) in
    (
      split_all np cv groups n_obs 0 cs,
      ground arith,
      length-split_all np cv groups n_obs 0 cs
          ∙ length-combinations k (arange n)
          ∙ ap (λ m. comb m k) (length-range_from 0 n),
      count-split_all g np cv groups n_obs 0 cs ∙ tested k (k - 1) (omega arith),
    )
  where
    tested :
        (k j : ℕ)
        → k ≡ suc j
        → count (elem g) (combinations k (arange cv.n_groups)) ≡ comb (cv.n_groups - 1) j
    tested k j e = rw e (
        count_present g j (cv.n_groups - 1) (arange cv.n_groups)
          (range_from-IsSetList 0 cv.n_groups) (ground (arith, elem-range_from g 0 cv.n_groups))
          (omega (arith, length-range_from 0 cv.n_groups)))

-- A splitter that the constructor accepts has at least one tested group and one more, and its
-- `split` raises exactly when there are fewer observations than groups.
pub new-split :
    (np : Numpy) (n k horizon embargo : ℤ) (cv : CombinatorialPurgedCv) (n_obs : ℕ)
    → new n k horizon embargo ≡ ok cv
    → (1 ≤ cv.n_test_groups)
      × (cv.n_test_groups < cv.n_groups)
      × ((split np cv n_obs ≡ err too_few_observations) ↔ (n_obs < cv.n_groups))
unfolding new split
new-split np n k horizon embargo cv n_obs h =
    let one : 1 ≤ cv.n_test_groups = ground arith in
    let below : cv.n_test_groups < cv.n_groups = ground arith in
    (one, below, (λ e. ground arith, λ lt. ground arith))
