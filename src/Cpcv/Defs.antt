-- ===== src/Cpcv/Defs.antt =====
-- validation/cpcv.py: `CombinatorialPurgedCV`, `make_groups` and `_contiguous_blocks`. An array of
-- indices is a list, and a mask over it is a test on its entries. What the module takes from numpy
-- is the parameter `Numpy`, with the documented behaviour that the theorems need.
use prosignal.Prelude.{
  ℕ, zero, suc, ◌+◌, ◌-◌, ◌≤◌, ◌<◌, ◌≡◌, Bool, not, ◌&&◌, ◌||◌, none, some, List, [], ◌∷◌, ◌++◌,
  map, ltb, leb, if◌then◌else◌, length, get_elem?, filter, any, elem, count, Result, ok, ◌>>=◌,
  ◌>>◌, raise_if,
}
use prosignal.Prelude.Int.{ℤ, pos, pos_part, ltb_ℤ}

abbrev pub IsSorted : ℕ → List ℕ → Type 0
IsSorted prev [] = Unit
IsSorted prev (x ∷ xs) = (prev ≤ x) × IsSorted x xs

abbrev pub IsSortedList : List ℕ → Type 0
IsSortedList [] = Unit
IsSortedList (x ∷ xs) = IsSorted x xs

pub record Numpy : Type 0 where
  pub array_split : List ℕ → ℕ → List (List ℕ)
  pub sort : List ℕ → List ℕ
  pub setdiff1d : List ℕ → List ℕ → List ℕ
  pub length-array_split : (xs : List ℕ) (n : ℕ) → 0 < n → length (array_split xs n) ≡ n
  pub sort-IsSortedList : (xs : List ℕ) → IsSortedList (sort xs)
  pub elem-sort : (t : ℕ) (xs : List ℕ) → elem t (sort xs) ≡ elem t xs
  pub elem-setdiff1d :
      (t : ℕ) (xs ys : List ℕ) → elem t (setdiff1d xs ys) ≡ (elem t xs && not (elem t ys))

pub data ConfigError : Type 0 where
  too_few_groups too_few_observations bad_test_groups negative_span : ConfigError

-- `np.arange(n)` and `range(n)`, from a first entry
abbrev pub range_from : ℕ → ℕ → List ℕ
range_from a zero = []
range_from a (suc n) = a ∷ range_from (suc a) n

abbrev pub arange : ℕ → List ℕ
arange n = range_from 0 n

unfoldable pub make_groups : Numpy → ℕ → ℕ → Result ConfigError (List (List ℕ))
make_groups np n_obs n_groups = do
  raise_if (ltb n_groups 2) too_few_groups
  raise_if (ltb n_obs n_groups) too_few_observations
  ok (np.array_split (arange n_obs) n_groups)

pub record CombinatorialPurgedCv : Type 0 where
  pub n_groups : ℕ
  pub n_test_groups : ℕ
  pub label_horizon : ℕ
  pub embargo : ℕ

-- `__init__` on any integers: past the tests none of them is negative.
unfoldable pub new : ℤ → ℤ → ℤ → ℤ → Result ConfigError CombinatorialPurgedCv
new n_groups n_test_groups label_horizon embargo = do
  raise_if (ltb_ℤ n_test_groups (pos 1) || not (ltb_ℤ n_test_groups n_groups)) bad_test_groups
  raise_if (ltb_ℤ label_horizon (pos 0) || ltb_ℤ embargo (pos 0)) negative_span
  ok (record {
    n_groups = pos_part n_groups;
    n_test_groups = pos_part n_test_groups;
    label_horizon = pos_part label_horizon;
    embargo = pos_part embargo;
  })

-- `math.comb`
unfoldable pub comb : ℕ → ℕ → ℕ
comb n zero = 1
comb zero (suc k) = 0
comb (suc n) (suc k) = comb n k + comb n (suc k)

unfoldable pub n_splits : CombinatorialPurgedCv → ℕ
n_splits cv = comb cv.n_groups cv.n_test_groups

unfoldable pub paths_per_observation : CombinatorialPurgedCv → ℕ
paths_per_observation cv = comb (cv.n_groups - 1) (cv.n_test_groups - 1)

-- `itertools.combinations`, in its order
unfoldable pub combinations : ℕ → List ℕ → List (List ℕ)
combinations zero xs = [] ∷ []
combinations (suc k) [] = []
combinations (suc k) (x ∷ xs) = map (λ c. x ∷ c) (combinations k xs) ++ combinations (suc k) xs

-- `_contiguous_blocks`: the entries after a break, those before one, and their pairs.
abbrev pub starts_after : ℕ → List ℕ → List ℕ
starts_after prev [] = []
starts_after prev (x ∷ xs) =
    let rest = starts_after x xs in if ltb (prev + 1) x then x ∷ rest else rest

abbrev pub ends_before : ℕ → List ℕ → List ℕ
ends_before prev [] = prev ∷ []
ends_before prev (x ∷ xs) =
    let rest = ends_before x xs in if ltb (prev + 1) x then prev ∷ rest else rest

abbrev pub zip_with_ends : List ℕ → List ℕ → List (ℕ × ℕ)
zip_with_ends [] es = []
zip_with_ends (s ∷ ss) [] = []
zip_with_ends (s ∷ ss) (e ∷ es) = (s, e) ∷ zip_with_ends ss es

unfoldable pub contiguous_blocks : List ℕ → List (ℕ × ℕ)
contiguous_blocks [] = []
contiguous_blocks (x ∷ xs) = zip_with_ends (x ∷ starts_after x xs) (ends_before x xs)

pub record CpcvSplit : Type 0 where
  pub split_id : ℕ
  pub test_groups : List ℕ
  pub train_idx : List ℕ
  pub test_idx : List ℕ
  pub purged_count : ℕ
  pub embargoed_count : ℕ

-- The two masks of the loop over the blocks, at one training candidate.
unfoldable pub purged : ℕ → List (ℕ × ℕ) → ℕ → Bool
purged horizon blocks t = any (λ b. leb b.0 (t + horizon) && leb t b.1) blocks

unfoldable pub embargoed : ℕ → List (ℕ × ℕ) → ℕ → Bool
embargoed embargo blocks t = any (λ b. ltb 0 embargo && (ltb b.1 t && leb t (b.1 + embargo))) blocks

-- `np.concatenate([groups[g] for g in test_combo])`
abbrev pub gather : List (List ℕ) → List ℕ → List ℕ
gather groups [] = []
gather groups (g ∷ gs) = elim (get_elem? groups g) [
  | none ↦ gather groups gs
  | some xs ↦ xs ++ gather groups gs
]

-- The body of the loop of `split`.
unfoldable pub split_one :
    Numpy → CombinatorialPurgedCv → List (List ℕ) → ℕ → ℕ → List ℕ → CpcvSplit
unfolding contiguous_blocks
split_one np cv groups n_obs split_id test_combo =
    let test_idx = np.sort (gather groups test_combo) in
    let candidate_train = np.setdiff1d (arange n_obs) test_idx in
    let blocks = contiguous_blocks test_idx in
    let purge = purged cv.label_horizon blocks in
    let hold = embargoed cv.embargo blocks in
    record {
      split_id = split_id;
      test_groups = test_combo;
      train_idx = filter (λ t. not (purge t || hold t)) candidate_train;
      test_idx = test_idx;
      purged_count = count (λ t. purge t && not (hold t)) candidate_train;
      embargoed_count = count hold candidate_train;
    }

abbrev pub split_all :
    Numpy → CombinatorialPurgedCv → List (List ℕ) → ℕ → ℕ → List (List ℕ) → List CpcvSplit
split_all np cv groups n_obs id [] = []
split_all np cv groups n_obs id (c ∷ cs) =
    split_one np cv groups n_obs id c ∷ split_all np cv groups n_obs (suc id) cs

unfoldable pub split : Numpy → CombinatorialPurgedCv → ℕ → Result ConfigError (List CpcvSplit)
unfolding make_groups
split np cv n_obs = do
  groups ← make_groups np n_obs cv.n_groups
  ok (split_all np cv groups n_obs 0 (combinations cv.n_test_groups (arange cv.n_groups)))
