-- ===== src/Cpcv/Tests.antt =====
-- validation/cpcv.py: runs of the splitter over concrete array functions.
use prosignal.Prelude.{
  elem-filter, ℕ, zero, suc, ◌+◌, ◌/◌, ◌≤◌, ◌≡◌, refl, ap, inl, inr, not, ◌&&◌, List, [], ◌∷◌,
  arith, ltb, leb, leb→le, Bool-cases, length, take, drop, filter, any, elem, count, ok,
}
use prosignal.Cpcv.Defs.{
  IsSorted, IsSortedList, Numpy, CombinatorialPurgedCv, comb, n_splits, paths_per_observation,
  CpcvSplit, purged, embargoed, split_one, split,
}
use prosignal.Cpcv.Blocks.{conflicts}
use prosignal.Cpcv.Purge.{split_one-train_idx}
use prosignal.Cpcv.Combine.{split-counts}
use prosignal.Calendar.{sorted, insort}
use prosignal.Calendar.Order.{elem-sorted}

-- `np.array_split`: the first pieces are the larger ones.
abbrev pieces : List ℕ → ℕ → List (List ℕ)
pieces xs zero = []
pieces xs (suc n) = let size = (length xs + n) / (n + 1) in take size xs ∷ pieces (drop size xs) n

length-pieces : (xs : List ℕ) (n : ℕ) → length (pieces xs n) ≡ n
length-pieces xs zero = refl
length-pieces xs (suc n) = ap suc (length-pieces (drop ((length xs + n) / (n + 1)) xs) n)

IsSorted-insort : (a d : ℕ) (xs : List ℕ) → a ≤ d → IsSorted a xs → IsSorted a (insort d xs)
IsSorted-insort a d [] h s = (h, tt)
IsSorted-insort a d (x ∷ xs) h s = elim (Bool-cases (leb d x)) [
  | inl first ↦ rw first (h, (leb→le d x first, s.1))
  | inr later ↦ rw later (s.0, IsSorted-insort x d xs (ground arith) s.1)
]

insort-IsSortedList : (d : ℕ) (xs : List ℕ) → IsSortedList xs → IsSortedList (insort d xs)
insort-IsSortedList d [] s = tt
insort-IsSortedList d (x ∷ xs) s = elim (Bool-cases (leb d x)) [
  | inl first ↦ rw first (leb→le d x first, s)
  | inr later ↦ rw later (IsSorted-insort x d xs (ground arith) s)
]

sorted-IsSortedList : (xs : List ℕ) → IsSortedList (sorted xs)
unfolding sorted
sorted-IsSortedList [] = tt
sorted-IsSortedList (x ∷ xs) = insort-IsSortedList x (sorted xs) (sorted-IsSortedList xs)

abbrev arrays : Numpy
unfolding sorted
arrays = record {
  array_split = pieces;
  sort = sorted;
  setdiff1d = λ xs ys. filter (λ t. not (elem t ys)) xs;
  length-array_split = λ xs n h. length-pieces xs n;
  sort-IsSortedList = sorted-IsSortedList;
  elem-sort = elem-sorted;
  elem-setdiff1d = λ t xs ys. elem-filter t (λ i. not (elem i ys)) xs;
}

abbrev cv : CombinatorialPurgedCv
cv = record { n_groups = 5; n_test_groups = 2; label_horizon = 1; embargo = 1 }

abbrev groups : List (List ℕ)
groups = (0 ∷ 1 ∷ []) ∷ (2 ∷ 3 ∷ []) ∷ (4 ∷ 5 ∷ []) ∷ (6 ∷ 7 ∷ []) ∷ (8 ∷ 9 ∷ []) ∷ []

-- Groups 0 and 2 tested: 3 is purged, 2 is in the embargo after the first block, 6 in that after
-- the second.
split_one-run :
    let sp = split_one arrays cv groups 10 1 (0 ∷ 2 ∷ []) in
    (sp.test_idx ≡ 0 ∷ 1 ∷ 4 ∷ 5 ∷ [])
    × (sp.train_idx ≡ 7 ∷ 8 ∷ 9 ∷ [])
    × (sp.purged_count ≡ 1)
    × (sp.embargoed_count ≡ 2)
unfolding split_one purged embargoed sorted arrays
split_one-run = (refl, refl, refl, refl)

split_one-train_idx_example :
    let sp = split_one arrays cv groups 10 1 (0 ∷ 2 ∷ []) in
    elem 7 sp.train_idx ≡ (ltb 7 10 && not (any (conflicts 1 1 7) sp.test_idx))
split_one-train_idx_example = split_one-train_idx arrays cv groups 10 1 (0 ∷ 2 ∷ []) 7

split-counts_example :
    (sps : List CpcvSplit) × (split arrays cv 10 ≡ ok sps)
    × (length sps ≡ n_splits cv)
    × (count (λ sp. elem 3 sp.test_groups) sps ≡ paths_per_observation cv)
split-counts_example =
    split-counts arrays cv 10 3 (omega arith) (omega arith) (omega arith) (omega arith)

counts-run : (n_splits cv ≡ 10) × (paths_per_observation cv ≡ 4)
unfolding n_splits paths_per_observation comb
counts-run = (refl, refl)
