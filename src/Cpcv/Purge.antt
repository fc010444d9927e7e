-- ===== src/Cpcv/Purge.antt =====
-- validation/cpcv.py: which observations a split trains on.
use prosignal.Prelude.{
  elem-filter, ℕ, zero, suc, ◌+◌, ◌≡◌, inl, inr, true, not, ◌&&◌, ◌||◌, List, [], ◌∷◌, arith, ltb,
  leb, Bool-cases, any, elem,
}
use prosignal.Cpcv.Defs.{
  Numpy, range_from, arange, CombinatorialPurgedCv, contiguous_blocks, purged, embargoed, gather,
  split_one,
}
use prosignal.Cpcv.Blocks.{conflicts, blocks-dropped, masks-dropped}

pub elem-range_from : (t a n : ℕ) → elem t (range_from a n) ≡ (leb a t && ltb t (a + n))
elem-range_from t a zero = ground arith
elem-range_from t a (suc n) = ground (arith, elem-range_from t (suc a) n)

self_conflict : (h e t : ℕ) (xs : List ℕ) → elem t xs ≡ true → any (conflicts h e t) xs ≡ true
self_conflict h e t [] m = cc
self_conflict h e t (x ∷ xs) m = ground (arith, self_conflict h e t xs)

-- Every split trains on exactly the observations that conflict with no test observation: no label
-- window of a training row reaches a test row, no training row stands in the embargo after one, and
-- nothing else is dropped.
pub split_one-train_idx :
    (np : Numpy) (cv : CombinatorialPurgedCv) (groups : List (List ℕ)) (n_obs id : ℕ)
    (combo : List ℕ) (t : ℕ)
    → let sp = split_one np cv groups n_obs id combo in
      elem t sp.train_idx
      ≡ (ltb t n_obs && not (any (conflicts cv.label_horizon cv.embargo t) sp.test_idx))
unfolding split_one
split_one-train_idx np cv groups n_obs id combo t =
    let xs = np.sort (gather groups combo) in
    let kept =
      elem-filter t
        (λ i. not (
          purged cv.label_horizon (contiguous_blocks xs) i
          || embargoed cv.embargo (contiguous_blocks xs) i))
        (np.setdiff1d (arange n_obs) xs) in
    let candidate = np.elem-setdiff1d t (arange n_obs) xs in
    let index = elem-range_from t 0 n_obs in
    let masks = masks-dropped cv.label_horizon cv.embargo t (contiguous_blocks xs) in
    elim (Bool-cases (elem t xs)) [
      | inl test ↦
          ground
            (arith, kept, candidate, index, self_conflict cv.label_horizon cv.embargo t xs test)
      | inr train ↦ ground (
        arith,
        kept,
        candidate,
        index,
        masks,
        blocks-dropped cv.label_horizon cv.embargo t xs (np.sort-IsSortedList (gather groups combo))
            train,
      )
    ]
