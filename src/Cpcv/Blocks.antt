-- ===== src/Cpcv/Blocks.antt =====
-- validation/cpcv.py: `_contiguous_blocks` as one walk, and what the masks over it test.
use prosignal.Prelude.{
  ℕ, ◌+◌, ◌≤◌, ◌<◌, ◌≡◌, refl, ap, ◌∙◌, ◌⊎◌, inl, inr, Bool, true, false, ◌&&◌, ◌||◌, List, [], ◌∷◌,
  arith, ltb, leb, if◌then◌else◌, Bool-cases, any, elem,
}
use prosignal.Cpcv.Defs.{
  IsSorted, IsSortedList, starts_after, ends_before, zip_with_ends, contiguous_blocks, purged,
  embargoed,
}

-- The blocks from a current run on.
abbrev pub runs : ℕ → ℕ → List ℕ → List (ℕ × ℕ)
runs start prev [] = (start, prev) ∷ []
runs start prev (x ∷ xs) = if ltb (prev + 1) x then (start, prev) ∷ runs x x xs else runs start x xs

zip-runs :
    (start prev : ℕ) (xs : List ℕ)
    → zip_with_ends (start ∷ starts_after prev xs) (ends_before prev xs) ≡ runs start prev xs
zip-runs start prev [] = refl
zip-runs start prev (x ∷ xs) = ground (arith, zip-runs x x xs, zip-runs start x xs)

contiguous_blocks-runs : (x : ℕ) (xs : List ℕ) → contiguous_blocks (x ∷ xs) ≡ runs x x xs
unfolding contiguous_blocks
contiguous_blocks-runs x xs = zip-runs x x xs

-- The label window of `t` reaches `s`, or `s` and its embargo reach `t`.
abbrev pub conflicts : ℕ → ℕ → ℕ → ℕ → Bool
conflicts horizon embargo t s = leb s (t + horizon) && leb t (s + embargo)

-- The two masks at one block.
abbrev pub dropped : ℕ → ℕ → ℕ → List (ℕ × ℕ) → Bool
dropped h e t bs =
    any (λ b. (leb b.0 (t + h) && leb t b.1) || (ltb 0 e && (ltb b.1 t && leb t (b.1 + e)))) bs

-- Outside a block, both masks together test the conflict with the block's two ends.
block-dropped :
    (h e t start prev : ℕ)
    → start ≤ prev
    → (t < start) ⊎ (prev < t)
    → ((leb start (t + h) && leb t prev) || (ltb 0 e && (ltb prev t && leb t (prev + e))))
      ≡ (leb start (t + h) && leb t (prev + e))
block-dropped h e t start prev o out = ground arith

-- A run grows by its next entry.
grow-conflicts :
    (h e t start prev x : ℕ)
    → start ≤ prev
    → prev ≤ x
    → (t < start) ⊎ (x < t)
    → (leb start (t + h) && leb t (x + e))
      ≡ ((leb start (t + h) && leb t (prev + e)) || conflicts h e t x)
grow-conflicts h e t start prev x o p out = ground arith

or_assoc : (a b c : Bool) → ((a || b) || c) ≡ (a || (b || c))
or_assoc true b c = refl
or_assoc false b c = refl

runs-dropped :
    (h e t start prev : ℕ) (xs : List ℕ)
    → IsSorted prev xs
    → start ≤ prev
    → (t < start) ⊎ (prev < t)
    → elem t xs ≡ false
    → dropped h e t (runs start prev xs)
      ≡ ((leb start (t + h) && leb t (prev + e)) || any (conflicts h e t) xs)
runs-dropped h e t start prev [] s o out n = ground arith
runs-dropped h e t start prev (x ∷ xs) s o out n = elim (Bool-cases (ltb (prev + 1) x)) [
  | inl break ↦
      rw (break, block-dropped h e t start prev o out)
        (ap (λ b. (leb start (t + h) && leb t (prev + e)) || b)
          (runs-dropped h e t x x xs s.1 (omega arith) (ground arith) (ground arith)))
  | inr join ↦
      let out' : (t < start) ⊎ (x < t) = ground arith in
      rw join (
        runs-dropped h e t start x xs s.1 (omega arith) out' (ground arith)
        ∙ ap (λ b. b || any (conflicts h e t) xs) (grow-conflicts h e t start prev x o s.0 out')
        ∙ or_assoc (leb start (t + h) && leb t (prev + e)) (conflicts h e t x)
            (any (conflicts h e t) xs))
]

-- An index outside a sorted test set is dropped exactly when it conflicts with an entry of the set.
pub blocks-dropped :
    (h e t : ℕ) (xs : List ℕ)
    → IsSortedList xs
    → elem t xs ≡ false
    → dropped h e t (contiguous_blocks xs) ≡ any (conflicts h e t) xs
blocks-dropped h e t [] s n = unfold contiguous_blocks in refl
blocks-dropped h e t (x ∷ xs) s n =
    rw (contiguous_blocks-runs x xs)
      (runs-dropped h e t x x xs s (omega arith) (ground arith) (ground arith))

-- The two masks of the source are the two halves of one test.
pub masks-dropped :
    (h e t : ℕ) (bs : List (ℕ × ℕ)) → (purged h bs t || embargoed e bs t) ≡ dropped h e t bs
unfolding purged embargoed
masks-dropped h e t [] = refl
masks-dropped h e t (b ∷ bs) = ground (arith, masks-dropped h e t bs)
