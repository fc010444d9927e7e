-- ===== src/Ledger/Lineage.antt =====
-- ledger.py: what `repair_lineage` keeps, changes and settles.
use prosignal.Prelude.{
  ℕ, ◌≡◌, refl, sym, ap, ◌∙◌, ap₂, ◌⊎◌, inl, inr, true, false, none, some, List, [], ◌∷◌, ◌++◌, map,
  arith, leb, Bool-cases, Option-cases, length, All,
}
use prosignal.Ledger.Defs.{
  Mode, same_mode, recorded, Row, blank, malformed, entry, File, rows_of, iter_rows, add_trial,
  trials, trial_count, mode_of,
}
use prosignal.Ledger.Repair.{
  target, source_of, repair_row, repair_lines, repair_file, repair_lineage,
}
use mathlib.Core.List.{map-append}

-- What a row records beside its lineage.
abbrev pub evidence : Row → Row
evidence r = record r { mode = none; mode_source = recorded }

-- The row that the repair leaves in its place
abbrev pub repaired : List Row → Row → Row
repaired rows r = (repair_row rows r).0

module _ (rows : List Row) where
  pub row-cases :
      (r : Row)
      → ((target rows r ≡ none) × (repair_row rows r ≡ (r, false)))
        ⊎ ((t : Mode) × (target rows r ≡ some t)
            × (((same_mode (mode_of r) t ≡ true) × (repair_row rows r ≡ (r, false)))
                ⊎ (repair_row rows r
                    ≡ (record r { mode = some t; mode_source = source_of t }, true))))
  unfolding repair_row
  row-cases r = elim (Option-cases (target rows r)) [
    | inl unread ↦ inl (unread, rw (unread, repair_row) refl)
    | inr (t, read) ↦ inr (
      t,
      read,
      elim (Bool-cases (same_mode (mode_of r) t)) [
        | inl same ↦ inl (same, rw (read, repair_row) (rw same refl))
        | inr other ↦ inr (rw (read, repair_row) (rw other refl))
      ],
    )
  ]

  pub evidence-repaired : (r : Row) → evidence (repaired rows r) ≡ evidence r
  evidence-repaired r = elim (row-cases r) [
    | inl (unread, e) ↦ ap (λ p. evidence p.0) e
    | inr (t, read, inl (same, e)) ↦ ap (λ p. evidence p.0) e
    | inr (t, read, inr e) ↦ ap (λ p. evidence p.0) e
  ]

  unhit-repaired : (r : Row) → (repair_row rows r).1 ≡ false → repaired rows r ≡ r
  unhit-repaired r h = elim (row-cases r) [
    | inl (unread, e) ↦ ap (λ p. p.0) e
    | inr (t, read, inl (same, e)) ↦ ap (λ p. p.0) e
    | inr (t, read, inr e) ↦ let hit = ap (λ p. p.1) e in cc
  ]

  rows-repair_lines : (f : File) → rows_of (repair_lines rows f).0 ≡ map (repaired rows) (rows_of f)
  rows-repair_lines [] = refl
  rows-repair_lines (blank ∷ f) = rows-repair_lines f
  rows-repair_lines (malformed ∷ f) = rows-repair_lines f
  rows-repair_lines (entry r ∷ f) = ap (λ rs. repaired rows r ∷ rs) (rows-repair_lines f)

  unchanged-rows :
      (f : File) → (repair_lines rows f).1 ≡ 0 → map (repaired rows) (rows_of f) ≡ rows_of f
  unchanged-rows [] = λ h. refl
  unchanged-rows (blank ∷ f) = unchanged-rows f
  unchanged-rows (malformed ∷ f) = unchanged-rows f
  unchanged-rows (entry r ∷ f) = elim (Bool-cases (repair_row rows r).1) [
    | inl hit ↦ rw hit (λ h. absurd (omega arith))
    | inr miss ↦ rw miss (λ h. ap₂ (λ x y. x ∷ y) (unhit-repaired r miss) (unchanged-rows f h))
  ]

  pub settled-unchanged :
      (f : File)
      → All (λ r. (repair_row rows r).1 ≡ false) (rows_of f)
      → (repair_lines rows f).1 ≡ 0
  settled-unchanged [] h = refl
  settled-unchanged (blank ∷ f) h = settled-unchanged f h
  settled-unchanged (malformed ∷ f) h = settled-unchanged f h
  settled-unchanged (entry r ∷ f) h = rw h.0 (settled-unchanged f h.1)

  pub unchanged-file : (f : File) → (repair_lines rows f).1 ≡ 0 → repair_file rows f ≡ f
  unfolding repair_file
  unchanged-file f h = rw h refl

  pub rows-repair_file : (f : File) → rows_of (repair_file rows f) ≡ map (repaired rows) (rows_of f)
  unfolding repair_file
  rows-repair_file f = elim (Bool-cases (leb (repair_lines rows f).1 0)) [
    | inl same ↦ rw same (sym (unchanged-rows f (ground arith)))
    | inr more ↦ rw more (rows-repair_lines f)
  ]

  pub iter_rows-repair :
      (fs : List File) → iter_rows (map (repair_file rows) fs) ≡ map (repaired rows) (iter_rows fs)
  unfolding iter_rows
  iter_rows-repair [] = refl
  iter_rows-repair (f ∷ fs) =
      ap₂ (λ x y. x ++ y) (rows-repair_file f) (iter_rows-repair fs)
      ∙ sym (map-append (repaired rows) (rows_of f) (iter_rows fs))

map-evidence : (rows xs : List Row) → map evidence (map (repaired rows) xs) ≡ map evidence xs
map-evidence rows [] = refl
map-evidence rows (r ∷ xs) = ap₂ (λ x y. x ∷ y) (evidence-repaired rows r) (map-evidence rows xs)

trials-evidence :
    (xs ys : List Row) (seen : List ℕ)
    → map evidence xs ≡ map evidence ys
    → trials xs seen ≡ trials ys seen
trials-evidence [] [] seen h = refl
trials-evidence [] (y ∷ ys) seen h = cc
trials-evidence (x ∷ xs) [] seen h = cc
trials-evidence (x ∷ xs) (y ∷ ys) seen h =
    let head : evidence x ≡ evidence y = cc in
    let tail : map evidence xs ≡ map evidence ys = cc in
    ap (λ r. trials xs (add_trial r seen)) head ∙ trials-evidence xs ys (add_trial y seen) tail

-- The repair deletes no row, moves none and changes none but in its lineage; so the count of the
-- trials stays.
pub repair_lineage-keeps :
    (files : List File)
    → (map evidence (iter_rows (repair_lineage files)) ≡ map evidence (iter_rows files))
      × (trial_count (repair_lineage files) ≡ trial_count files)
unfolding repair_lineage trial_count
repair_lineage-keeps files =
    let rows = iter_rows files in
    let same = ap (map evidence) (iter_rows-repair rows files) ∙ map-evidence rows rows in
    (same, ap length (trials-evidence (iter_rows (map (repair_file rows) files)) rows [] same))
