-- ===== src/Ledger/Conflicts.antt =====
-- ledger.py: `conflicting_dates`, of which the dates are modelled, and the runs that they block.
use prosignal.Prelude.{
  ℕ, ◌+◌, ◌≤◌, ◌≡◌, refl, sym, ap, ◌∙◌, subst, ◌↔◌, inl, inr, true, false, not, ◌&&◌, Option, none,
  some, List, [], ◌∷◌, arith, ltb, ◌==◌, if◌then◌else◌, ltb→lt, lt→ltb, ==_iff, Bool-cases,
  Option-cases, length, filter, elem, err, sort_by, Has, Has-sort_by, Has-filter, All-Has,
}
use prosignal.Ledger.Defs.{
  Mode, Row, File, iter_rows, disagree, in_lineage, is_on, logged_before, rows_on, is_before,
  candidate_date, latest_from, ambiguous, previous_run,
}
use prosignal.Ledger.Scan.{
  IsAtMost, latest-IsAtMost, latest-Has, latest-none, candidate_date-parts, disagree-same,
  disagree-differ,
}
use prosignal.Ledger.Previous.{rows-kept, nothing, conflict, found, previous_run-cases}

-- The keys of `by_date`
abbrev pub run_dates : Option Mode → List Row → List ℕ
run_dates mode [] = []
run_dates mode (r ∷ rs) =
    let rest = run_dates mode rs in
    elim r.date [
      | none ↦ rest
      | some d ↦ if in_lineage mode r && not (elem d rest) then d ∷ rest else rest
    ]

abbrev pub day_rows : Option Mode → ℕ → List Row → List Row
day_rows mode when rows = filter (λ r. is_on when r && in_lineage mode r) rows

unfoldable pub conflicting_dates : List File → Option Mode → List ℕ
conflicting_dates files mode =
    filter (λ d. disagree (day_rows mode d (iter_rows files)))
      (sort_by ltb (run_dates mode (iter_rows files)))

elem-Has : (d : ℕ) (xs : List ℕ) → elem d xs ≡ true → Has d xs
elem-Has d [] h = cc
elem-Has d (x ∷ xs) h = elim (Bool-cases (d == x)) [
  | inl hit ↦ inl (sym ((==_iff d x).0 hit))
  | inr miss ↦ inr (elem-Has d xs (ground arith))
]

run_dates-Has :
    (mode : Option Mode) (rows : List Row) (r : Row) (d : ℕ)
    → Has r rows
    → r.date ≡ some d
    → in_lineage mode r ≡ true
    → Has d (run_dates mode rows)
run_dates-Has mode [] r d there dated live_row = absurd there
run_dates-Has mode (x ∷ rows) r d there dated live_row = elim there [
  | inl same ↦
      let on_day : x.date ≡ some d = ap (λ (q : Row). q.date) same ∙ dated in
      let counted : in_lineage mode x ≡ true = ap (in_lineage mode) same ∙ live_row in
      subst (λ (ds : List ℕ). Has d ds) (sym (ap with_date on_day))
        (rw counted (elim (Bool-cases (elem d rest)) [
          | inl known ↦ rw known (elem-Has d rest known)
          | inr new ↦ rw new (inl refl)
        ]))
  | inr later ↦
      let ih = run_dates-Has mode rows r d later dated live_row in
      elim (Option-cases x.date) [
        | inl undated ↦ subst (λ (ds : List ℕ). Has d ds) (sym (ap with_date undated)) ih
        | inr (e, on_day) ↦
            subst (λ (ds : List ℕ). Has d ds) (sym (ap with_date on_day))
              (elim (Bool-cases (in_lineage mode x && not (elem e rest))) [
                | inl new ↦ rw new (inr ih)
                | inr known ↦ rw known ih
              ])
      ]
]
  where
    rest : List ℕ
    rest = run_dates mode rows

    with_date : Option ℕ → List ℕ
    with_date o = elim o [
      | none ↦ rest
      | some e ↦ if in_lineage mode x && not (elem e rest) then e ∷ rest else rest
    ]

-- The order of the rows of a day does not matter.
disagree-rows_on :
    (files : List File) (d : ℕ) (mode : Option Mode)
    → (disagree (rows_on files d mode) ≡ true)
      ↔ (disagree (day_rows mode d (iter_rows files)) ≡ true)
unfolding rows_on
disagree-rows_on files d mode =
    let rows = day_rows mode d (iter_rows files) in
    (
      differ (sort_by logged_before rows) rows (λ r h. (Has-sort_by logged_before r rows).0 h),
      differ rows (sort_by logged_before rows) (λ r h. (Has-sort_by logged_before r rows).1 h),
    )
  where
    differ :
        (xs ys : List Row)
        → ((r : Row) → Has r xs → Has r ys)
        → disagree xs ≡ true
        → disagree ys ≡ true
    differ xs ys into h = elim (Bool-cases (disagree ys)) [
      | inl too ↦ too
      | inr agree ↦
          let (a, b, at, bt, ne) = disagree-differ xs h in
          absurd (ne (disagree-same ys a b agree (into a at) (into b bt)))
    ]

module _ (files : List File) (mode : Option Mode) (d : ℕ) where
  reads_row :
      (a : Row)
      → a.date ≡ some d
      → in_lineage mode a ≡ true
      → candidate_date (some (d + 1)) mode a ≡ some d
  reads_row a dated lineage =
      let before : ltb d (d + 1) ≡ true = lt→ltb d (d + 1) (omega arith) in
      ap pick dated ∙ rw (before, lineage) refl
    where
      pick : Option ℕ → Option ℕ
      pick o = elim o [
        | none ↦ none
        | some e ↦ if is_before (some (d + 1)) e && in_lineage mode a then some e else none
      ]

  same_day :
      (a : Row) (day : ℕ)
      → Has a (iter_rows files)
      → candidate_date (some (d + 1)) mode a ≡ some d
      → latest_from (some (d + 1)) mode none (iter_rows files) ≡ some day
      → day ≡ d
  same_day a day there reads latest =
      let bound = (latest-IsAtMost (some (d + 1)) mode (iter_rows files) none day latest).1 in
      let at_least : d ≤ day =
        subst (λ c. IsAtMost c day) reads
          (All-Has (λ x. IsAtMost (candidate_date (some (d + 1)) mode x) day) (iter_rows files) a
            bound there) in
      elim (latest-Has (some (d + 1)) mode (iter_rows files) none day latest) [
        | inl e ↦ cc
        | inr (r, r_there, e) ↦
            let met = (candidate_date-parts (some (d + 1)) mode r day e).1 in
            let before : ltb day (d + 1) ≡ true = ground arith in
            omega (arith, ltb→lt day (d + 1) before)
      ]

  blocked :
      disagree (rows_on files d mode) ≡ true
      → previous_run files (some (d + 1)) mode ≡ err (ambiguous d (length (rows_on files d mode)))
  blocked h =
      let (a, b, at, bt, ne) = disagree-differ (rows_on files d mode) h in
      let (there, dated, lineage) = rows-kept files (some (d + 1)) mode a d at in
      let reads : candidate_date (some (d + 1)) mode a ≡ some d = reads_row a dated lineage in
      elim (previous_run-cases files (some (d + 1)) mode) [
        | nothing without eq ↦
            let absent =
              All-Has (λ x. candidate_date (some (d + 1)) mode x ≡ none) (iter_rows files) a
                (latest-none (some (d + 1)) mode (iter_rows files) none without).1 there in
            cc
        | conflict day latest differ eq ↦
            subst
              (λ e.
                previous_run files (some (d + 1)) mode
                ≡ err (ambiguous e (length (rows_on files e mode))))
              (same_day a day there reads latest) eq
        | found day q latest agree listed eq ↦
            let clash : disagree (rows_on files d mode) ≡ false =
              subst (λ e. disagree (rows_on files e mode) ≡ false)
                (same_day a day there reads latest) agree in
            cc
      ]

  -- A date is reported exactly when it stops a run on the day after it: `previous_run` before that
  -- day finds the runs of the date in conflict.
  pub conflicting_dates-ambiguous :
      Has d (conflicting_dates files mode)
      ↔ (previous_run files (some (d + 1)) mode ≡ err (ambiguous d (length (rows_on files d mode))))
  unfolding conflicting_dates
  conflicting_dates-ambiguous = (
    λ h.
        let reported =
          (Has-filter (λ e. disagree (day_rows mode e (iter_rows files))) d
              (sort_by ltb (run_dates mode (iter_rows files)))).0
            h in
        blocked ((disagree-rows_on files d mode).1 reported.1),
    λ h. listed_back h,
  )
    where
      listed_back :
          previous_run files (some (d + 1)) mode ≡ err (ambiguous d (length (rows_on files d mode)))
          → Has d (
              filter
                (λ e. disagree (day_rows mode e (iter_rows files)))
                (sort_by ltb (run_dates mode (iter_rows files))))
      listed_back h = elim (previous_run-cases files (some (d + 1)) mode) [
        | nothing without eq ↦ cc
        | found day q latest agree listed eq ↦ cc
        | conflict day latest differ eq ↦
            let same : day ≡ d = cc in
            let differ_too : disagree (rows_on files d mode) ≡ true =
              subst (λ e. disagree (rows_on files e mode) ≡ true) same differ in
            let (a, b, at, bt, ne) = disagree-differ (rows_on files d mode) differ_too in
            let (there, dated, lineage) = rows-kept files (some (d + 1)) mode a d at in
            (Has-filter (λ e. disagree (day_rows mode e (iter_rows files))) d
                (sort_by ltb (run_dates mode (iter_rows files)))).1
              (
                (Has-sort_by ltb d (run_dates mode (iter_rows files))).1
                    (run_dates-Has mode (iter_rows files) a d there dated lineage),
                (disagree-rows_on files d mode).0 differ_too,
              )
      ]
