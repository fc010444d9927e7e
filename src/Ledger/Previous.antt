-- ===== src/Ledger/Previous.antt =====
-- ledger.py: what `previous_run` returns.
use prosignal.Prelude.{
  ℕ, ◌≤◌, ◌<◌, ◌≡◌, refl, sym, ap, ◌∙◌, subst, ◌≢◌, ◌↔◌, ◌⊎◌, inl, inr, Bool, true, false, ◌&&◌,
  Option, none, some, List, arith, ltb, ◌==◌, ltb→lt, ==_iff, Bool-cases, Option-cases, length,
  filter, All, ok, err, last_of, Has, Has-sort_by, Has-filter, last_of-Has, last_of-none, All-Has,
}
use prosignal.Ledger.Defs.{
  Mode, Row, File, iter_rows, book_identity, disagree, in_lineage, is_on, logged_before, rows_on,
  is_before, candidate_date, latest_from, no_run_on, ambiguous, previous_run,
}
use prosignal.Ledger.Scan.{
  IsAtMost, latest-IsAtMost, latest-Has, latest-none, candidate_date-parts, disagree-same,
  disagree-differ,
}

bools : {a b : Bool} → (a && b) ≡ true → (a ≡ true) × (b ≡ true)
bools {a = true} {b = true} h = (refl, refl)
bools {a = true} {b = false} h = cc
bools {a = false} h = cc

pub on-date : (when : ℕ) (r : Row) → (is_on when r ≡ true) ↔ (r.date ≡ some when)
on-date when r = elim (Option-cases r.date) [
  | inl undated ↦ let miss : is_on when r ≡ false = ap on undated in (λ h. cc, λ h. cc)
  | inr (d, dated) ↦
      let read : is_on when r ≡ (d == when) = ap on dated in
      (
        λ h. let same = (==_iff d when).0 (sym read ∙ h) in dated ∙ ap (λ x. some x) same,
        λ h. let same : d ≡ when = cc in read ∙ (==_iff d when).1 same,
      )
]
  where
    on : Option ℕ → Bool
    on o = elim o as (λ x. Bool) [ none ↦ false | some d ↦ d == when ]

module _ (files : List File) (before : Option ℕ) (mode : Option Mode) where
  rows-candidate :
      (r : Row) (d : ℕ)
      → Has r (iter_rows files)
      → candidate_date before mode r ≡ some d
      → Has r (rows_on files d mode)
  unfolding rows_on
  rows-candidate r d there h =
      let (dated, met) = candidate_date-parts before mode r d h in
      let parts = bools {a = is_before before d} {b = in_lineage mode r} met in
      let on = (on-date d r).1 dated in
      let keeps : (is_on d r && in_lineage mode r) ≡ true = rw (on, parts.1) refl in
      (Has-sort_by logged_before r
          (filter (λ s. is_on d s && in_lineage mode s) (iter_rows files))).1
        ((Has-filter (λ s. is_on d s && in_lineage mode s) r (iter_rows files)).1 (there, keeps))

  pub rows-kept :
      (r : Row) (d : ℕ)
      → Has r (rows_on files d mode)
      → Has r (iter_rows files) × (r.date ≡ some d) × (in_lineage mode r ≡ true)
  unfolding rows_on
  rows-kept r d h =
      let found = (Has-filter (λ s. is_on d s && in_lineage mode s) r (iter_rows files)).0 (
        (Has-sort_by logged_before r
            (filter (λ s. is_on d s && in_lineage mode s) (iter_rows files))).0
          h) in
      let parts = bools {a = is_on d r} {b = in_lineage mode r} found.1 in
      (found.0, (on-date d r).0 parts.0, parts.1)

  latest-is_before :
      (d : ℕ) → latest_from before mode none (iter_rows files) ≡ some d → is_before before d ≡ true
  latest-is_before d day = elim (latest-Has before mode (iter_rows files) none d day) [
    | inl e ↦ cc
    | inr (r, there, e) ↦
        let met = (candidate_date-parts before mode r d e).1 in
        (bools {a = is_before before d} {b = in_lineage mode r} met).0
  ]

  pub data Outcome : Type 0 where
    nothing :
        latest_from before mode none (iter_rows files) ≡ none
        → previous_run files before mode ≡ ok none
        → Outcome
    conflict :
        (d : ℕ)
        → latest_from before mode none (iter_rows files) ≡ some d
        → disagree (rows_on files d mode) ≡ true
        → previous_run files before mode ≡ err (ambiguous d (length (rows_on files d mode)))
        → Outcome
    found :
        (d : ℕ) (r : Row)
        → latest_from before mode none (iter_rows files) ≡ some d
        → disagree (rows_on files d mode) ≡ false
        → Has r (rows_on files d mode)
        → previous_run files before mode ≡ ok (some r)
        → Outcome

  pub previous_run-cases : Outcome
  unfolding previous_run
  previous_run-cases = elim (Option-cases (latest_from before mode none (iter_rows files))) [
    | inl without ↦ nothing without (rw (without, previous_run) refl)
    | inr (d, day) ↦ elim (Option-cases (last_of (rows_on files d mode))) [
      | inl empty ↦ elim (latest-Has before mode (iter_rows files) none d day) [
        | inl e ↦ cc
        | inr (r, there, e) ↦
            let listed = rows-candidate r d there e in
            absurd (subst (λ xs. Has r xs) (last_of-none (rows_on files d mode) empty) listed)
      ]
      | inr (r, newest) ↦ elim (Bool-cases (disagree (rows_on files d mode))) [
        | inl differ ↦ conflict d day differ (rw (day, previous_run) (rw newest (rw differ refl)))
        | inr agree ↦
            found d r day agree (last_of-Has (rows_on files d mode) r newest)
              (rw (day, previous_run) (rw newest (rw agree refl)))
      ]
    ]
  ]

  -- The fault that the code calls unreachable is: the fetch of the rows never contradicts the scan
  -- for the date.
  pub previous_run-ne-no_run_on : (d : ℕ) → previous_run files before mode ≢ err (no_run_on d)
  previous_run-ne-no_run_on d h = elim previous_run-cases [
    | nothing without e ↦ cc
    | conflict day latest differ e ↦ cc
    | found day r latest agree there e ↦ cc
  ]

  -- The run that `previous_run` returns is a recorded one of the lineage and dated before `before`
  -- where that is given, and every row that qualifies is of an earlier date, or of the same date
  -- and with the same book and slate.
  pub previous_run-latest :
      (r s : Row) (e : ℕ)
      → previous_run files before mode ≡ ok (some r)
      → Has s (iter_rows files)
      → candidate_date before mode s ≡ some e
      → (d : ℕ) × Has r (iter_rows files)
        × (r.date ≡ some d)
        × (is_before before d ≡ true)
        × (in_lineage mode r ≡ true)
        × ((e < d) ⊎ ((e ≡ d) × (book_identity s ≡ book_identity r)))
  previous_run-latest r s e h there qualifies = elim previous_run-cases [
    | nothing without eq ↦ cc
    | conflict day latest differ eq ↦ cc
    | found day q latest agree listed eq ↦
        let same : q ≡ r = cc in
        let r_listed = subst (λ x. Has x (rows_on files day mode)) same listed in
        let (r_there, r_dated, r_mode) = rows-kept r day r_listed in
        let bound = (latest-IsAtMost before mode (iter_rows files) none day latest).1 in
        let at_most : e ≤ day =
          subst (λ c. IsAtMost c day) qualifies
            (All-Has (λ x. IsAtMost (candidate_date before mode x) day) (iter_rows files) s bound
              there) in
        (
          day,
          r_there,
          r_dated,
          latest-is_before day latest,
          r_mode,
          elim (Bool-cases (ltb e day)) [
            | inl earlier ↦ inl (ltb→lt e day earlier)
            | inr later ↦
                let on : e ≡ day = ground arith in
                let s_listed = rows-candidate s day there (qualifies ∙ ap (λ x. some x) on) in
                inr (on, disagree-same (rows_on files day mode) s r agree s_listed r_listed)
          ],
        )
  ]

  -- An ambiguity is real: there are two recorded rows of that date and lineage with different books
  -- or slates, and no row that qualifies is later.
  pub previous_run-ambiguous :
      (d n : ℕ) (s : Row) (e : ℕ)
      → previous_run files before mode ≡ err (ambiguous d n)
      → Has s (iter_rows files)
      → candidate_date before mode s ≡ some e
      → (a : Row) × (b : Row) × (Has a (iter_rows files)
          × (a.date ≡ some d)
          × (in_lineage mode a ≡ true))
        × (Has b (iter_rows files) × (b.date ≡ some d) × (in_lineage mode b ≡ true))
        × (book_identity a ≢ book_identity b)
        × (e ≤ d)
  previous_run-ambiguous d n s e h there qualifies = elim previous_run-cases [
    | nothing without eq ↦ cc
    | found day q latest agree listed eq ↦ cc
    | conflict day latest differ eq ↦
        let same : day ≡ d = cc in
        let (a, b, at, bt, ne) = disagree-differ (rows_on files day mode) differ in
        let bound = (latest-IsAtMost before mode (iter_rows files) none day latest).1 in
        let at_most : e ≤ day =
          subst (λ c. IsAtMost c day) qualifies
            (All-Has (λ x. IsAtMost (candidate_date before mode x) day) (iter_rows files) s bound
              there) in
        (
          a,
          b,
          subst (λ x. Has a (iter_rows files) × (a.date ≡ some x) × (in_lineage mode a ≡ true)) same
              (rows-kept a day at),
          subst (λ x. Has b (iter_rows files) × (b.date ≡ some x) × (in_lineage mode b ≡ true)) same
              (rows-kept b day bt),
          ne,
          subst (λ x. e ≤ x) same at_most,
        )
  ]

  -- Nothing is returned exactly when no recorded row qualifies.
  pub previous_run-nothing :
      (previous_run files before mode ≡ ok none)
      ↔ All (λ r. candidate_date before mode r ≡ none) (iter_rows files)
  previous_run-nothing = elim previous_run-cases [
    | nothing without eq ↦
        (λ h. (latest-none before mode (iter_rows files) none without).1, λ h. eq)
    | conflict day latest differ eq ↦ (λ h. cc, λ h. absurd (none_latest day latest h))
    | found day q latest agree listed eq ↦ (λ h. cc, λ h. absurd (none_latest day latest h))
  ]
    where
      none_latest :
          (d : ℕ)
          → latest_from before mode none (iter_rows files) ≡ some d
          → All (λ r. candidate_date before mode r ≡ none) (iter_rows files)
          → ⊥
      none_latest d latest h = elim (latest-Has before mode (iter_rows files) none d latest) [
        | inl e ↦ cc
        | inr (r, there, e) ↦
            let absent =
              All-Has (λ x. candidate_date before mode x ≡ none) (iter_rows files) r h there in
            cc
      ]
