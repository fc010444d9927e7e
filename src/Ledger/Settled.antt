-- ===== src/Ledger/Settled.antt =====
-- ledger.py: a repaired ledger stays as it is, and its live history has no conflict.
use prosignal.Prelude.{
  ℕ, ◌≡◌, refl, sym, ap, ◌∙◌, subst, ap₂, ◌≢◌, inl, inr, Bool, true, false, ◌&&◌, Option, none,
  some, List, [], ◌∷◌, map, arith, ltb, ◌==◌, if◌then◌else◌, Bool-cases, Option-cases, is_some,
  length, All, err, Has, Has-filter, All-Has,
}
use prosignal.Ledger.Defs.{
  Mode, live, replay, quarantine, other_mode, same_mode, Row, File, rows_of, iter_rows,
  book_identity, has_identity, identities, disagree, mode_of, is_on, rows_on, ambiguous,
  previous_run,
}
use prosignal.Ledger.Repair.{
  observed_mode, is_live, live_rows_on, is_quarantined, target, repair_row, repair_file,
  repair_lineage,
}
use prosignal.Ledger.Lineage.{
  evidence, repaired, row-cases, evidence-repaired, settled-unchanged, unchanged-file,
  rows-repair_file, iter_rows-repair,
}
use prosignal.Ledger.Scan.{disagree-same, disagree-differ}
use prosignal.Ledger.Previous.{on-date, rows-kept, nothing, conflict, found, previous_run-cases}

-- The timestamps, the book and the slate of a row are all that its target depends on.
abbrev Kept : Row → Row → Type 0
Kept a b = evidence a ≡ evidence b

Kept-observed : (a b : Row) → Kept a b → observed_mode a ≡ observed_mode b
unfolding observed_mode
Kept-observed a b h = ap observed_mode h

Kept-identity : (a b : Row) → Kept a b → book_identity a ≡ book_identity b
unfolding book_identity
Kept-identity a b h = ap book_identity h

Kept-date : (a b : Row) → Kept a b → a.date ≡ b.date
Kept-date a b h = ap (λ r. r.date) h

module _ (rows : List Row) where
  live_rows-repaired :
      (d : ℕ) (xs : List Row)
      → live_rows_on d (map (repaired rows) xs) ≡ map (repaired rows) (live_rows_on d xs)
  unfolding live_rows_on
  live_rows-repaired d [] = refl
  live_rows-repaired d (r ∷ xs) =
      let seen = Kept-observed (repaired rows r) r (evidence-repaired rows r) in
      let dated = Kept-date (repaired rows r) r (evidence-repaired rows r) in
      let same : (is_live (observed_mode (repaired rows r)) && is_on d (repaired rows r))
          ≡ (is_live (observed_mode r) && is_on d r) =
        ap₂ (λ x y. is_live x && y) seen (ap on dated) in
      elim (Bool-cases (is_live (observed_mode r) && is_on d r)) [
        | inl pass ↦
            rw (same ∙ pass) (rw pass (ap (λ ys. repaired rows r ∷ ys) (live_rows-repaired d xs)))
        | inr fail ↦ rw (same ∙ fail) (rw fail (live_rows-repaired d xs))
      ]
    where
      on : Option ℕ → Bool
      on o = elim o as (λ x. Bool) [ none ↦ false | some e ↦ e == d ]

  identities-repaired : (xs : List Row) → identities (map (repaired rows) xs) ≡ identities xs
  identities-repaired [] = refl
  identities-repaired (r ∷ xs) =
      let same = Kept-identity (repaired rows r) r (evidence-repaired rows r) in
      ap₂ (λ i js. if has_identity i js then js else i ∷ js) same (identities-repaired xs)

  quarantined-repaired :
      (d : Option ℕ) → is_quarantined (map (repaired rows) rows) d ≡ is_quarantined rows d
  unfolding is_quarantined disagree
  quarantined-repaired none = refl
  quarantined-repaired (some d) =
      ap (λ xs. ltb 1 (length (identities xs))) (live_rows-repaired d rows)
      ∙ ap (λ js. ltb 1 (length js)) (identities-repaired (live_rows_on d rows))

  target-repaired : (r : Row) → target (map (repaired rows) rows) (repaired rows r) ≡ target rows r
  unfolding target
  target-repaired r =
      let seen = Kept-observed (repaired rows r) r (evidence-repaired rows r) in
      let dated = Kept-date (repaired rows r) r (evidence-repaired rows r) in
      let held =
        ap (is_quarantined (map (repaired rows) rows)) dated ∙ quarantined-repaired r.date in
      ap₂ pick seen held
    where
      pick : Option Mode → Bool → Option Mode
      pick o q = elim o [
        | none ↦ none
        | some m ↦ if is_live (some m) && q then some quarantine else some m
      ]

  same_mode_self : (m : Mode) → same_mode m m ≡ true
  same_mode_self live = refl
  same_mode_self replay = refl
  same_mode_self quarantine = refl
  same_mode_self (other_mode t) = ground arith

  -- A repaired row has its target.
  mode-repaired :
      (r : Row) (t : Mode) → target rows r ≡ some t → same_mode (mode_of (repaired rows r)) t ≡ true
  mode-repaired r t h = elim (row-cases rows r) [
    | inl (unread, e) ↦ cc
    | inr (u, read, inl (same, e)) ↦
        let one : u ≡ t = cc in
        subst (λ x. same_mode (mode_of (repaired rows r)) x ≡ true) one
          (subst (λ p. same_mode (mode_of p.0) u ≡ true) (sym e) same)
    | inr (u, read, inr e) ↦
        let one : u ≡ t = cc in
        subst (λ x. same_mode (mode_of (repaired rows r)) x ≡ true) one
          (subst (λ p. same_mode (mode_of p.0) u ≡ true) (sym e) (same_mode_self u))
  ]

  settled : (r : Row) → (repair_row (map (repaired rows) rows) (repaired rows r)).1 ≡ false
  unfolding repair_row
  settled r = elim (Option-cases (target rows r)) [
    | inl unread ↦ rw (target-repaired r ∙ unread, repair_row) refl
    | inr (t, read) ↦ rw (target-repaired r ∙ read, repair_row) (rw (mode-repaired r t read) refl)
  ]

  settled-All :
      (xs : List Row)
      → All (λ r. (repair_row (map (repaired rows) rows) r).1 ≡ false) (map (repaired rows) xs)
  settled-All [] = tt
  settled-All (r ∷ xs) = (settled r, settled-All xs)

  file-settled :
      (f : File) → repair_file (map (repaired rows) rows) (repair_file rows f) ≡ repair_file rows f
  file-settled f =
      let all_settled =
        subst (All (λ r. (repair_row (map (repaired rows) rows) r).1 ≡ false))
          (sym (rows-repair_file rows f)) (settled-All (rows_of f)) in
      let zero = settled-unchanged (map (repaired rows) rows) (repair_file rows f) all_settled in
      unchanged-file (map (repaired rows) rows) (repair_file rows f) zero

  files-settled :
      (fs : List File)
      → map (repair_file (map (repaired rows) rows)) (map (repair_file rows) fs)
        ≡ map (repair_file rows) fs
  files-settled [] = refl
  files-settled (f ∷ fs) = ap₂ (λ x y. x ∷ y) (file-settled f) (files-settled fs)

-- A second repair changes nothing.
pub repair_lineage-idempotent :
    (files : List File) → repair_lineage (repair_lineage files) ≡ repair_lineage files
unfolding repair_lineage
repair_lineage-idempotent files =
    ap (λ rows. map (repair_file rows) (map (repair_file (iter_rows files)) files))
      (iter_rows-repair (iter_rows files) files)
    ∙ files-settled (iter_rows files) files

Has-map :
    (f : Row → Row) (a : Row) (xs : List Row) → Has a (map f xs) → (r : Row) × Has r xs × (f r ≡ a)
Has-map f a [] h = absurd h
Has-map f a (x ∷ xs) h = elim h [
  | inl e ↦ (x, inl refl, e)
  | inr t ↦ let (r, there, e) = Has-map f a xs t in (r, inr there, e)
]

live_only : (m t : Mode) → same_mode m live ≡ true → same_mode m t ≡ true → t ≡ live
live_only live live h k = refl
live_only live replay h k = cc
live_only live quarantine h k = cc
live_only live (other_mode a) h k = cc
live_only replay t h k = cc
live_only quarantine t h k = cc
live_only (other_mode a) t h k = cc

target-live :
    (rows : List Row) (r : Row)
    → target rows r ≡ some live
    → (is_live (observed_mode r) ≡ true) × (is_quarantined rows r.date ≡ false)
unfolding target
target-live rows r = elim (Option-cases (observed_mode r)) [
  | inl unread ↦ rw (unread, target) (λ h. cc)
  | inr (m, read) ↦ elim (Bool-cases (is_live (some m))) [
    | inr dead ↦
        rw (read, target)
          (rw dead (λ h.
            let same : m ≡ live = cc in let bad = sym dead ∙ ap (λ x. is_live (some x)) same in cc))
    | inl alive ↦ elim (Bool-cases (is_quarantined rows r.date)) [
      | inl held ↦ rw (read, target) (rw alive (rw held (λ h. cc)))
      | inr free ↦ rw read (λ h. (alive, free))
    ]
  ]
]

target-some :
    (rows : List Row) (r : Row)
    → is_some (observed_mode r) ≡ true
    → (t : Mode) × (target rows r ≡ some t)
unfolding target
target-some rows r = elim (Option-cases (observed_mode r)) [
  | inl unread ↦ rw unread (λ h. cc)
  | inr (m, read) ↦ elim (Bool-cases (is_live (some m) && is_quarantined rows r.date)) [
    | inl held ↦ λ h. (quarantine, rw (read, target) (rw held refl))
    | inr free ↦ λ h. (m, rw (read, target) (rw free refl))
  ]
]

module _ (files : List File) where
  agree_of :
      (d : ℕ)
      → is_quarantined (iter_rows files) (some d) ≡ false
      → disagree (live_rows_on d (iter_rows files)) ≡ false
  unfolding is_quarantined
  agree_of d h = h

  -- A live row of the repaired ledger was recorded on the day, which is not in quarantine.
  live-original :
      (d : ℕ) (a : Row)
      → All (λ r. is_some (observed_mode r) ≡ true) (iter_rows files)
      → Has a (rows_on (repair_lineage files) d (some live))
      → (r : Row) × Has r (live_rows_on d (iter_rows files))
        × (book_identity r ≡ book_identity a)
        × (is_quarantined (iter_rows files) (some d) ≡ false)
  unfolding repair_lineage live_rows_on
  live-original d a observed h =
      let rows = iter_rows files in
      let (there, dated, lineage) = rows-kept (repair_lineage files) none (some live) a d h in
      let (r, r_there, e) =
        Has-map (repaired rows) a rows
          (subst (λ xs. Has a xs) (iter_rows-repair rows files) there) in
      let kept = ap evidence (sym e) ∙ evidence-repaired rows r in
      let r_dated = sym (Kept-date a r kept) ∙ dated in
      let (t, read) =
        target-some rows r
          (All-Has (λ x. is_some (observed_mode x) ≡ true) rows r observed r_there) in
      let this = subst (λ x. same_mode (mode_of x) t ≡ true) e (mode-repaired rows r t read) in
      let live_target = read ∙ ap (λ x. some x) (live_only (mode_of a) t lineage this) in
      let (alive, free) = target-live rows r live_target in
      let on = (on-date d r).1 r_dated in
      let passes : (is_live (observed_mode r) && is_on d r) ≡ true = rw (alive, on) refl in
      (
        r,
        (Has-filter (λ x. is_live (observed_mode x) && is_on d x) r rows).1 (r_there, passes),
        sym (Kept-identity a r kept),
        ap (is_quarantined rows) (sym r_dated) ∙ free,
      )

  -- Where the timestamps of every row can be read, a live run never finds the repaired history
  -- ambiguous, whatever it was before.
  pub previous_run-repair_lineage :
      (before : Option ℕ) (d n : ℕ)
      → All (λ r. is_some (observed_mode r) ≡ true) (iter_rows files)
      → previous_run (repair_lineage files) before (some live) ≢ err (ambiguous d n)
  previous_run-repair_lineage before d n observed h =
      elim (previous_run-cases (repair_lineage files) before (some live)) [
        | nothing without eq ↦ cc
        | found day q latest agree listed eq ↦ cc
        | conflict day latest differ eq ↦
            let (a, b, at, bt, ne) =
              disagree-differ (rows_on (repair_lineage files) day (some live)) differ in
            let (r, r_there, r_same, free) = live-original day a observed at in
            let (s, s_there, s_same, free_too) = live-original day b observed bt in
            let one =
              disagree-same (live_rows_on day (iter_rows files)) r s (agree_of day free) r_there
                s_there in
            absurd (ne (sym r_same ∙ one ∙ s_same))
      ]
