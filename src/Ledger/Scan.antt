-- ===== src/Ledger/Scan.antt =====
-- ledger.py: the two scans of `previous_run`, and the set of identities.
use prosignal.Prelude.{
  ℕ, ◌≤◌, ◌<◌, ◌≡◌, refl, sym, ap, ◌∙◌, subst, ◌≢◌, ◌↔◌, ◌⊎◌, inl, inr, Bool, true, false, ◌&&◌,
  ◌||◌, Option, none, some, List, [], ◌∷◌, arith, if◌then◌else◌, ltb→lt, ==_iff, Bool-cases,
  Option-cases, length, All, Has,
}
use prosignal.Ledger.Defs.{
  Mode, Row, Identity, book_identity, same_list, same_identity, has_identity, identities, disagree,
  in_lineage, is_before, candidate_date, later_date, latest_from,
}

abbrev pub IsAtMost : Option ℕ → ℕ → Type 0
IsAtMost none d = Unit
IsAtMost (some a) d = a ≤ d

later_date-IsAtMost :
    (acc c : Option ℕ) (d : ℕ) → IsAtMost (later_date acc c) d → IsAtMost acc d × IsAtMost c d
later_date-IsAtMost none none d h = (tt, tt)
later_date-IsAtMost none (some c) d h = (tt, h)
later_date-IsAtMost (some a) none d h = (h, tt)
later_date-IsAtMost (some a) (some c) d h = ground arith

later_date-either :
    (acc c : Option ℕ) (d : ℕ) → later_date acc c ≡ some d → (acc ≡ some d) ⊎ (c ≡ some d)
later_date-either none none d h = inl h
later_date-either none (some c) d h = inr h
later_date-either (some a) none d h = inl h
later_date-either (some a) (some c) d h = ground arith

later_date-none : (acc c : Option ℕ) → later_date acc c ≡ none → (acc ≡ none) × (c ≡ none)
later_date-none none none h = (refl, refl)
later_date-none none (some c) h = cc
later_date-none (some a) none h = cc
later_date-none (some a) (some c) h = ground arith

module _ (before : Option ℕ) (mode : Option Mode) where
  pub latest-IsAtMost :
      (rs : List Row) (acc : Option ℕ) (d : ℕ)
      → latest_from before mode acc rs ≡ some d
      → IsAtMost acc d × All (λ r. IsAtMost (candidate_date before mode r) d) rs
  latest-IsAtMost [] acc d h = (rw h (omega arith), tt)
  latest-IsAtMost (r ∷ rs) acc d h =
      let (first, rest) = latest-IsAtMost rs (later_date acc (candidate_date before mode r)) d h in
      let (old, this) = later_date-IsAtMost acc (candidate_date before mode r) d first in
      (old, (this, rest))

  pub latest-Has :
      (rs : List Row) (acc : Option ℕ) (d : ℕ)
      → latest_from before mode acc rs ≡ some d
      → (acc ≡ some d) ⊎ ((r : Row) × Has r rs × (candidate_date before mode r ≡ some d))
  latest-Has [] acc d h = inl h
  latest-Has (r ∷ rs) acc d h =
      elim (latest-Has rs (later_date acc (candidate_date before mode r)) d h) [
        | inl e ↦ elim (later_date-either acc (candidate_date before mode r) d e) [
          | inl old ↦ inl old
          | inr this ↦ inr (r, inl refl, this)
        ]
        | inr (s, there, e) ↦ inr (s, inr there, e)
      ]

  pub latest-none :
      (rs : List Row) (acc : Option ℕ)
      → latest_from before mode acc rs ≡ none
      → (acc ≡ none) × All (λ r. candidate_date before mode r ≡ none) rs
  latest-none [] acc h = (h, tt)
  latest-none (r ∷ rs) acc h =
      let (first, rest) = latest-none rs (later_date acc (candidate_date before mode r)) h in
      let (old, this) = later_date-none acc (candidate_date before mode r) first in
      (old, (this, rest))

  -- A row that the scan reads is on its date, before the limit and of the lineage.
  pub candidate_date-parts :
      (r : Row) (d : ℕ)
      → candidate_date before mode r ≡ some d
      → (r.date ≡ some d) × ((is_before before d && in_lineage mode r) ≡ true)
  candidate_date-parts r d h = elim (Option-cases r.date) [
    | inl undated ↦ let none_read : candidate_date before mode r ≡ none = ap pick undated in cc
    | inr (e, dated) ↦
        let read : candidate_date before mode r ≡ pick (some e) = ap pick dated in
        let (same, met) = some_if (is_before before e && in_lineage mode r) e d (sym read ∙ h) in
        (
          dated ∙ ap (λ x. some x) same,
          subst (λ x. (is_before before x && in_lineage mode r) ≡ true) same met,
        )
  ]
    where
      pick : Option ℕ → Option ℕ
      pick o = elim o [
        | none ↦ none
        | some d ↦ if is_before before d && in_lineage mode r then some d else none
      ]

      some_if : (b : Bool) (x y : ℕ) → (if b then some x else none) ≡ some y → (x ≡ y) × (b ≡ true)
      some_if true x y e = (cc, refl)
      some_if false x y e = cc

pub same_list_iff : (xs ys : List ℕ) → (same_list xs ys ≡ true) ↔ (xs ≡ ys)
same_list_iff [] [] = (λ h. refl, λ h. refl)
same_list_iff [] (y ∷ ys) = (λ h. cc, λ h. cc)
same_list_iff (x ∷ xs) [] = (λ h. cc, λ h. cc)
same_list_iff (x ∷ xs) (y ∷ ys) =
    let ih = same_list_iff xs ys in
    (
      λ h. let head : x ≡ y = ground arith in let tail = ih.0 (ground arith) in cc,
      λ h.
          let head : x ≡ y = cc in
          let tail : xs ≡ ys = cc in
          let hit = (==_iff x y).1 head in let rest = ih.1 tail in ground arith,
    )

pub same_identity_iff : (a b : Identity) → (same_identity a b ≡ true) ↔ (a ≡ b)
same_identity_iff a b =
    let book = same_list_iff a.0 b.0 in
    let slate = same_list_iff a.1 b.1 in
    (
      λ h. let left = book.0 (ground arith) in let right = slate.0 (ground arith) in cc,
      λ h.
          let left = book.1 (ap (λ x. x.0) h) in
          let right = slate.1 (ap (λ x. x.1) h) in ground arith,
    )

identity-listed :
    (a : Row) (rs : List Row) → Has a rs → has_identity (book_identity a) (identities rs) ≡ true
identity-listed a [] h = absurd h
identity-listed a (r ∷ rs) h = elim (Bool-cases (has_identity (book_identity r) (identities rs))) [
  | inl known ↦ rw known (elim h [ inl e ↦ rw (← e) known | inr t ↦ identity-listed a rs t ])
  | inr new ↦ rw new (elim h [
    | inl e ↦
        let same =
          (same_identity_iff (book_identity a) (book_identity r)).1 (ap book_identity (sym e)) in
        rw same refl
    | inr t ↦
        rw (identity-listed a rs t) (or_true (same_identity (book_identity a) (book_identity r)))
  ])
]
  where
    or_true : (b : Bool) → (b || true) ≡ true
    or_true true = refl
    or_true false = refl

one_identity :
    (i j : Identity) (js : List Identity)
    → length js ≤ 1
    → has_identity i js ≡ true
    → has_identity j js ≡ true
    → i ≡ j
one_identity i j [] n a b = cc
one_identity i j (k ∷ []) n a b =
    let left = (same_identity_iff i k).0 (ground arith) in
    let right = (same_identity_iff j k).0 (ground arith) in left ∙ sym right
one_identity i j (k ∷ l ∷ js) n a b = absurd (omega arith)

identity-of_row :
    (rs : List Row) (j : Identity) (js : List Identity)
    → identities rs ≡ j ∷ js
    → (s : Row) × Has s rs × (book_identity s ≡ j)
identity-of_row [] j js = λ h. cc
identity-of_row (r ∷ rs) j js = elim (Bool-cases (has_identity (book_identity r) (identities rs))) [
  | inl known ↦ rw known (λ h. let (s, there, e) = identity-of_row rs j js h in (s, inr there, e))
  | inr new ↦ rw new (λ h. (r, inl refl, cc))
]

-- Rows that do not disagree have one identity.
pub disagree-same :
    (rs : List Row) (a b : Row)
    → disagree rs ≡ false
    → Has a rs
    → Has b rs
    → book_identity a ≡ book_identity b
unfolding disagree
disagree-same rs a b h there there_too =
    one_identity (book_identity a) (book_identity b) (identities rs) (ground arith)
      (identity-listed a rs there) (identity-listed b rs there_too)

two_identities :
    (rs : List Row)
    → 1 < length (identities rs)
    → (a : Row) × (b : Row) × Has a rs × Has b rs × (book_identity a ≢ book_identity b)
two_identities [] = λ h. absurd (omega arith)
two_identities (r ∷ rs) = elim (Bool-cases (has_identity (book_identity r) (identities rs))) [
  | inl known ↦
      rw known
        (λ h. let (a, b, at, bt, differ) = two_identities rs h in (a, b, inr at, inr bt, differ))
  | inr new ↦ rw new (λ h. second (identities rs) refl new h)
]
  where
    second :
        (js : List Identity)
        → identities rs ≡ js
        → has_identity (book_identity r) js ≡ false
        → 1 < length (book_identity r ∷ js)
        → (a : Row) × (b : Row) × Has a (r ∷ rs)
          × Has b (r ∷ rs)
          × (book_identity a ≢ book_identity b)
    second [] e new h = absurd (omega arith)
    second (j ∷ js) e new h =
        let (s, there, at) = identity-of_row rs j js e in
        (
          r,
          s,
          inl refl,
          inr there,
          λ same.
              let hit = (same_identity_iff (book_identity r) j).1 (same ∙ at) in
              let miss : same_identity (book_identity r) j ≡ false = ground arith in cc,
        )

pub disagree-differ :
    (rs : List Row)
    → disagree rs ≡ true
    → (a : Row) × (b : Row) × Has a rs × Has b rs × (book_identity a ≢ book_identity b)
unfolding disagree
disagree-differ rs h = two_identities rs (ltb→lt 1 (length (identities rs)) h)
