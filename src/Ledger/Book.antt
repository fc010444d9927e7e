-- ===== src/Ledger/Book.antt =====
-- ledger.py: the book that the next run inherits, and the newest row of a date.
use prosignal.Prelude.{
  ℕ, ◌≡◌, refl, ap, ◌∙◌, inl, inr, Bool, true, false, ◌&&◌, ◌||◌, Option, none, some, List, [], ◌∷◌,
  arith, ◌==◌, ==_iff, Bool-cases, filter, any, elem, elem-append, ok, sort_by, Has, Has-sort_by,
  Has-filter, last_of-Has, All-Has, sort_by-LastIsTop,
}
use prosignal.Ledger.Defs.{
  Mode, Directive, Row, File, iter_rows, in_lineage, is_on, logged_before, rows_on, newest_on,
  previous_run, keep_one, keep_held, open_book,
}
use prosignal.Ledger.Previous.{on-date, rows-kept}

abbrev pub is_held : ℕ → Option ℕ → Bool → Bool
is_held t none holds = false
is_held t (some u) holds = u == t && holds

-- A directive that holds the ticker
abbrev pub holds_ticker : ℕ → Directive → Bool
holds_ticker t d = is_held t d.ticker d.holds

or_false : (b : Bool) → b ≡ (b || false)
or_false true = refl
or_false false = refl

or_assoc : (a b c : Bool) → ((a || b) || c) ≡ (a || (b || c))
or_assoc true b c = refl
or_assoc false b c = refl

elem-keep_one :
    (t : ℕ) (u : Option ℕ) (h : Bool) (book : List ℕ)
    → elem t (keep_one u h book) ≡ (elem t book || is_held t u h)
elem-keep_one t none h book = or_false (elem t book)
elem-keep_one t (some u) h book = elim (Bool-cases (u == t)) [
  | inl same ↦
      let at : u ≡ t = (==_iff u t).0 same in
      rw (same, at) (ground (arith, elem-append t book (t ∷ [])))
  | inr other ↦ rw other (ground (arith, elem-append t book (u ∷ [])))
]

elem-keep_held :
    (t : ℕ) (ds : List Directive) (book : List ℕ)
    → elem t (keep_held ds book) ≡ (elem t book || any (holds_ticker t) ds)
elem-keep_held t [] book = or_false (elem t book)
elem-keep_held t (d ∷ ds) book =
    elem-keep_held t ds (keep_one d.ticker d.holds book)
    ∙ ap (λ b. b || any (holds_ticker t) ds) (elem-keep_one t d.ticker d.holds book)
    ∙ or_assoc (elem t book) (holds_ticker t d) (any (holds_ticker t) ds)

-- The inherited book holds a name exactly when the previous run bought it or a directive of that
-- run still holds it.
pub open_book-elem :
    (files : List File) (before : Option ℕ) (mode : Option Mode) (r : Row) (t : ℕ)
    → previous_run files before mode ≡ ok (some r)
    → (book : List ℕ) × (open_book files before mode ≡ ok book)
      × (elem t book ≡ (elem t r.signals_generated || any (holds_ticker t) r.position_directives))
unfolding open_book
open_book-elem files before mode r t h = (
  keep_held r.position_directives r.signals_generated,
  rw h refl,
  elem-keep_held t r.position_directives r.signals_generated,
)

logged-asym : (a b : Row) → logged_before a b ≡ true → logged_before b a ≡ false
logged-asym a b h = ground arith

logged_trans :
    (a b c : Row)
    → logged_before a b ≡ false
    → logged_before b c ≡ false
    → logged_before a c ≡ false
logged_trans a b c h k = ground arith

-- The newest row of a date and lineage is one of them, and none of them was logged after it,
-- wherever they stand in the files.
pub newest_on-latest :
    (files : List File) (when : ℕ) (mode : Option Mode) (r s : Row)
    → newest_on files when mode ≡ some r
    → Has s (iter_rows files)
    → s.date ≡ some when
    → in_lineage mode s ≡ true
    → Has r (iter_rows files)
      × (r.date ≡ some when)
      × (in_lineage mode r ≡ true)
      × (logged_before r s ≡ false)
unfolding newest_on rows_on
newest_on-latest files when mode r s h there dated lineage =
    let p = λ (x : Row). is_on when x && in_lineage mode x in
    let kept = filter p (iter_rows files) in
    let (r_there, r_dated, r_mode) =
      rows-kept files none mode r when (last_of-Has (sort_by logged_before kept) r h) in
    let on = (on-date when s).1 dated in
    let passes : p s ≡ true = rw (on, lineage) refl in
    let listed =
      (Has-sort_by logged_before s kept).1 ((Has-filter p s (iter_rows files)).1 (there, passes)) in
    let top = sort_by-LastIsTop logged_before logged-asym logged_trans kept r h in
    (
      r_there,
      r_dated,
      r_mode,
      All-Has (λ y. logged_before r y ≡ false) (sort_by logged_before kept) s top listed,
    )
