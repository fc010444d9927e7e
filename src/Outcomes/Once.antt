-- ===== src/Outcomes/Once.antt =====
-- outcomes.py: `_pending` gives each call once, and `resolve_pending` writes each once.
use prosignal.Prelude.{
  ℕ, ◌≡◌, refl, sym, ap, ◌∙◌, subst, ap₂, inl, inr, Bool, true, false, not, ◌||◌, List, [], ◌∷◌,
  ◌++◌, map, arith, Bool-cases, is_some, All, All-append, elem,
}
use prosignal.Prelude.Floats.{FloatOps}
use prosignal.Outcomes.Resolve.{Rec}
use prosignal.Outcomes.Pending.{
  same_pair, has_pair, Run, Item, call_of, Found, skips, visit, visit_recs, visit_rows, pending,
}

abbrev pub IsOnce : List (ℕ × ℕ) → Type 0
IsOnce [] = Unit
IsOnce (c ∷ cs) = (has_pair c cs ≡ false) × IsOnce cs

pub or_false : (a b : Bool) → (a || b) ≡ false → (a ≡ false) × (b ≡ false)
or_false a b h = (ground arith, ground arith)

pub has_pair-append :
    (c : ℕ × ℕ) (xs ys : List (ℕ × ℕ)) → has_pair c (xs ++ ys) ≡ (has_pair c xs || has_pair c ys)
has_pair-append c [] ys = refl
has_pair-append c (x ∷ xs) ys = ground (arith, has_pair-append c xs ys)

same_pair_sym : (a b : ℕ × ℕ) → same_pair a b ≡ same_pair b a
same_pair_sym (a, b) (c, d) = ground arith

pub same_pair_eq : (a b : ℕ × ℕ) → same_pair a b ≡ true → a ≡ b
same_pair_eq (a, b) (c, d) h =
    let p : a ≡ c = ground arith in let q : b ≡ d = ground arith in ap₂ (λ (x y : ℕ). (x, y)) p q

-- Two lists that share nothing
pub IsOnce-append :
    (xs ys : List (ℕ × ℕ))
    → IsOnce xs
    → IsOnce ys
    → All (λ y. has_pair y xs ≡ false) ys
    → IsOnce (xs ++ ys)
IsOnce-append [] ys a b apart = b
IsOnce-append (x ∷ xs) ys a b apart = (
  has_pair-append x xs ys ∙ rw (a.0) (absent ys apart),
  IsOnce-append xs ys a.1 b (rest ys apart),
)
  where
    absent : (zs : List (ℕ × ℕ)) → All (λ y. has_pair y (x ∷ xs) ≡ false) zs → has_pair x zs ≡ false
    absent [] h = refl
    absent (z ∷ zs) h =
        let other : same_pair x z ≡ false =
          same_pair_sym x z ∙ (or_false (same_pair z x) (has_pair z xs) h.0).0 in
        rw other (absent zs h.1)

    rest :
        (zs : List (ℕ × ℕ))
        → All (λ y. has_pair y (x ∷ xs) ≡ false) zs
        → All (λ y. has_pair y xs ≡ false) zs
    rest [] h = tt
    rest (z ∷ zs) h = ((or_false (same_pair z x) (has_pair z xs) h.0).1, rest zs h.1)

pub map-append {ℓ κ} :
    {A : Type ℓ} {B : Type κ} (f : A → B) (xs ys : List A) → map f (xs ++ ys) ≡ map f xs ++ map f ys
map-append f [] ys = refl
map-append f (x ∷ xs) ys = ap (λ zs. f x ∷ zs) (map-append f xs ys)

module _ (F : FloatOps) (isfinite : F.Float → Bool)
    (resolved_keys resolved_calls : List (ℕ × ℕ)) where
  abbrev calls : List (Item F isfinite) → List (ℕ × ℕ)
  calls items = map (call_of F isfinite) items

  -- An item that may be scored: its call is not on file, and it has a stop
  abbrev pub IsOpen : Item F isfinite → Type 0
  IsOpen i = (has_pair (call_of F isfinite i) resolved_calls ≡ false) × (is_some i.rec.stop ≡ true)

  abbrev Sound : Found F isfinite → Type 0
  Sound found =
      IsOnce (calls found.0)
      × All IsOpen found.0
      × ((c : ℕ × ℕ) → has_pair c found.1 ≡ has_pair c (calls found.0))

  visit-Sound :
      (row : Run F isfinite) (rec : Rec F isfinite) (found : Found F isfinite)
      → Sound found
      → Sound (visit F isfinite resolved_keys resolved_calls row rec found)
  unfolding visit
  visit-Sound row rec found (once, opens, same) =
      elim (Bool-cases (skips F isfinite resolved_keys resolved_calls row rec found.1)) [
        | inl passed ↦ rw passed (once, opens, same)
        | inr taken ↦ rw taken (
            let item : Item F isfinite = record {
              run_id = row.run_id;
              date = row.date;
              rec = rec;
            } in
            let c : ℕ × ℕ = (rec.ticker, row.date) in
            let clear =
              last_three (not (elem rec.ticker row.signals_generated))
                (has_pair (row.run_id, rec.ticker) resolved_keys) (has_pair c resolved_calls)
                (has_pair c found.1) (is_some rec.stop) taken in
            let more : calls (found.0 ++ item ∷ []) ≡ calls found.0 ++ c ∷ [] =
              map-append (call_of F isfinite) found.0 (item ∷ []) in
            (
              subst IsOnce (sym more) (
                  IsOnce-append (calls found.0) (c ∷ []) once (refl, tt)
                    (sym (same c) ∙ clear.1, tt)),
              All-append IsOpen found.0 (item ∷ []) opens ((clear.0, clear.2), tt),
              λ d.
                  ap (λ b. same_pair d c || b) (same d)
                  ∙ or_comm (same_pair d c) (has_pair d (calls found.0))
                  ∙ sym (ap (has_pair d) more ∙ has_pair-append d (calls found.0) (c ∷ [])),
            ))
      ]
    where
      last_three :
          (a b c d e : Bool)
          → (a || b || c || d || not e) ≡ false
          → (c ≡ false) × (d ≡ false) × (e ≡ true)
      last_three a b c d e h = (ground arith, ground arith, ground arith)

      or_comm : (a b : Bool) → (a || b) ≡ (b || (a || false))
      or_comm a b = ground arith

  recs-Sound :
      (row : Run F isfinite) (recs : List (Rec F isfinite)) (found : Found F isfinite)
      → Sound found
      → Sound (visit_recs F isfinite resolved_keys resolved_calls row recs found)
  recs-Sound row [] found h = h
  recs-Sound row (rec ∷ recs) found h =
      recs-Sound row recs (visit F isfinite resolved_keys resolved_calls row rec found)
        (visit-Sound row rec found h)

  rows-Sound :
      (rows : List (Run F isfinite)) (found : Found F isfinite)
      → Sound found
      → Sound (visit_rows F isfinite resolved_keys resolved_calls rows found)
  rows-Sound [] found h = h
  rows-Sound (row ∷ rows) found h =
      rows-Sound rows
        (visit_recs F isfinite resolved_keys resolved_calls row row.stocks_scored found)
        (recs-Sound row row.stocks_scored found h)

  -- However many runs named it, a call is pending once, and only if it is not on file and has a stop.
  pub pending-IsOnce :
      (rows : List (Run F isfinite))
      → IsOnce (map (call_of F isfinite) (pending F isfinite resolved_keys resolved_calls rows))
        × All IsOpen (pending F isfinite resolved_keys resolved_calls rows)
  unfolding pending
  pending-IsOnce rows =
      let (once, opens, same) = rows-Sound rows ([], []) (tt, tt, λ c. refl) in (once, opens)
