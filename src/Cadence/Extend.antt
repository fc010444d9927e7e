-- ===== src/Cadence/Extend.antt =====
-- cadence.py: the clock against the calendar: sessions added later, and dates that it cannot place.
use prosignal.Prelude.{
  ℕ, suc, ◌≡◌, refl, ◌⊎◌, inl, inr, Bool, true, false, none, some, List, [], ◌∷◌, ◌++◌, arith, leb,
  ◌==◌, Bool-cases, Option-cases, get_elem?, any,
}
use prosignal.Prelude.Int.{ℤ}
use prosignal.Cadence.Defs.{blocked_reason, find_index, index_of, anchor_index, resolve_at, resolve}
use prosignal.Cadence.Position.{anchor_index-bisect_left}
use prosignal.Calendar.{TradingCalendar, first_session_on_or_after}

find_index-append :
    (p : ℕ → Bool) (xs ys : List ℕ) (i : ℕ)
    → find_index p xs ≡ some i
    → find_index p (xs ++ ys) ≡ some i
find_index-append p [] ys i h = cc
find_index-append p (x ∷ xs) ys i h = elim (Option-cases (find_index p xs)) [
  | inl missing ↦ ground arith
  | inr (j, found) ↦ ground (arith, find_index-append p xs ys j found)
]

find_index_total :
    (p : ℕ → Bool) (xs : List ℕ) → any p xs ≡ true → (i : ℕ) × (find_index p xs ≡ some i)
find_index_total p [] h = cc
find_index_total p (x ∷ xs) h = elim (Bool-cases (p x)) [
  | inl here ↦ (0, ground arith)
  | inr later ↦ let (i, e) = find_index_total p xs (ground arith) in (suc i, ground arith)
]

find_index-none : (p : ℕ → Bool) (xs : List ℕ) → any p xs ≡ false → find_index p xs ≡ none
find_index-none p [] h = refl
find_index-none p (x ∷ xs) h = ground (arith, find_index-none p xs)

-- Whether a run date opens does not depend on the sessions that the calendar gains later, once it
-- holds the run date and a session on or after the anchor.
pub resolve-append :
    (xs ys : List ℕ) (as_of : ℕ) (c : ℤ) (anchor : ℕ)
    → any (λ s. s == as_of) xs ≡ true
    → any (λ s. leb anchor s) xs ≡ true
    → ((resolve (xs ++ ys) as_of c anchor).is_entry_date
        ≡ (resolve xs as_of c anchor).is_entry_date)
      × ((resolve (xs ++ ys) as_of c anchor).sessions_since_anchor
          ≡ (resolve xs as_of c anchor).sessions_since_anchor)
unfolding resolve resolve_at anchor_index index_of
resolve-append xs ys as_of c anchor hr ha =
    let (ti, t) = find_index_total (λ s. s == as_of) xs hr in
    let (ai, a) = find_index_total (λ s. leb anchor s) xs ha in
    let t' = find_index-append (λ s. s == as_of) xs ys ti t in
    let a' = find_index-append (λ s. leb anchor s) xs ys ai a in (ground arith, ground arith)

-- The clock fails open: entries are open whenever the run date is no session of the calendar, or no
-- session is on or after the anchor, and then no schedule is claimed.
pub resolve_unplaced :
    (xs : List ℕ) (as_of : ℕ) (c : ℤ) (anchor : ℕ)
    → (any (λ s. s == as_of) xs ≡ false) ⊎ (any (λ s. leb anchor s) xs ≡ false)
    → let k = resolve xs as_of c anchor in
      (k.is_entry_date ≡ true)
      × (k.sessions_since_anchor ≡ none)
      × (k.next_entry_date ≡ none)
      × (blocked_reason k ≡ none)
unfolding resolve resolve_at anchor_index index_of blocked_reason
resolve_unplaced xs as_of c anchor h = elim h [
  | inl p ↦
      let e = find_index-none (λ s. s == as_of) xs p in
      elim (Option-cases (find_index (λ s. leb anchor s) xs)) [
        | inl a ↦ ground arith
        | inr (ai, a) ↦ ground arith
      ]
  | inr p ↦ let e = find_index-none (λ s. leb anchor s) xs p in ground arith
]

-- The session that the cadence counts from is the calendar's first session on or after the anchor.
pub anchor_index-first_session_on_or_after :
    (cal : TradingCalendar) (anchor : ℕ)
    → elim (anchor_index cal.sessions anchor) [ none ↦ none | some i ↦ get_elem? cal.sessions i ]
      ≡ first_session_on_or_after cal anchor
unfolding first_session_on_or_after
anchor_index-first_session_on_or_after cal anchor =
    rw (anchor_index-bisect_left cal.sessions anchor) (ground arith)
