-- ===== src/Cadence/Schedule.antt =====
-- cadence.py: which sessions the clock opens.
use prosignal.Prelude.{
  ℕ, ◌+◌, ◌-◌, ◌%◌, ◌≤◌, ◌<◌, ◌≡◌, sym, ap, ◌∙◌, inl, inr, true, false, some, List, arith, ◌==◌,
  ==_iff, Bool-cases, Option-cases, get_elem?, elem,
}
use prosignal.Prelude.Int.{ℤ}
use prosignal.Cadence.Defs.{
  index_of, anchor_index, resolve_at, resolve_found, clamp_cadence, resolve,
}
use prosignal.Cadence.Position.{index_of-get, index_of_get}
use prosignal.Calendar.Order.{IsAscending, get_of_elem}
use prosignal.Calendar.Search.{bisect_left_of_get, before-left_of_lt, get_mono}
use native.Mathlib.Nat.{mod-lt, mod-eq_of_lt, mod-add-mod, mod_self}

-- Where the calendar places both dates, the clock is the one of the two positions.
resolve_placed :
    (xs : List ℕ) (as_of : ℕ) (c : ℤ) (anchor ai ti : ℕ)
    → 1 < clamp_cadence c
    → anchor_index xs anchor ≡ some ai
    → index_of xs as_of ≡ some ti
    → resolve xs as_of c anchor ≡ resolve_at xs as_of (clamp_cadence c) anchor ai ti
unfolding resolve
resolve_placed xs as_of c anchor ai ti h pa pt =
    let slow : (clamp_cadence c == 1) ≡ false = ground arith in rw (slow, pa, pt, resolve_found)

-- A closed clock comes from two positions that are not a multiple of the cadence apart.
pub record Closed (xs : List ℕ) (as_of : ℕ) (c : ℤ) (anchor : ℕ) : Type 0 where
  pub ai : ℕ
  pub ti : ℕ
  pub slow : 1 < clamp_cadence c
  pub anchored : anchor_index xs anchor ≡ some ai
  pub placed : index_of xs as_of ≡ some ti
  pub started : ai ≤ ti
  pub off_phase : 0 < (ti - ai) % clamp_cadence c

closed_at :
    (xs : List ℕ) (as_of cadence anchor ai ti : ℕ)
    → (resolve_at xs as_of cadence anchor ai ti).is_entry_date ≡ false
    → (ai ≤ ti) × (0 < (ti - ai) % cadence)
unfolding resolve_at
closed_at xs as_of cadence anchor ai ti h = ground arith

pub Closed-cases :
    (xs : List ℕ) (as_of : ℕ) (c : ℤ) (anchor : ℕ)
    → (resolve xs as_of c anchor).is_entry_date ≡ false
    → Closed xs as_of c anchor
unfolding resolve
Closed-cases xs as_of c anchor h = elim (Bool-cases (clamp_cadence c == 1)) [
  | inl fast ↦ ground arith
  | inr slow ↦ elim (Option-cases (anchor_index xs anchor)) [
    | inl beyond ↦ ground arith
    | inr (ai, pa) ↦ elim (Option-cases (index_of xs as_of)) [
      | inl missing ↦ ground arith
      | inr (ti, pt) ↦
          let more : 1 < clamp_cadence c = ground arith in
          let at = sym (resolve_placed xs as_of c anchor ai ti more pa pt) in
          let (started, off) =
            closed_at xs as_of (clamp_cadence c) anchor ai ti (ap (λ k. k.is_entry_date) at ∙ h) in
          record {
            ai = ai;
            ti = ti;
            slow = more;
            anchored = pa;
            placed = pt;
            started = started;
            off_phase = off;
          }
    ]
  ]
]

-- The remainders up to the next multiple of the cadence.
mod_ahead : (n k : ℕ) → 1 < k → (n + (k - n % k)) % k ≡ 0
mod_ahead n k p =
    let full : n % k + (k - n % k) ≡ k = omega (arith, mod-lt n {m = k} (omega arith)) in
    sym (mod-add-mod n k (k - n % k)) ∙ ap (λ t. t % k) full ∙ mod_self k

mod_before : (n k j : ℕ) → 1 < k → 0 < j → j < k - n % k → 0 < (n + j) % k
mod_before n k j p q r =
    let small : (n % k + j) % k ≡ n % k + j = mod-eq_of_lt (omega arith) in
    omega (arith, mod-add-mod n k j, small)

-- On an ascending list, an open session is a whole number of cadences after the anchor's.
pub resolve_get :
    (xs : List ℕ) (c : ℤ) (anchor ai i s : ℕ)
    → IsAscending xs
    → 1 < clamp_cadence c
    → anchor_index xs anchor ≡ some ai
    → get_elem? xs i ≡ some s
    → ai ≤ i
    → (resolve xs s c anchor).is_entry_date ≡ ((i - ai) % clamp_cadence c == 0)
resolve_get xs c anchor ai i s a slow anchored g h =
    let placed = index_of_get xs s i a g in
    ap (λ k. k.is_entry_date) (resolve_placed xs s c anchor ai i slow anchored placed)
    ∙ unfold resolve_at in ground arith

next_of_Closed :
    (xs : List ℕ) (as_of : ℕ) (c : ℤ) (anchor d : ℕ)
    → (k : Closed xs as_of c anchor) → (resolve xs as_of c anchor).next_entry_date ≡ some d
    → get_elem? xs (k.ti + (clamp_cadence c - (k.ti - k.ai) % clamp_cadence c)) ≡ some d
next_of_Closed xs as_of c anchor d k h =
    let at = resolve_placed xs as_of c anchor k.ai k.ti k.slow k.anchored k.placed in
    let e = sym (ap (λ r. r.next_entry_date) at) ∙ h in
    next_at xs as_of (clamp_cadence c) anchor k.ai k.ti d k.started k.off_phase e
  where
    next_at :
        (xs : List ℕ) (as_of cadence anchor ai ti d : ℕ)
        → ai ≤ ti
        → 0 < (ti - ai) % cadence
        → (resolve_at xs as_of cadence anchor ai ti).next_entry_date ≡ some d
        → get_elem? xs (ti + (cadence - (ti - ai) % cadence)) ≡ some d
    next_at xs as_of cadence anchor ai ti d p q h = unfold resolve_at in ground arith

-- On an ascending calendar, the date that a closed clock announces is after the run date, and
-- entries are open on it.
pub next_entry_date-opens :
    (xs : List ℕ) (as_of : ℕ) (c : ℤ) (anchor d : ℕ)
    → IsAscending xs
    → (resolve xs as_of c anchor).is_entry_date ≡ false
    → (resolve xs as_of c anchor).next_entry_date ≡ some d
    → (as_of < d) × ((resolve xs d c anchor).is_entry_date ≡ true)
next_entry_date-opens xs as_of c anchor d a h n =
    let k = Closed-cases xs as_of c anchor h in
    let cad = clamp_cadence c in
    let since = k.ti - k.ai in
    let j = k.ti + (cad - since % cad) in
    let gd : get_elem? xs j ≡ some d = next_of_Closed xs as_of c anchor d k n in
    let g = index_of-get xs as_of k.ti k.placed in
    let more : 0 < cad - since % cad =
      omega (arith, mod-lt since {m = cad} (omega (arith, k.slow)), k.slow) in
    let split : j - k.ai ≡ since + (cad - since % cad) = omega (arith, k.started) in
    (
      get_mono xs k.ti j as_of d a g gd (omega arith),
      resolve_get xs c anchor k.ai j d a k.slow k.anchored gd (omega (arith, k.started))
          ∙ (==_iff ((j - k.ai) % cad) 0).1 (ap (λ t. t % cad) split ∙ mod_ahead since cad k.slow),
    )

-- On an ascending calendar every session strictly between a closed run date and the date that it
-- announces is closed too, so the announced date is the next one that opens.
pub next_entry_date-first :
    (xs : List ℕ) (as_of : ℕ) (c : ℤ) (anchor d t : ℕ)
    → IsAscending xs
    → (resolve xs as_of c anchor).is_entry_date ≡ false
    → (resolve xs as_of c anchor).next_entry_date ≡ some d
    → elem t xs ≡ true
    → as_of < t
    → t < d
    → (resolve xs t c anchor).is_entry_date ≡ false
next_entry_date-first xs as_of c anchor d t a h n m p q =
    let k = Closed-cases xs as_of c anchor h in
    let cad = clamp_cadence c in
    let since = k.ti - k.ai in
    let j = k.ti + (cad - since % cad) in
    let gd : get_elem? xs j ≡ some d = next_of_Closed xs as_of c anchor d k n in
    let g = index_of-get xs as_of k.ti k.placed in
    let (i, gi) = get_of_elem xs t m in
    let after : k.ti < i = lt_of_dates xs k.ti i as_of t a g gi p in
    let before : i < j = lt_of_dates xs i j t d a gi gd q in
    let off = mod_before since cad (i - k.ti) k.slow (omega arith) (omega arith) in
    let split : i - k.ai ≡ since + (i - k.ti) = omega (arith, k.started) in
    resolve_get xs c anchor k.ai i t a k.slow k.anchored gi (omega (arith, k.started))
    ∙ ground (arith, ap (λ r. r % cad) split)
  where
    lt_of_dates :
        (xs : List ℕ) (i j s t : ℕ)
        → IsAscending xs
        → get_elem? xs i ≡ some s
        → get_elem? xs j ≡ some t
        → s < t
        → i < j
    lt_of_dates xs i j s t a p q h =
        rw (← bisect_left_of_get xs j t a q) (before-left_of_lt xs t i s a p h)
