-- ===== src/Calendar/Navigate.antt =====
-- core/calendar.py: the lookups of one session from a date.
use prosignal.Prelude.{
  ℕ, ◌+◌, ◌-◌, ◌≤◌, ◌<◌, ◌≡◌, sym, ◌∙◌, ◌⊎◌, inl, inr, true, ◌&&◌, none, some, List, [], ◌∷◌, arith,
  ltb, leb, ltb→lt, leb→le, Bool-cases, length, get_elem?, count, ok,
}
use prosignal.Prelude.Int.{pos}
use prosignal.Calendar.Defs.{
  TradingCalendar, bisect_left, bisect_right, is_session, last_session_on_or_before,
  first_session_on_or_after, previous_session, next_session,
}
use prosignal.Calendar.Order.{IsAscending, elem_of_get, get_of_elem, get_of_lt, lt_of_get}
use prosignal.Calendar.Search.{
  bisect_left-le-length, bisect_right-le-length, lt_of_before-left, le_of_before-right,
  le_of_after-left, lt_of_after-right, bisect_left_of_get, bisect_right_of_get, bisect_left-count,
  bisect_right-count, before-right_of_le, get_mono,
}
use prosignal.Calendar.Build.{IsValid}

-- The sessions after one date, up to another.
unfoldable pub elapsed : TradingCalendar → ℕ → ℕ → ℕ
elapsed cal a b = count (λ s. ltb a s && leb s b) cal.sessions

count_split :
    (a b : ℕ) (xs : List ℕ)
    → a ≤ b
    → count (λ s. leb s b) xs ≡ count (λ s. leb s a) xs + count (λ s. ltb a s && leb s b) xs
count_split a b [] h = omega arith
count_split a b (x ∷ xs) h = ground (arith, count_split a b xs h)

pub count-all :
    (a : ℕ) (xs : List ℕ) → length xs ≡ count (λ s. leb s a) xs + count (λ s. ltb a s) xs
count-all a [] = omega arith
count-all a (x ∷ xs) = ground (arith, count-all a xs)

-- On a valid calendar the bisections differ by the sessions between.
pub bisect_right-elapsed :
    (cal : TradingCalendar) (a b : ℕ)
    → IsValid cal
    → a ≤ b
    → bisect_right cal.sessions b ≡ bisect_right cal.sessions a + elapsed cal a b
unfolding elapsed
bisect_right-elapsed cal a b v h = ground (
  arith,
  bisect_right-count cal.sessions a v.ascending,
  bisect_right-count cal.sessions b v.ascending,
  count_split a b cal.sessions h,
)

pub is_session_of_get :
    (cal : TradingCalendar) (i s : ℕ)
    → IsValid cal
    → get_elem? cal.sessions i ≡ some s
    → is_session cal s ≡ true
unfolding is_session
is_session_of_get cal i s v g = same s ∙ elem_of_get cal.sessions i s g
  where
    open v use {same}

pub get_of_session :
    (cal : TradingCalendar) (s : ℕ)
    → IsValid cal
    → is_session cal s ≡ true
    → (i : ℕ) × (get_elem? cal.sessions i ≡ some s)
unfolding is_session
get_of_session cal s v h = get_of_elem cal.sessions s (sym (v.same s) ∙ h)

get_mono_le :
    (xs : List ℕ) (i j s t : ℕ)
    → IsAscending xs
    → get_elem? xs i ≡ some s
    → get_elem? xs j ≡ some t
    → i ≤ j
    → s ≤ t
get_mono_le xs i j s t a p q h = elim (Bool-cases (ltb i j)) [
  | inl before ↦ omega (arith, get_mono xs i j s t a p q (ltb→lt i j before))
  | inr same ↦ let e : i ≡ j = ground arith in ground arith
]

-- Against every session of a valid calendar: it is after the date, or it is at most the session
-- found, which is itself a session up to the date.
pub last_session_on_or_before-greatest :
    (cal : TradingCalendar) (day t : ℕ)
    → IsValid cal
    → is_session cal t ≡ true
    → (day < t)
      ⊎ ((s : ℕ) × (last_session_on_or_before cal day ≡ some s)
          × (is_session cal s ≡ true)
          × (t ≤ s)
          × (s ≤ day))
unfolding last_session_on_or_before
last_session_on_or_before-greatest cal day t v ht = elim (Bool-cases (ltb day t)) [
  | inl after ↦ inl (ltb→lt day t after)
  | inr upto ↦
      let xs = cal.sessions in
      let i = bisect_right xs day in
      let (j, gj) = get_of_session cal t v ht in
      let before : j < i = before-right_of_le xs day j t v.ascending gj (ground arith) in
      let (s, gs) = get_of_lt xs (i - 1) (omega (arith, bisect_right-le-length xs day)) in
      inr (
        s,
        ground arith,
        is_session_of_get cal (i - 1) s v gs,
        get_mono_le xs j (i - 1) t s v.ascending gj gs (omega arith),
        le_of_before-right xs day (i - 1) s gs (omega arith),
      )
]

-- Against every session of a valid calendar: it is before the date, or it is at least the session
-- found, which is itself a session on or after the date.
pub first_session_on_or_after-least :
    (cal : TradingCalendar) (day t : ℕ)
    → IsValid cal
    → is_session cal t ≡ true
    → (t < day)
      ⊎ ((s : ℕ) × (first_session_on_or_after cal day ≡ some s)
          × (is_session cal s ≡ true)
          × (s ≤ t)
          × (day ≤ s))
unfolding first_session_on_or_after
first_session_on_or_after-least cal day t v ht = elim (Bool-cases (ltb t day)) [
  | inl before ↦ inl (ltb→lt t day before)
  | inr upto ↦
      let xs = cal.sessions in
      let i = bisect_left xs day in
      let (j, gj) = get_of_session cal t v ht in
      let after : i ≤ j = ground (arith, lt_of_before-left xs day j t gj) in
      let (s, gs) = get_of_lt xs i (omega (arith, lt_of_get xs j t gj)) in
      inr (
        s,
        ground (arith, lt_of_get xs j t gj),
        is_session_of_get cal i s v gs,
        get_mono_le xs i j s t v.ascending gs gj after,
        le_of_after-left xs day i s v.ascending gs (omega arith),
      )
]

-- The n-th session after a date, n at least 1: it is a session, after the date, with exactly n
-- sessions from the date to it; and there is none exactly when fewer than n sessions follow.
pub next_session-counts :
    (cal : TradingCalendar) (day n : ℕ)
    → IsValid cal
    → 1 ≤ n
    → ((s : ℕ) × (next_session cal day (pos n) ≡ ok (some s))
        × (is_session cal s ≡ true)
        × (day < s)
        × (elapsed cal day s ≡ n))
      ⊎ ((next_session cal day (pos n) ≡ ok none) × (count (λ s. ltb day s) cal.sessions < n))
unfolding next_session
next_session-counts cal day n v h =
    elim (Bool-cases (ltb (bisect_right cal.sessions day + n - 1) (length cal.sessions))) [
      | inl within ↦
          let xs = cal.sessions in
          let i = bisect_right xs day in
          let (s, gs) = get_of_lt xs (i + n - 1) (ltb→lt _ _ within) in
          let after : day < s =
            lt_of_after-right xs day (i + n - 1) s v.ascending gs (omega arith) in
          inl (
            s,
            ground arith,
            is_session_of_get cal (i + n - 1) s v gs,
            after,
            omega (
              arith,
              bisect_right-elapsed cal day s v (omega arith),
              bisect_right_of_get xs (i + n - 1) s v.ascending gs,
            ),
          )
      | inr beyond ↦ inr (
        ground arith,
        ground (arith, count-all day cal.sessions, bisect_right-count cal.sessions day v.ascending),
      )
    ]

-- The n-th session before a date, n at least 1, likewise.
pub previous_session-counts :
    (cal : TradingCalendar) (day n : ℕ)
    → IsValid cal
    → 1 ≤ n
    → ((s : ℕ) × (previous_session cal day (pos n) ≡ ok (some s))
        × (is_session cal s ≡ true)
        × (s < day)
        × (count (λ t. leb s t && ltb t day) cal.sessions ≡ n))
      ⊎ ((previous_session cal day (pos n) ≡ ok none) × (count (λ t. ltb t day) cal.sessions < n))
unfolding previous_session
previous_session-counts cal day n v h = elim (Bool-cases (leb n (bisect_left cal.sessions day))) [
  | inl within ↦
      let xs = cal.sessions in
      let i = bisect_left xs day in
      let n_le : n ≤ i = leb→le n i within in
      let (s, gs) = get_of_lt xs (i - n) (omega (arith, bisect_left-le-length xs day)) in
      let before : s < day = lt_of_before-left xs day (i - n) s gs (omega arith) in
      inl (
        s,
        ground arith,
        is_session_of_get cal (i - n) s v gs,
        before,
        omega (
          arith,
          count_split_left s day xs (omega arith),
          bisect_left-count xs s v.ascending,
          bisect_left-count xs day v.ascending,
          bisect_left_of_get xs (i - n) s v.ascending gs,
        ),
      )
  | inr beyond ↦ inr (ground arith, ground (arith, bisect_left-count cal.sessions day v.ascending))
]
  where
    count_split_left :
        (a b : ℕ) (xs : List ℕ)
        → a ≤ b
        → count (λ s. ltb s b) xs ≡ count (λ s. ltb s a) xs + count (λ s. leb a s && ltb s b) xs
    count_split_left a b [] h = omega arith
    count_split_left a b (x ∷ xs) h = ground (arith, count_split_left a b xs h)

-- From a session, n sessions forward and then n back is the session itself.
pub previous_session-next_session :
    (cal : TradingCalendar) (day n s : ℕ)
    → IsValid cal
    → is_session cal day ≡ true
    → next_session cal day (pos n) ≡ ok (some s)
    → previous_session cal s (pos n) ≡ ok (some day)
unfolding next_session previous_session
previous_session-next_session cal day n s v hd h =
    let xs = cal.sessions in
    let (i, gi) = get_of_session cal day v hd in
    let r = bisect_right_of_get xs i day v.ascending gi in
    let gs : get_elem? xs (bisect_right xs day + n - 1) ≡ some s = ground arith in
    let l = bisect_left_of_get xs (bisect_right xs day + n - 1) s v.ascending gs in
    let back : bisect_left xs s - n ≡ i = ground arith in ground arith
