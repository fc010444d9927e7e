-- ===== src/Calendar/Age.antt =====
-- core/calendar.py: distances in sessions between two dates.
use prosignal.Prelude.{
  ℕ, ◌+◌, ◌-◌, ◌≤◌, ◌≡◌, refl, sym, ◌∙◌, inl, inr, true, false, ◌&&◌, some, List, [], ◌∷◌, arith,
  ltb, leb, ◌==◌, if◌then◌else◌, Bool-cases, length, filter, elem, count, ok,
}
use prosignal.Calendar.Defs.{
  TradingCalendar, last_of, last, is_session, count_between, sessions_until, age_in_sessions,
}
use prosignal.Calendar.Order.{IsAscending, Above-elem}
use prosignal.Calendar.Build.{IsValid}
use prosignal.Calendar.Navigate.{elapsed}
use prosignal.Calendar.Window.{in_range, sessions_between-filter}

range-elapsed :
    (a b : ℕ) (xs : List ℕ)
    → IsAscending xs
    → a ≤ b
    → length (filter (in_range a b true) xs)
      ≡ count (λ s. ltb a s && leb s b) xs + (if elem a xs then 1 else 0)
range-elapsed a b [] asc h = omega arith
range-elapsed a b (x ∷ xs) asc h = elim (Bool-cases (a == x)) [
  | inl e ↦
      let absent : elem a xs ≡ false = ground (arith, Above-elem x a xs asc.0) in
      ground (arith, range-elapsed a b xs asc.1 h)
  | inr n ↦ ground (arith, range-elapsed a b xs asc.1 h)
]

count_between-elapsed :
    (cal : TradingCalendar) (a b : ℕ)
    → IsValid cal
    → a ≤ b
    → count_between cal a b true ≡ elapsed cal a b + (if is_session cal a then 1 else 0)
unfolding count_between elapsed is_session
count_between-elapsed cal a b v h =
    rw (sessions_between-filter cal a b true v, v.same a)
      (range-elapsed a b cal.sessions v.ascending h)

elapsed_back : (cal : TradingCalendar) (a b : ℕ) → b ≤ a → elapsed cal a b ≡ 0
unfolding elapsed
elapsed_back cal a b h = none_after cal.sessions
  where
    none_after : (xs : List ℕ) → count (λ s. ltb a s && leb s b) xs ≡ 0
    none_after [] = refl
    none_after (x ∷ xs) = ground (arith, none_after xs)

-- The age of a feed is the number of sessions after its date up to `as_of`, less one where its date
-- is no session.
pub age_in_sessions-elapsed :
    (cal : TradingCalendar) (timestamp as_of : ℕ)
    → IsValid cal
    → age_in_sessions cal timestamp as_of
      ≡ elapsed cal timestamp as_of - (if is_session cal timestamp then 0 else 1)
unfolding age_in_sessions
age_in_sessions-elapsed cal timestamp as_of v = elim (Bool-cases (ltb as_of timestamp)) [
  | inl future ↦ ground (arith, elapsed_back cal timestamp as_of)
  | inr past ↦ ground (arith, count_between-elapsed cal timestamp as_of v)
]

last-greatest :
    (xs : List ℕ) (d e : ℕ) → IsAscending xs → last_of xs ≡ some e → elem d xs ≡ true → d ≤ e
last-greatest [] d e a l m = cc
last-greatest (x ∷ []) d e a l m = ground arith
last-greatest (x ∷ y ∷ ys) d e a l m =
    ground (arith, last-greatest (y ∷ ys) d e a.1 l, last-greatest (y ∷ ys) y e a.1 l)

-- From a session, the distance to a date inside the calendar is the number of sessions after the
-- one up to the other; past the last session it is the sessions that are left and the business
-- days beyond.
pub sessions_until-elapsed :
    (busday_count : ℕ → ℕ → ℕ) (cal : TradingCalendar) (as_of target end : ℕ)
    → IsValid cal
    → is_session cal as_of ≡ true
    → last cal ≡ ok end
    → sessions_until busday_count cal as_of target ≡ (
        if leb target end
        then elapsed cal as_of target
        else elapsed cal as_of end + busday_count end target)
unfolding sessions_until last
sessions_until-elapsed busday_count cal as_of target end v s l =
    let e : last_of cal.sessions ≡ some end = ground arith in
    let m : elem as_of cal.sessions ≡ true = unfold is_session in (sym (v.same as_of) ∙ s) in
    let within = last-greatest cal.sessions as_of end v.ascending e m in
    ground (
      arith,
      elapsed_back cal as_of target,
      count_between-elapsed cal as_of target v,
      count_between-elapsed cal as_of end v,
    )
