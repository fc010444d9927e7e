-- ===== src/Calendar/Shift.antt =====
-- core/calendar.py: `shift`, a move by a signed number of sessions.
use prosignal.Prelude.{
  ℕ, ◌+◌, ◌-◌, ◌≤◌, ◌≡◌, sym, ◌∙◌, ◌↔◌, inl, inr, true, false, ◌&&◌, none, some, arith, ltb, leb,
  if◌then◌else◌, Bool-cases, length, get_elem?, elem, ok, err,
}
use prosignal.Prelude.Int.{ℤ, pos, pos_part, neg_part, sub_ℕ}
use prosignal.Calendar.Defs.{
  data_error, TradingCalendar, is_session, previous_session, next_session, shift,
}
use prosignal.Calendar.Order.{elem_of_get, lt_of_get}
use prosignal.Calendar.Search.{bisect_left_of_get, bisect_right_of_get}
use prosignal.Calendar.Build.{IsValid}
use prosignal.Calendar.Navigate.{get_of_session}

-- The move back by as many sessions.
abbrev pub negate : ℤ → ℤ
negate k = sub_ℕ (neg_part k) (pos_part k)

shift_of_get :
    (cal : TradingCalendar) (i day : ℕ) (k : ℤ)
    → IsValid cal
    → get_elem? cal.sessions i ≡ some day
    → shift cal day k
      ≡ ok (
          if leb (neg_part k) (i + pos_part k)
            && ltb (i + pos_part k) (length cal.sessions + neg_part k)
          then get_elem? cal.sessions (i + pos_part k - neg_part k)
          else none)
unfolding shift
shift_of_get cal i day k v g =
    let member = v.same day ∙ elem_of_get cal.sessions i day g in
    rw (member, bisect_left_of_get cal.sessions i day v.ascending g)

-- On a valid calendar a move that stays inside the calendar is undone by the opposite move.
pub shift-negate :
    (cal : TradingCalendar) (day e : ℕ) (k : ℤ)
    → IsValid cal
    → shift cal day k ≡ ok (some e)
    → shift cal e (negate k) ≡ ok (some day)
shift-negate cal day e k v h = elim (Bool-cases (elem day cal.session_set)) [
  | inl member ↦
      let (i, g) = get_of_session cal day v (unfold is_session in member) in
      let j = i + pos_part k - neg_part k in
      let moved = sym (shift_of_get cal i day k v g) ∙ h in
      let gj : get_elem? cal.sessions j ≡ some e = ground arith in
      let within = lt_of_get cal.sessions i day g in
      ground (arith, shift_of_get cal j e (negate k) v gj)
  | inr outside ↦ unfold shift in ground arith
]

-- From a session, a move forward is `next_session`, and a move back is `previous_session`.
pub shift-next_session :
    (cal : TradingCalendar) (day n : ℕ)
    → IsValid cal
    → is_session cal day ≡ true
    → 1 ≤ n
    → (shift cal day (pos n) ≡ next_session cal day (pos n))
      × (shift cal day (negate (pos n)) ≡ previous_session cal day (pos n))
unfolding next_session previous_session
shift-next_session cal day n v hd h =
    let (i, gi) = get_of_session cal day v hd in
    let l = bisect_left_of_get cal.sessions i day v.ascending gi in
    let r = bisect_right_of_get cal.sessions i day v.ascending gi in
    let within = lt_of_get cal.sessions i day gi in
    (
      ground (arith, shift_of_get cal i day (pos n) v gi),
      ground (arith, shift_of_get cal i day (negate (pos n)) v gi),
    )

-- A move from a date that is no session raises DataError, and from a session it never raises.
pub shift-data_error :
    (cal : TradingCalendar) (day : ℕ) (k : ℤ)
    → (shift cal day k ≡ err data_error) ↔ (is_session cal day ≡ false)
unfolding shift is_session
shift-data_error cal day k = (λ h. ground arith, λ h. ground arith)
