-- ===== src/Calendar/Defs.antt =====
-- core/calendar.py: `TradingCalendar`, its construction, lookups and windows.
use prosignal.Prelude.{
  ℕ, suc, ◌+◌, ◌-◌, Bool, true, false, ◌&&◌, not, Option, none, some, List, [], ◌∷◌, ◌++◌, map, ltb,
  leb, if◌then◌else◌, elem, get_elem?, length, slice, Result, ok, err, ◌>>=◌, ◌>>◌, raise_if,
}
use prosignal.Prelude.Int.{ℤ, pos, negsuc, pos_part, neg_part}

-- What a caller may pass as a session: a date, a datetime (date and microseconds of the day), or
-- a value of another type.
pub data Value : Type 0 where
  date : ℕ → Value
  datetime : ℕ → ℕ → Value
  other : Value

pub data Error : Type 0 where
  type_error value_error data_error : Error

pub record TradingCalendar : Type 0 where
  pub sessions : List ℕ
  pub session_set : List ℕ
  pub approximate : Bool

-- `cleaned.add(s)`
abbrev pub set_add : ℕ → List ℕ → List ℕ
set_add d s = if elem d s then s else d ∷ s

-- The loop of `__init__` over the sessions given.
unfoldable pub clean : List ℕ → List Value → Result Error (List ℕ)
clean acc [] = ok acc
clean acc (date d ∷ vs) = clean (set_add d acc) vs
clean acc (datetime d t ∷ vs) = clean (set_add d acc) vs
clean acc (other ∷ vs) = err type_error

abbrev pub insort : ℕ → List ℕ → List ℕ
insort d [] = d ∷ []
insort d (x ∷ xs) = if leb d x then d ∷ x ∷ xs else x ∷ insort d xs

-- `sorted(cleaned)`
unfoldable pub sorted : List ℕ → List ℕ
sorted [] = []
sorted (x ∷ xs) = insort x (sorted xs)

-- `TradingCalendar(sessions, approximate)`
unfoldable pub new : List Value → Bool → Result Error TradingCalendar
unfolding clean sorted
new vs approximate = do
  cleaned ← clean [] vs
  ok (record { sessions = sorted cleaned; session_set = cleaned; approximate = approximate })

abbrev pub bisect_left : List ℕ → ℕ → ℕ
bisect_left [] d = 0
bisect_left (x ∷ xs) d = if ltb x d then suc (bisect_left xs d) else 0

abbrev pub bisect_right : List ℕ → ℕ → ℕ
bisect_right [] d = 0
bisect_right (x ∷ xs) d = if leb x d then suc (bisect_right xs d) else 0

-- `self._sessions[-1]`
abbrev pub last_of : List ℕ → Option ℕ
last_of [] = none
last_of (x ∷ []) = some x
last_of (x ∷ y ∷ ys) = last_of (y ∷ ys)

abbrev or_empty : Option ℕ → Result Error ℕ
or_empty none = err data_error
or_empty (some d) = ok d

-- `_require_nonempty` and the first or last entry.
unfoldable pub first : TradingCalendar → Result Error ℕ
first cal = or_empty (get_elem? cal.sessions 0)

unfoldable pub last : TradingCalendar → Result Error ℕ
last cal = or_empty (last_of cal.sessions)

unfoldable pub is_session : TradingCalendar → ℕ → Bool
is_session cal day = elem day cal.session_set

unfoldable pub last_session_on_or_before : TradingCalendar → ℕ → Option ℕ
last_session_on_or_before cal day =
    let i = bisect_right cal.sessions day in
    if ltb 0 i then get_elem? cal.sessions (i - 1) else none

unfoldable pub first_session_on_or_after : TradingCalendar → ℕ → Option ℕ
first_session_on_or_after cal day =
    let i = bisect_left cal.sessions day in
    if ltb i (length cal.sessions) then get_elem? cal.sessions i else none

-- `i - n` is negative exactly when `i < n`.
unfoldable pub previous_session : TradingCalendar → ℕ → ℤ → Result Error (Option ℕ)
previous_session cal day (negsuc n) = err value_error
previous_session cal day (pos n) = do
  raise_if (ltb n 1) value_error
  let i = bisect_left cal.sessions day
  ok (if leb n i then get_elem? cal.sessions (i - n) else none)

unfoldable pub next_session : TradingCalendar → ℕ → ℤ → Result Error (Option ℕ)
next_session cal day (negsuc n) = err value_error
next_session cal day (pos n) = do
  raise_if (ltb n 1) value_error
  let j = bisect_right cal.sessions day + n - 1
  ok (if ltb j (length cal.sessions) then get_elem? cal.sessions j else none)

-- `j = i + sessions` and the test `0 <= j < len`, on the two parts of the integer.
unfoldable pub shift : TradingCalendar → ℕ → ℤ → Result Error (Option ℕ)
shift cal day k = do
  raise_if (not (elem day cal.session_set)) data_error
  let i = bisect_left cal.sessions day
  ok (
      if leb (neg_part k) (i + pos_part k)
        && ltb (i + pos_part k) (length cal.sessions + neg_part k)
      then get_elem? cal.sessions (i + pos_part k - neg_part k)
      else none)

unfoldable pub sessions_between : TradingCalendar → ℕ → ℕ → Bool → List ℕ
sessions_between cal start end inclusive =
    let lo = bisect_left cal.sessions start in
    let hi = if inclusive then bisect_right cal.sessions end else bisect_left cal.sessions end in
    slice lo hi cal.sessions

unfoldable pub count_between : TradingCalendar → ℕ → ℕ → Bool → ℕ
unfolding sessions_between
count_between cal start end inclusive = length (sessions_between cal start end inclusive)

-- `busday_count` is numpy's, a parameter.
unfoldable pub sessions_until : (ℕ → ℕ → ℕ) → TradingCalendar → ℕ → ℕ → ℕ
sessions_until busday_count cal as_of target =
    let end : ℕ = elim (last_of cal.sessions) [ none ↦ as_of | some d ↦ d ] in
    if leb target as_of
    then 0
    else if leb target end
    then count_between cal as_of target true - 1
    else (count_between cal as_of end true - 1) + busday_count end target

unfoldable pub trailing_window : TradingCalendar → ℕ → ℤ → Result Error (List ℕ)
trailing_window cal end (negsuc n) = err value_error
trailing_window cal end (pos n) = do
  raise_if (ltb n 1) value_error
  let i = bisect_right cal.sessions end
  ok (slice (i - n) i cal.sessions)

unfoldable pub age_in_sessions : TradingCalendar → ℕ → ℕ → ℕ
age_in_sessions cal timestamp as_of =
    if ltb as_of timestamp then 0 else count_between cal timestamp as_of true - 1

unfoldable pub has_coverage : TradingCalendar → ℕ → ℤ → Result Error Bool
unfolding trailing_window
has_coverage cal end sessions = do
  window ← trailing_window cal end sessions
  ok (leb (pos_part sessions) (length window))

-- The merged calendar is not approximate, whatever the two were.
unfoldable pub merged_with : TradingCalendar → List Value → Result Error TradingCalendar
unfolding new
merged_with cal vs = new (map date cal.sessions ++ vs) false
