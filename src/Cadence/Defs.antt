-- ===== src/Cadence/Defs.antt =====
-- cadence.py: `EntryClock`, `_index_of`, `_anchor_index`, `resolve` and `blocked_reason`.
use prosignal.Prelude.{
  ℕ, suc, ◌+◌, ◌-◌, ◌%◌, max, Bool, true, false, Option, none, some, List, [], ◌∷◌, ltb, leb, ◌==◌,
  if◌then◌else◌, length, get_elem?,
}
use prosignal.Prelude.Int.{ℤ, pos_part}

-- The messages of `resolve`, with what they print.
pub data Reason : Type 0 where
  every_session : Reason
  anchor_beyond_calendar : ℕ → ℕ → Reason
  run_date_no_session : ℕ → ℕ → Reason
  before_anchor : ℕ → ℕ → Reason
  exact_multiple : ℕ → ℕ → ℕ → Reason
  entries_closed : ℕ → ℕ → ℕ → ℕ → Option ℕ → Reason

pub record EntryClock : Type 0 where
  pub cadence_sessions : ℕ
  pub anchor : ℕ
  pub is_entry_date : Bool
  pub sessions_since_anchor : Option ℕ
  pub next_entry_date : Option ℕ
  pub reason : Reason

unfoldable pub blocked_reason : EntryClock → Option Reason
blocked_reason c = if c.is_entry_date then none else some c.reason

-- The position of the first session that passes a test.
abbrev pub find_index : (ℕ → Bool) → List ℕ → Option ℕ
find_index p [] = none
find_index p (s ∷ ss) =
    let rest = find_index p ss in
    if p s then some 0 else elim rest [ none ↦ none | some i ↦ some (suc i) ]

-- `sessions.index(when)`, and the scan that follows it, find the same position.
unfoldable pub index_of : List ℕ → ℕ → Option ℕ
index_of sessions when = find_index (λ s. s == when) sessions

unfoldable pub anchor_index : List ℕ → ℕ → Option ℕ
anchor_index sessions anchor = find_index (λ s. leb anchor s) sessions

abbrev pub open_clock : ℕ → ℕ → Reason → EntryClock
open_clock cadence anchor reason = record {
  cadence_sessions = cadence;
  anchor = anchor;
  is_entry_date = true;
  sessions_since_anchor = none;
  next_entry_date = none;
  reason = reason;
}

-- The part of `resolve` after both positions are known.
unfoldable pub resolve_at : List ℕ → ℕ → ℕ → ℕ → ℕ → ℕ → EntryClock
resolve_at sessions as_of cadence anchor ai ti =
    let since = ti - ai in
    let phase = since % cadence in
    let ahead = cadence - phase in
    let nxt : Option ℕ =
      if ltb (ti + ahead) (length sessions) then get_elem? sessions (ti + ahead) else none in
    if ltb ti ai
    then open_clock cadence anchor (before_anchor as_of anchor)
    else if phase == 0
    then record {
      cadence_sessions = cadence;
      anchor = anchor;
      is_entry_date = true;
      sessions_since_anchor = some since;
      next_entry_date = some as_of;
      reason = exact_multiple since anchor cadence;
    }
    else record {
      cadence_sessions = cadence;
      anchor = anchor;
      is_entry_date = false;
      sessions_since_anchor = some since;
      next_entry_date = nxt;
      reason = entries_closed since anchor phase cadence nxt;
    }

abbrev pub resolve_found : List ℕ → ℕ → ℕ → ℕ → Option ℕ → Option ℕ → EntryClock
resolve_found sessions as_of cadence anchor none ti =
    open_clock cadence anchor (anchor_beyond_calendar cadence anchor)
resolve_found sessions as_of cadence anchor (some ai) none =
    open_clock cadence anchor (run_date_no_session cadence as_of)
resolve_found sessions as_of cadence anchor (some ai) (some ti) =
    resolve_at sessions as_of cadence anchor ai ti

-- `max(int(cadence_sessions), 1)`
abbrev pub clamp_cadence : ℤ → ℕ
clamp_cadence c = max (pos_part c) 1

unfoldable pub resolve : List ℕ → ℕ → ℤ → ℕ → EntryClock
resolve sessions as_of cadence_sessions anchor =
    let cadence = clamp_cadence cadence_sessions in
    if cadence == 1
    then open_clock cadence anchor every_session
    else resolve_found sessions as_of cadence anchor (anchor_index sessions anchor)
        (index_of sessions as_of)
