-- ===== src/Ledger/Repair.antt =====
-- ledger.py: `_observed_mode` and `repair_lineage`. The backup and the replacement of a file are
-- the file system's; a file is written only if a line of it changed.
use prosignal.Prelude.{
  ℕ, ◌+◌, ◌-◌, Bool, true, false, ◌&&◌, Option, none, some, List, [], ◌∷◌, map, ltb, leb,
  if◌then◌else◌, filter,
}
use prosignal.Ledger.Defs.{
  Mode, live, replay, quarantine, same_mode, Source, timestamps, timestamps_disagree, Row, blank,
  malformed, entry, File, iter_rows, disagree, mode_of, is_on,
}

abbrev pub live_recording_lag_days : ℕ
live_recording_lag_days = 1

unfoldable pub observed_mode : Row → Option Mode
observed_mode r = elim r.logged_day [
  | none ↦ none
  | some logged ↦ elim r.date [
    | none ↦ none
    | some market ↦
        if ltb logged market
        then none
        else if leb (logged - market) live_recording_lag_days
        then some live
        else some replay
  ]
]

abbrev pub is_live : Option Mode → Bool
is_live (some live) = true
is_live _ = false

-- `by_day[when]`
unfoldable pub live_rows_on : ℕ → List Row → List Row
live_rows_on when rows = filter (λ r. is_live (observed_mode r) && is_on when r) rows

-- `when in quarantined`
unfoldable pub is_quarantined : List Row → Option ℕ → Bool
is_quarantined rows none = false
is_quarantined rows (some when) = disagree (live_rows_on when rows)

-- The lineage that the timestamps prove
unfoldable pub target : List Row → Row → Option Mode
target rows r = elim (observed_mode r) [
  | none ↦ none
  | some m ↦ if is_live (some m) && is_quarantined rows r.date then some quarantine else some m
]

abbrev pub source_of : Mode → Source
source_of quarantine = timestamps_disagree
source_of _ = timestamps

-- The line written for a row, and whether it changed
unfoldable pub repair_row : List Row → Row → Row × Bool
repair_row rows r = elim (target rows r) [
  | none ↦ (r, false)
  | some t ↦
      if same_mode (mode_of r) t
      then (r, false)
      else (record r { mode = some t; mode_source = source_of t }, true)
]

-- `out_lines` and `changed` of one file: blank lines are left out
abbrev pub repair_lines : List Row → File → File × ℕ
repair_lines rows [] = ([], 0)
repair_lines rows (blank ∷ lines) = repair_lines rows lines
repair_lines rows (malformed ∷ lines) =
    let (out, changed) = repair_lines rows lines in (malformed ∷ out, changed)
repair_lines rows (entry r ∷ lines) =
    let (out, changed) = repair_lines rows lines in
    let (r', hit) = repair_row rows r in (entry r' ∷ out, if hit then changed + 1 else changed)

unfoldable pub repair_file : List Row → File → File
repair_file rows file =
    let (out, changed) = repair_lines rows file in if leb changed 0 then file else out

-- `repair_lineage(dry_run=False)`
unfoldable pub repair_lineage : List File → List File
repair_lineage files = map (repair_file (iter_rows files)) files
