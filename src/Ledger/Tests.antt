-- ===== src/Ledger/Tests.antt =====
-- ledger.py: runs on a ledger of two files.
use prosignal.Prelude.{
  ℕ, ◌+◌, ◌*◌, ◌<◌, ◌≡◌, refl, ◌≢◌, ◌↔◌, ◌⊎◌, inl, inr, true, false, none, some, List, [], ◌∷◌, map,
  is_some, length, All, ok, err, Has,
}
use prosignal.Ledger.Defs.{
  live, recorded, Row, blank, malformed, entry, File, iter_rows, trial_count, book_identity,
  disagree, in_lineage, is_before, logged_before, rows_on, newest_on, ambiguous, previous_run,
}
use prosignal.Ledger.Repair.{
  observed_mode, live_rows_on, is_quarantined, target, repair_row, repair_file, repair_lineage,
}
use prosignal.Ledger.Previous.{previous_run-latest}
use prosignal.Ledger.Conflicts.{conflicting_dates, conflicting_dates-ambiguous}
use prosignal.Ledger.Lineage.{evidence, repair_lineage-keeps}
use prosignal.Ledger.Settled.{previous_run-repair_lineage}
use prosignal.Ledger.Book.{newest_on-latest}

abbrev row : ℕ → ℕ → ℕ → List ℕ → Row
row id date logged book = record {
  run_id = id;
  trial_id = some id;
  date = some date;
  logged_day = some logged;
  logged_at = logged * 100 + id;
  mode = none;
  mode_source = recorded;
  signals_generated = book;
  slate_shown = [];
  position_directives = record { ticker = some 77; holds = true } ∷ [];
}

-- A session run twice with different books, one scored weeks later, and one run on the day.
abbrev conflicted : List File
conflicted =
    (entry (row 1 10 10 (5 ∷ [])) ∷ blank ∷ entry (row 2 10 10 (6 ∷ [])) ∷ malformed ∷ [])
    ∷ (entry (row 3 20 20 (7 ∷ 8 ∷ [])) ∷ entry (row 4 21 60 (9 ∷ [])) ∷ [])
    ∷ []

ambiguous_before : previous_run conflicted (some 15) (some live) ≡ err (ambiguous 10 2)
unfolding previous_run rows_on iter_rows disagree book_identity
ambiguous_before = refl

misled_before : previous_run conflicted (some 30) (some live) ≡ ok (some (row 4 21 60 (9 ∷ [])))
unfolding previous_run rows_on iter_rows disagree book_identity
misled_before = refl

repaired_after :
    previous_run (repair_lineage conflicted) none (some live)
    ≡ ok (some (record (row 3 20 20 (7 ∷ 8 ∷ [])) { mode = none }))
unfolding previous_run rows_on iter_rows disagree book_identity repair_lineage repair_file
    repair_row target is_quarantined live_rows_on observed_mode
repaired_after = refl

last_row-Has : Has (row 4 21 60 (9 ∷ [])) (iter_rows conflicted)
unfolding iter_rows
last_row-Has = inr (inr (inr (inl refl)))

third_row-Has : Has (row 3 20 20 (7 ∷ 8 ∷ [])) (iter_rows conflicted)
unfolding iter_rows
third_row-Has = inr (inr (inl refl))

first_row-Has : Has (row 1 10 10 (5 ∷ [])) (iter_rows conflicted)
unfolding iter_rows
first_row-Has = inl refl

previous_run-latest_example :
    (d : ℕ) × Has (row 4 21 60 (9 ∷ [])) (iter_rows conflicted)
    × ((row 4 21 60 (9 ∷ [])).date ≡ some d)
    × (is_before (some 30) d ≡ true)
    × (in_lineage (some live) (row 4 21 60 (9 ∷ [])) ≡ true)
    × ((20 < d)
        ⊎ ((20 ≡ d)
            × (book_identity (row 3 20 20 (7 ∷ 8 ∷ [])) ≡ book_identity (row 4 21 60 (9 ∷ [])))))
previous_run-latest_example =
    previous_run-latest conflicted (some 30) (some live) (row 4 21 60 (9 ∷ []))
      (row 3 20 20 (7 ∷ 8 ∷ [])) 20 misled_before third_row-Has refl

repair_lineage-keeps_example :
    (map evidence (iter_rows (repair_lineage conflicted)) ≡ map evidence (iter_rows conflicted))
    × (trial_count (repair_lineage conflicted) ≡ trial_count conflicted)
repair_lineage-keeps_example = repair_lineage-keeps conflicted

All-observed : All (λ r. is_some (observed_mode r) ≡ true) (iter_rows conflicted)
unfolding iter_rows observed_mode
All-observed = (refl, (refl, (refl, (refl, tt))))

previous_run-repair_lineage_example :
    previous_run (repair_lineage conflicted) (some 15) (some live) ≢ err (ambiguous 10 2)
previous_run-repair_lineage_example =
    previous_run-repair_lineage conflicted (some 15) 10 2 All-observed

newest_of_ten : newest_on conflicted 10 (some live) ≡ some (row 2 10 10 (6 ∷ []))
unfolding newest_on rows_on iter_rows
newest_of_ten = refl

newest_on-latest_example :
    Has (row 2 10 10 (6 ∷ [])) (iter_rows conflicted)
    × ((row 2 10 10 (6 ∷ [])).date ≡ some 10)
    × (in_lineage (some live) (row 2 10 10 (6 ∷ [])) ≡ true)
    × (logged_before (row 2 10 10 (6 ∷ [])) (row 1 10 10 (5 ∷ [])) ≡ false)
newest_on-latest_example =
    newest_on-latest conflicted 10 (some live) (row 2 10 10 (6 ∷ [])) (row 1 10 10 (5 ∷ []))
      newest_of_ten first_row-Has refl refl

conflicting_dates-ambiguous_example : Has 10 (conflicting_dates conflicted (some live)) ↔ (
    previous_run conflicted (some 11) (some live)
    ≡ err (ambiguous 10 (length (rows_on conflicted 10 (some live)))))
conflicting_dates-ambiguous_example = conflicting_dates-ambiguous conflicted (some live) 10
