-- ===== src/Registry/Tests.antt =====
-- validation/registry.py: a register of two trials, one of them without a score, and a campaign of
-- the pass P2, which adds one.
use prosignal.Prelude.{
  ℕ, ◌+◌, ◌*◌, ◌≤◌, ◌≡◌, refl, Option, none, some, List, [], ◌∷◌, ◌++◌, arith, ok,
}
use prosignal.Registry.Defs.{
  pre_v10, v10, Trial, Line, blank, unreadable, entry, as_row, of_blob, find_trial, merge, load,
  trial_total, spent, allocation, wanted, zip_scores, check_budget, record_loop, record_trials,
}
use prosignal.Registry.Scores.{IsKept, load-append}
use prosignal.Registry.Recording.{record_trials-within, record_trials_again}
use prosignal.Registry.Table.{note_all, record_trials-note_all}

abbrev digest : ℕ → ℕ → ℕ
digest command label = 1000 * command + label

abbrev scored_trial : Trial
scored_trial = record {
  key = 1001;
  command = 1;
  label = 1;
  recorded_at = 7;
  score = some 4;
  pass_id = v10 2;
}

abbrev unscored_trial : Trial
unscored_trial = record {
  key = 1002;
  command = 1;
  label = 2;
  recorded_at = 7;
  score = none;
  pass_id = pre_v10;
}

abbrev register : List Line
register = blank ∷ entry (as_row scored_trial) ∷ unreadable ∷ entry (as_row unscored_trial) ∷ []

abbrev rescored : List Line
rescored = entry (as_row (record scored_trial { score = some 9 })) ∷ []

abbrev campaign : List ℕ
campaign = 2 ∷ 3 ∷ 3 ∷ []

abbrev campaign_scores : Option (List (Option ℕ))
campaign_scores = some (some 5 ∷ none ∷ some 6 ∷ [])

abbrev third_trial : Option ℕ → Trial
third_trial s = record {
  key = 1003;
  command = 1;
  label = 3;
  recorded_at = 8;
  score = s;
  pass_id = v10 2;
}

abbrev register_after : List Line
register_after =
    register
    ++ entry (as_row (record unscored_trial { recorded_at = 8; score = some 5 }))
      ∷ entry (as_row (third_trial none))
      ∷ entry (as_row (third_trial (some 6)))
      ∷ []

first_known : find_trial 1001 (load register) ≡ some scored_trial
unfolding load merge as_row of_blob
first_known = refl

recorded :
    record_trials digest register 8 1 campaign campaign_scores (v10 2) ≡ ok (1, register_after)
unfolding record_trials check_budget allocation spent wanted record_loop load merge as_row of_blob
recorded = refl

allocated : allocation (v10 2) ≡ ok 2
unfolding allocation
allocated = refl

within : spent register (v10 2) ≤ 2
unfolding spent load merge as_row of_blob
within = omega arith

load-append_example :
    (u : Trial) × (find_trial 1001 (load (register ++ rescored)) ≡ some u) × IsKept scored_trial u
load-append_example = load-append 1001 register rescored scored_trial first_known

record_trials-within_example : spent register_after (v10 2) ≤ 2
record_trials-within_example =
    record_trials-within digest 1 campaign campaign_scores (v10 2) register register_after 8 1
      recorded (v10 2) 2 allocated within

record_trials_again_example :
    (v : List Line) × (record_trials digest register_after 9 1 campaign campaign_scores (v10 2)
      ≡ ok (0, v))
    × (trial_total v ≡ trial_total register_after)
record_trials_again_example =
    record_trials_again digest 1 campaign campaign_scores (v10 2) register register_after 8 1
      recorded 9

record_trials-note_all_example :
    load register_after
    ≡ note_all digest 1 8 (v10 2) (zip_scores campaign campaign_scores) (load register)
record_trials-note_all_example =
    record_trials-note_all digest register register_after 8 1 1 campaign campaign_scores (v10 2)
      recorded
