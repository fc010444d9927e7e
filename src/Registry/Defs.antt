-- ===== src/Registry/Defs.antt =====
-- validation/registry.py: `Trial`, `TrialRegistry` and the budget. A text is a number, and so is a
-- score, which is only stored; `key_for`, a digest of command and label, is an argument.
use prosignal.Prelude.{
  ℕ, ◌+◌, ◌-◌, Bool, true, false, not, ◌&&◌, Option, none, some, List, [], ◌∷◌, ◌++◌, map, ltb,
  ◌==◌, if◌then◌else◌, is_some, length, get_elem?, filter, elem, count, Result, ok, err, ◌>>=◌,
  ◌>>◌, raise_if,
}

-- `v10 n` is the pass "P<n>".
pub data Pass : Type 0 where
  pre_v10 : Pass
  v10 : ℕ → Pass
  other_pass : ℕ → Pass

abbrev pub same_pass : Pass → Pass → Bool
same_pass pre_v10 pre_v10 = true
same_pass (v10 a) (v10 b) = a == b
same_pass (other_pass a) (other_pass b) = a == b
same_pass _ _ = false

-- `V10_BUDGET`
abbrev pub v10_budget : List ℕ
v10_budget = 0 ∷ 0 ∷ 2 ∷ 12 ∷ 4 ∷ 8 ∷ 4 ∷ 6 ∷ 4 ∷ []

abbrev pub v10_total_budget : ℕ
v10_total_budget = 40

pub record Trial : Type 0 where
  pub key : ℕ
  pub command : ℕ
  pub label : ℕ
  pub recorded_at : ℕ
  pub score : Option ℕ
  pub pass_id : Pass

-- A line's object; a score that is missing, not a number or NaN is `none`.
pub record Blob : Type 0 where
  pub key : ℕ
  pub command : ℕ
  pub label : ℕ
  pub recorded_at : ℕ
  pub score : Option ℕ
  pub pass_id : Option Pass

pub data Line : Type 0 where
  blank unreadable : Line
  entry : Blob → Line

abbrev pub row_pass : Pass → Option Pass
row_pass pre_v10 = none
row_pass p = some p

unfoldable pub as_row : Trial → Blob
as_row t = record {
  key = t.key;
  command = t.command;
  label = t.label;
  recorded_at = t.recorded_at;
  score = t.score;
  pass_id = row_pass t.pass_id;
}

-- The trial of an object whose key is new
unfoldable pub of_blob : Blob → Trial
of_blob b = record {
  key = b.key;
  command = b.command;
  label = b.label;
  recorded_at = b.recorded_at;
  score = b.score;
  pass_id = elim b.pass_id [ none ↦ pre_v10 | some p ↦ p ];
}

abbrev pub find_trial : ℕ → List Trial → Option Trial
find_trial k [] = none
find_trial k (t ∷ ts) = if t.key == k then some t else find_trial k ts

abbrev pub fill_score : Option ℕ → Trial → Trial
fill_score score prior = if is_some prior.score then prior else record prior { score = score }

-- `out[at[key]] = …`: `at` has the place of each key in `out`
abbrev pub fill_at : ℕ → Option ℕ → List Trial → List Trial
fill_at k score [] = []
fill_at k score (t ∷ ts) =
    let rest = fill_at k score ts in if t.key == k then fill_score score t ∷ ts else t ∷ rest

-- One turn of the loop of `load`
unfoldable pub merge : Blob → List Trial → List Trial
merge b out =
    if is_some (find_trial b.key out) then fill_at b.key b.score out else out ++ of_blob b ∷ []

abbrev pub load_from : List Line → List Trial → List Trial
load_from [] out = out
load_from (blank ∷ lines) out = load_from lines out
load_from (unreadable ∷ lines) out = load_from lines out
load_from (entry b ∷ lines) out = load_from lines (merge b out)

unfoldable pub load : List Line → List Trial
load lines = load_from lines []

-- `count`, the method
unfoldable pub trial_total : List Line → ℕ
trial_total lines = length (load lines)

-- `by_pass().get(pass_id, 0)`
unfoldable pub spent : List Line → Pass → ℕ
spent lines p = count (λ t. same_pass t.pass_id p) (load lines)

pub data Fault : Type 0 where
  mismatched : ℕ → ℕ → Fault
  unknown_pass : Pass → Fault
  budget_exceeded : Pass → ℕ → ℕ → ℕ → Fault

unfoldable pub allocation : Pass → Result Fault ℕ
allocation pre_v10 = err (unknown_pass pre_v10)
allocation (other_pass a) = err (unknown_pass (other_pass a))
allocation (v10 n) = elim (get_elem? v10_budget n) [
  | none ↦ err (unknown_pass (v10 n))
  | some a ↦ ok a
]

unfoldable pub remaining : List Line → Pass → Result Fault ℕ
remaining lines p = do a ← allocation p; ok (a - spent lines p)

abbrev pub set_of : List ℕ → List ℕ
set_of [] = []
set_of (k ∷ ks) = let rest = set_of ks in if elem k rest then rest else k ∷ rest

-- `len({key_for(command, l) for l in labels} - set(prior))`
unfoldable pub wanted : List ℕ → List Trial → ℕ
wanted keys prior = length (filter (λ k. not (is_some (find_trial k prior))) (set_of keys))

abbrev pub write_lines : List Trial → List Line
write_lines ts = map (λ t. entry (as_row t)) ts

abbrev pub zip_scores : List ℕ → Option (List (Option ℕ)) → List (ℕ × Option ℕ)
zip_scores [] scores = []
zip_scores (l ∷ ls) none = (l, none) ∷ zip_scores ls none
zip_scores (l ∷ ls) (some []) = (l, none) ∷ zip_scores ls (some [])
zip_scores (l ∷ ls) (some (s ∷ ss)) = (l, s) ∷ zip_scores ls (some ss)

abbrev pub lines_up : List ℕ → Option (List (Option ℕ)) → Bool
lines_up labels none = true
lines_up labels (some ss) = length ss == length labels

abbrev pub score_count : Option (List (Option ℕ)) → ℕ
score_count none = 0
score_count (some ss) = length ss

-- The gate: nothing is written before it
unfoldable pub check_budget : List Line → Pass → List ℕ → Result Fault (Unit {0})
check_budget lines pre_v10 keys = ok tt
check_budget lines p keys = do
  a ← allocation p
  raise_if (ltb a (spent lines p + wanted keys (load lines)))
      (budget_exceeded p a (spent lines p) (wanted keys (load lines)))

module _ (key_for : ℕ → ℕ → ℕ) where
  abbrev pub new_trial : ℕ → ℕ → Pass → ℕ × Option ℕ → Trial
  new_trial command now p (label, score) = record {
    key = key_for command label;
    command = command;
    label = label;
    recorded_at = now;
    score = score;
    pass_id = p;
  }

  -- The loop of `record`: the lines to write, and the number of new configurations
  unfoldable pub record_loop : ℕ → ℕ → Pass → List Trial → List (ℕ × Option ℕ) → List Trial × ℕ
  record_loop command now p prior [] = ([], 0)
  record_loop command now p prior (item ∷ items) =
      elim (find_trial (key_for command item.0) prior) [
        | some seen ↦
            let (fresh, added) = record_loop command now p prior items in
            (
              if not (is_some seen.score) && is_some item.1
                  then new_trial command now seen.pass_id item ∷ fresh
                  else fresh,
              added,
            )
        | none ↦
            let t = new_trial command now p item in
            let (fresh, added) = record_loop command now p (prior ++ t ∷ []) items in
            (t ∷ fresh, added + 1)
      ]

  -- `record`: how many are new, and the lines of the file after it
  unfoldable pub record_trials :
      List Line → ℕ → ℕ → List ℕ → Option (List (Option ℕ)) → Pass → Result Fault (ℕ × List Line)
  record_trials lines now command labels scores p = do
    raise_if (not (lines_up labels scores)) (mismatched (length labels) (score_count scores))
    check_budget lines p (map (key_for command) labels)
    ok (
        let (fresh, added) = record_loop command now p (load lines) (zip_scores labels scores) in
        (added, lines ++ write_lines fresh))
