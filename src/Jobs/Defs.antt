-- ===== src/Jobs/Defs.antt =====
-- jobs.py: `JobState`, `Job`, and the statements that the manager runs on the table `jobs`.
-- Ids, kinds, labels and results are only stored and compared, so they are numbers; a time is a
-- number that grows with the clock.
use prosignal.Prelude.{
  ℕ, Bool, true, false, Option, none, some, List, [], ◌∷◌, ltb, ◌==◌, if◌then◌else◌,
}

pub data JobState : Type 0 where
  queued running completed failed cancelled : JobState

unfoldable pub is_terminal : JobState → Bool
is_terminal completed = true
is_terminal failed = true
is_terminal cancelled = true
is_terminal _ = false

-- `state IN ('QUEUED', 'RUNNING')`
abbrev pub is_live : JobState → Bool
is_live queued = true
is_live running = true
is_live _ = false

abbrev pub is_completed : JobState → Bool
is_completed completed = true
is_completed _ = false

abbrev pub is_running : JobState → Bool
is_running running = true
is_running _ = false

pub data Label : Type 0 where
  queued_label complete_label : Label
  step_label : ℕ → Label

pub data Failure : Type 0 where
  timed_out cancelled_by_user : Failure
  raised : ℕ → Failure

pub record Job : Type 0 where
  pub id : ℕ
  pub state : JobState
  pub created_at : ℕ
  pub kind : ℕ
  pub started_at : Option ℕ
  pub finished_at : Option ℕ
  pub progress_step : ℕ
  pub progress_total : ℕ
  pub progress_label : Label
  pub result : Option ℕ
  pub error : Option Failure

-- `INSERT INTO jobs (id, kind, state, created_at, progress_label)`: the rest are the defaults.
abbrev pub new_job : ℕ → ℕ → ℕ → Job
new_job id kind now = record {
  id = id;
  state = queued;
  created_at = now;
  kind = kind;
  started_at = none;
  finished_at = none;
  progress_step = 0;
  progress_total = 9;
  progress_label = queued_label;
  result = none;
  error = none;
}

-- `UPDATE jobs SET ... WHERE ...`
abbrev pub update : (Job → Bool) → (Job → Job) → List Job → List Job
update test set [] = []
update test set (j ∷ js) = (if test j then set j else j) ∷ update test set js

-- `SELECT * FROM jobs WHERE id=?`
abbrev pub select_id : ℕ → List Job → Option Job
select_id k [] = none
select_id k (j ∷ js) = if j.id == k then some j else select_id k js

-- `... ORDER BY key DESC LIMIT 1`, the first of equal keys
abbrev pub newer : (Job → ℕ) → Job → Option Job → Option Job
newer key j none = some j
newer key j (some best) = if ltb (key j) (key best) then some best else some j

abbrev pub select_latest : (Job → ℕ) → List Job → Option Job
select_latest key [] = none
select_latest key (j ∷ js) = newer key j (select_latest key js)
