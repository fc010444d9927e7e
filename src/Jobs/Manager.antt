-- ===== src/Jobs/Manager.antt =====
-- jobs.py: the methods of `JobManager`, and the statements of its worker thread.
use prosignal.Prelude.{
  ℕ, ◌+◌, Bool, true, false, ◌&&◌, ◌||◌, Option, none, some, List, [], ◌∷◌, ◌++◌, ltb, ◌==◌,
  if◌then◌else◌, length, filter, elem,
}
use prosignal.Jobs.Defs.{
  running, completed, failed, cancelled, is_terminal, is_live, is_completed, is_running,
  complete_label, step_label, timed_out, cancelled_by_user, raised, Job, new_job, update, select_id,
  select_latest,
}

-- A worker thread runs `_execute`: before its first statement, in the runner, or past its last one.
pub data Phase : Type 0 where
  starting working leaving : Phase

pub record Worker : Type 0 where
  pub job : ℕ
  pub phase : Phase

-- `thread` is the job of `self._thread` (`_thread_job_id`), and `workers` are the threads alive.
pub record Manager : Type 0 where
  pub rows : List Job
  pub thread : Option ℕ
  pub workers : List Worker
  pub timeout : ℕ

-- `created_at < now - timeout`, of a live row
abbrev pub is_stale : ℕ → ℕ → Job → Bool
is_stale now timeout j = is_live j.state && ltb (j.created_at + timeout) now

-- The ids that the SELECT of `reap_stale` returns.
abbrev pub ids_of : List Job → List ℕ
ids_of [] = []
ids_of (j ∷ js) = j.id ∷ ids_of js

abbrev pub timed_out_at : ℕ → Job → Job
timed_out_at now j = record j { state = failed; finished_at = some now; error = some timed_out }

unfoldable pub reap_stale : ℕ → Manager → Manager × ℕ
reap_stale now m =
    let ids = ids_of (filter (is_stale now m.timeout) m.rows) in
    (record m { rows = update (λ j. elem j.id ids) (timed_out_at now) m.rows }, length ids)

unfoldable pub active_job : Manager → Option Job
active_job m = select_latest (λ j. j.created_at) (filter (λ j. is_live j.state) m.rows)

unfoldable pub get : Manager → ℕ → Option Job
get m k = select_id k m.rows

-- `self._thread is not None and self._thread.is_alive()`
abbrev pub works_on : ℕ → List Worker → Bool
works_on k [] = false
works_on k (w ∷ ws) = (w.job == k) || works_on k ws

unfoldable pub thread_alive : Manager → Bool
thread_alive m = elim m.thread [ none ↦ false | some k ↦ works_on k m.workers ]

-- What `start` returns or raises.
pub data Started : Type 0 where
  started : Job → Started
  already_running : Job → Started
  job_busy : Job → ℕ → Bool → Started
  integrity_error : Started

-- The insertion, with the primary key of the table, and the start of the thread.
unfoldable pub launch : ℕ → ℕ → ℕ → Manager → Manager × Started
launch kind new_id now m = if elem new_id (ids_of m.rows) then (m, integrity_error) else (
  record m {
    rows = m.rows ++ new_job new_id kind now ∷ [];
    thread = some new_id;
    workers = record { job = new_id; phase = starting } ∷ m.workers;
  },
  started (new_job new_id kind now),
)

-- No live row: the previous worker may still be alive.
unfoldable pub start_idle : ℕ → ℕ → ℕ → Manager → Manager × Started
start_idle kind new_id now m =
    let orphan : Option Job = elim m.thread [ none ↦ none | some k ↦ get m k ] in
    if thread_alive m
    then elim orphan [ some j ↦ (m, job_busy j kind true) | none ↦ launch kind new_id now m ]
    else launch kind new_id now m

-- `start` after `reap_stale`.
unfoldable pub start_reaped : ℕ → ℕ → ℕ → Manager → Manager × Started
start_reaped kind new_id now m = elim (active_job m) [
  | some j ↦ (m, if j.kind == kind then already_running j else job_busy j kind false)
  | none ↦ start_idle kind new_id now m
]

-- `new_id` is the fresh `uuid4().hex[:12]`.
unfoldable pub start : ℕ → ℕ → ℕ → Manager → Manager × Started
start kind new_id now m = start_reaped kind new_id now (reap_stale now m).0

abbrev pub has_id : ℕ → Job → Bool
has_id k j = j.id == k

-- `WHERE id=? AND state='RUNNING'`
abbrev pub runs_as : ℕ → Job → Bool
runs_as k j = (j.id == k) && is_running j.state

unfoldable pub progress : ℕ → ℕ → ℕ → Manager → Manager
progress k step label m = record m {
  rows =
      update (has_id k)
        (λ j. record j { progress_step = step + 1; progress_label = step_label label }) m.rows;
}

abbrev pub set_phase : ℕ → Phase → List Worker → List Worker
set_phase k p [] = []
set_phase k p (w ∷ ws) =
    (if w.job == k then record { job = w.job; phase = p } else w) ∷ set_phase k p ws

-- The statements of `_execute`: the first, that of a runner that returned, that of one that raised.
unfoldable pub begin : ℕ → ℕ → Manager → Manager
begin k now m = record m {
  rows = update (has_id k) (λ j. record j { state = running; started_at = some now }) m.rows;
  workers = set_phase k working m.workers;
}

unfoldable pub complete : ℕ → ℕ → ℕ → Manager → Manager
complete k now value m = record m {
  rows =
      update (runs_as k)
        (λ j. record j {
          state = completed;
          finished_at = some now;
          result = some value;
          progress_step = j.progress_total;
          progress_label = complete_label;
        })
        m.rows;
  workers = set_phase k leaving m.workers;
}

unfoldable pub fail : ℕ → ℕ → ℕ → Manager → Manager
fail k now exc m = record m {
  rows =
      update (runs_as k)
        (λ j. record j { state = failed; finished_at = some now; error = some (raised exc) })
        m.rows;
  workers = set_phase k leaving m.workers;
}

-- The thread ends.
abbrev pub without_worker : ℕ → List Worker → List Worker
without_worker k [] = []
without_worker k (w ∷ ws) = let rest = without_worker k ws in if w.job == k then rest else w ∷ rest

unfoldable pub exit : ℕ → Manager → Manager
exit k m = record m { workers = without_worker k m.workers }

abbrev cancel_found : ℕ → ℕ → Manager → Option Job → Manager × Bool
cancel_found k now m none = (m, false)
cancel_found k now m (some j) = if is_terminal j.state then (m, false) else (
  record m {
    rows =
        update (has_id k)
          (λ i. record i {
            state = cancelled;
            finished_at = some now;
            error = some cancelled_by_user;
          })
          m.rows;
  },
  true,
)

unfoldable pub cancel : ℕ → ℕ → Manager → Manager × Bool
unfolding is_terminal get
cancel k now m = cancel_found k now m (get m k)

-- `ORDER BY finished_at DESC`; a completed row has a finish time.
abbrev finished_or_zero : Job → ℕ
finished_or_zero j = elim j.finished_at [ none ↦ 0 | some t ↦ t ]

unfoldable pub last_completed : Manager → Option Job
last_completed m = select_latest finished_or_zero (filter (λ j. is_completed j.state) m.rows)

-- A new process over the same table: no thread, and the stale rows reaped.
unfoldable pub construct : ℕ → ℕ → List Job → Manager
unfolding reap_stale
construct timeout now rows =
    (reap_stale now (record { rows = rows; thread = none; workers = []; timeout = timeout })).0
