-- ===== src/Jobs/Tests.antt =====
-- jobs.py: runs of the manager, and the theorems at concrete tables.
use prosignal.Prelude.{◌≤◌, ◌≡◌, refl, ap, true, none, some, [], ◌∷◌, arith, length}
use prosignal.Jobs.Defs.{completed, cancelled, queued_label, cancelled_by_user, Job, new_job}
use prosignal.Jobs.Manager.{
  starting, Manager, reap_stale, active_job, get, thread_alive, started, launch, start_idle,
  start_reaped, start, begin, complete, cancel, construct,
}
use prosignal.Jobs.Rows.{live_count}
use prosignal.Jobs.Reap.{IsSingleFlight}
use prosignal.Jobs.Starts.{start-started, start_unblocked}
use prosignal.Jobs.Cancels.{cancel_before_begin}
use prosignal.Jobs.Steps.{starts, here, next}
use prosignal.Jobs.Flight.{single_flight}

abbrev empty : Manager
empty = record { rows = []; thread = none; workers = []; timeout = 900 }

abbrev launched : Manager
launched = record {
  rows = new_job 7 1 100 ∷ [];
  thread = some 7;
  workers = record { job = 7; phase = starting } ∷ [];
  timeout = 900;
}

start_run : start 1 7 100 empty ≡ (launched, started (new_job 7 1 100))
unfolding start start_reaped start_idle launch reap_stale active_job thread_alive
start_run = refl

empty-IsSingleFlight : IsSingleFlight empty
empty-IsSingleFlight = omega arith

launched-IsSingleFlight : IsSingleFlight launched
launched-IsSingleFlight = record { distinct = (refl, tt); one = refl; single = (refl, refl) }

abbrev cancelled_queued : Manager
cancelled_queued = record launched {
  rows =
      record {
        id = 7;
        state = cancelled;
        created_at = 100;
        kind = 1;
        started_at = none;
        finished_at = some 101;
        progress_step = 0;
        progress_total = 9;
        progress_label = queued_label;
        result = none;
        error = some cancelled_by_user;
      }
      ∷ [];
}

single_flight_example :
    (live_count (start 1 7 100 (construct 900 0 [])).0.rows ≤ 1)
    × (length (start 1 7 100 (construct 900 0 [])).0.workers ≤ 1)
single_flight_example =
    single_flight 900 0 (start 1 7 100 (construct 900 0 [])).0 (next here (starts 1 7 100 refl))

start-started_example :
    (live_count (reap_stale 100 empty).0.rows ≡ 0)
    × ((reap_stale 100 empty).0.workers ≡ [])
    × (new_job 7 1 100 ≡ new_job 7 1 100)
    × (get (start 1 7 100 empty).0 7 ≡ some (new_job 7 1 100))
    × ((start 1 7 100 empty).0.workers ≡ record { job = 7; phase = starting } ∷ [])
start-started_example =
    start-started 1 7 100 empty (new_job 7 1 100) empty-IsSingleFlight (ap (λ p. p.1) start_run)

-- The row that a dead process left RUNNING.
abbrev crashed : Manager
crashed = record launched { thread = none; workers = [] }

start_unblocked_example : (start 2 8 1001 crashed).1 ≡ started (new_job 8 2 1001)
start_unblocked_example = start_unblocked 2 8 1001 crashed refl (refl, tt) refl refl

cancel_before_begin_example :
    (i : Job) × (get (complete 7 103 5 (begin 7 102 (cancel 7 101 launched).0)) 7 ≡ some i)
    × ((cancel 7 101 launched).1 ≡ true)
    × (i.state ≡ completed)
    × (i.result ≡ some 5)
unfolding get
cancel_before_begin_example =
    cancel_before_begin 7 101 102 103 5 launched (new_job 7 1 100) refl refl
