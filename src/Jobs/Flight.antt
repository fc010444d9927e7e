-- ===== src/Jobs/Flight.antt =====
-- jobs.py: single flight, over every order of the steps.
use prosignal.Prelude.{
  ℕ, ◌+◌, ◌≤◌, ◌≡◌, refl, sym, ap, ◌∙◌, inl, inr, Bool, false, Option, none, some, List, [], ◌∷◌,
  arith, Bool-cases, Option-cases, length, elem, IsSetList,
}
use prosignal.Jobs.Defs.{running, is_terminal, is_live, step_label, Job, update}
use prosignal.Jobs.Manager.{
  Phase, starting, working, leaving, Worker, Manager, ids_of, get, has_id, runs_as, progress,
  set_phase, begin, complete, fail, without_worker, exit, cancel, construct,
}
use prosignal.Jobs.Rows.{
  live_count, live_elsewhere, ids_of-update, live_count-update, live_elsewhere-update,
  live_elsewhere-update_id, live_count-le-elsewhere,
}
use prosignal.Jobs.Reap.{
  OneWorker, SingleLive, IsSingleFlight, SingleLive-mono, reap_stale-IsSingleFlight, workers_cases,
}
use prosignal.Jobs.Starts.{start-IsSingleFlight}
use prosignal.Jobs.Steps.{
  phase_of, Step, starts, cancels, begins, reports, completes, fails, exits, restarts, Reach, here,
  next,
}

OneWorker-set_phase :
    (t : Option ℕ) (k : ℕ) (p : Phase) (ws : List Worker)
    → OneWorker t ws
    → OneWorker t (set_phase k p ws)
OneWorker-set_phase t k p [] h = tt
OneWorker-set_phase t k p (w ∷ []) h = ground arith
OneWorker-set_phase t k p (w ∷ v ∷ ws) h = h

SingleLive-set_phase :
    (k : ℕ) (p : Phase) (ws : List Worker) (js : List Job)
    → SingleLive ws js
    → SingleLive (set_phase k p ws) js
SingleLive-set_phase k p [] js h = h
SingleLive-set_phase k p (w ∷ ws) js h = ground arith

-- A statement of the one worker on its own row.
SingleLive-own_row :
    (k : ℕ) (p : Phase) (set : Job → Job) (t : Option ℕ) (ws : List Worker) (js : List Job)
    → ((j : Job) → (set j).id ≡ j.id)
    → OneWorker t ws
    → phase_of k ws ≡ some p
    → SingleLive ws js
    → SingleLive ws (update (has_id k) set js)
SingleLive-own_row k p set t [] js keeps o alive h = cc
SingleLive-own_row k p set t (w ∷ []) js keeps o alive h =
    let own : w.job ≡ k = ground arith in
    rw own (
      live_elsewhere-update_id k set js keeps ∙ ap (λ i. live_elsewhere i js) (sym own) ∙ h.0,
      ap (elem k) (ids_of-update (has_id k) set keeps js)
          ∙ ap (λ i. elem i (ids_of js)) (sym own)
          ∙ h.1,
    )
SingleLive-own_row k p set t (w ∷ v ∷ ws) js keeps o alive h = absurd o

-- The thread of a job ends.
SingleLive-exit :
    (k : ℕ) (t : Option ℕ) (ws : List Worker) (js : List Job)
    → OneWorker t ws
    → IsSetList (ids_of js)
    → SingleLive ws js
    → SingleLive (without_worker k ws) js
SingleLive-exit k t [] js o d h = h
SingleLive-exit k t (w ∷ []) js o d h = ground (arith, live_count-le-elsewhere w.job js d)
SingleLive-exit k t (w ∷ v ∷ ws) js o d h = absurd o

OneWorker-exit :
    (k : ℕ) (t : Option ℕ) (ws : List Worker) → OneWorker t ws → OneWorker t (without_worker k ws)
OneWorker-exit k t [] o = tt
OneWorker-exit k t (w ∷ []) o = ground arith
OneWorker-exit k t (w ∷ v ∷ ws) o = absurd o

live_count_le_one : (m : Manager) → IsSingleFlight m → live_count m.rows ≤ 1
live_count_le_one m v = elim (workers_cases m v) [
  | inl e ↦ rw e at v.single
  | inr (w, ws, t, elsewhere, row) ↦ omega (arith, live_count-le-elsewhere w.job m.rows v.distinct)
]

-- The statements on the worker's own row.
begin-IsSingleFlight :
    (k now : ℕ) (m : Manager)
    → IsSingleFlight m
    → phase_of k m.workers ≡ some starting
    → IsSingleFlight (begin k now m)
unfolding begin
begin-IsSingleFlight k now m v alive =
    let set = λ (j : Job). record j { state = running; started_at = some now } in
    record {
      distinct = rw (ids_of-update (has_id k) set (λ j. refl) m.rows) v.distinct;
      one = OneWorker-set_phase m.thread k working m.workers v.one;
      single = SingleLive-set_phase k working m.workers (update (has_id k) set m.rows) (
          SingleLive-own_row k starting set m.thread m.workers m.rows (λ j. refl) v.one alive
            v.single);
    }

progress-IsSingleFlight :
    (k step label : ℕ) (m : Manager)
    → IsSingleFlight m
    → phase_of k m.workers ≡ some working
    → IsSingleFlight (progress k step label m)
unfolding progress
progress-IsSingleFlight k step label m v alive =
    let set =
      λ (j : Job). record j { progress_step = step + 1; progress_label = step_label label } in
    record {
      distinct = rw (ids_of-update (has_id k) set (λ j. refl) m.rows) v.distinct;
      one = v.one;
      single =
          SingleLive-own_row k working set m.thread m.workers m.rows (λ j. refl) v.one alive
            v.single;
    }

-- A statement that leaves the rows that it touches terminal.
terminal_statement :
    (test : Job → Bool) (set : Job → Job) (m : Manager)
    → ((j : Job) → (set j).id ≡ j.id)
    → ((j : Job) → is_live (set j).state ≡ false)
    → IsSingleFlight m
    → IsSingleFlight (record m { rows = update test set m.rows })
terminal_statement test set m keeps ends v =
    let same = ids_of-update test set keeps m.rows in
    record {
      distinct = rw same v.distinct;
      one = v.one;
      single =
          SingleLive-mono m.workers m.rows (update test set m.rows) same
            (live_count-update test set keeps m.rows ends)
            (λ k. live_elsewhere-update test set keeps k m.rows ends) v.single;
    }

phase_statement :
    (k : ℕ) (p : Phase) (m : Manager)
    → IsSingleFlight m
    → IsSingleFlight (record m { workers = set_phase k p m.workers })
phase_statement k p m v = record {
  distinct = v.distinct;
  one = OneWorker-set_phase m.thread k p m.workers v.one;
  single = SingleLive-set_phase k p m.workers m.rows v.single;
}

cancel-IsSingleFlight :
    (k now : ℕ) (m : Manager) → IsSingleFlight m → IsSingleFlight (cancel k now m).0
unfolding cancel
cancel-IsSingleFlight k now m v = elim (Option-cases (get m k)) [
  | inl missing ↦ rw missing v
  | inr (j, found) ↦ elim (Bool-cases (is_terminal j.state)) [
    | inl over ↦ rw (found, over) v
    | inr live ↦ rw (found, live) (terminal_statement (has_id k) _ m (λ j. refl) (λ j. refl) v)
  ]
]

-- Every step keeps single flight.
pub Step-IsSingleFlight : {m u : Manager} → IsSingleFlight m → Step m u → IsSingleFlight u
unfolding complete fail exit construct
Step-IsSingleFlight {m} v (starts kind new_id now e) =
    rw e (start-IsSingleFlight kind new_id now m v)
Step-IsSingleFlight {m} v (cancels k now e) = rw e (cancel-IsSingleFlight k now m v)
Step-IsSingleFlight {m} v (begins k now alive e) = rw e (begin-IsSingleFlight k now m v alive)
Step-IsSingleFlight {m} v (reports k step label alive e) =
    rw e (progress-IsSingleFlight k step label m v alive)
Step-IsSingleFlight {m} v (completes k now value alive e) =
    rw e
      (phase_statement k leaving _ (terminal_statement (runs_as k) _ m (λ j. refl) (λ j. refl) v))
Step-IsSingleFlight {m} v (fails k now exc alive e) =
    rw e
      (phase_statement k leaving _ (terminal_statement (runs_as k) _ m (λ j. refl) (λ j. refl) v))
Step-IsSingleFlight {m} v (exits k e) = rw e (record {
  distinct = v.distinct;
  one = OneWorker-exit k m.thread m.workers v.one;
  single = SingleLive-exit k m.thread m.workers m.rows v.one v.distinct v.single;
})
Step-IsSingleFlight {m} v (restarts now e) = rw e (
    reap_stale-IsSingleFlight now (record m { thread = none; workers = [] })
      (record { distinct = v.distinct; one = tt; single = live_count_le_one m v }))

Reach-IsSingleFlight : {m u : Manager} → IsSingleFlight m → Reach m u → IsSingleFlight u
Reach-IsSingleFlight v here = v
Reach-IsSingleFlight v (next r s) = Step-IsSingleFlight (Reach-IsSingleFlight v r) s

-- From an empty table, after any calls, worker statements, thread ends and restarts of the process
-- in any order, at most one job is queued or running, and at most one worker is alive.
pub single_flight :
    (timeout now : ℕ) (m : Manager)
    → Reach (construct timeout now []) m
    → (live_count m.rows ≤ 1) × (length m.workers ≤ 1)
unfolding construct
single_flight timeout now m r =
    let v = Reach-IsSingleFlight (record { distinct = tt; one = tt; single = omega arith }) r in
    (
      live_count_le_one m v,
      elim (workers_cases m v) [
        | inl e ↦ rw e (omega arith)
        | inr (w, ws, t, elsewhere, row) ↦ rw ws (omega arith)
      ],
    )
