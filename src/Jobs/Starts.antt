-- ===== src/Jobs/Starts.antt =====
-- jobs.py: `start`, against the invariant.
use prosignal.Prelude.{
  ℕ, ◌+◌, ◌≡◌, refl, ap, ◌∙◌, ◌⊎◌, inl, inr, true, false, not, ◌||◌, some, List, [], ◌∷◌, map,
  arith, ltb, ◌==◌, if◌then◌else◌, Bool-cases, Option-cases, all, IsSetList,
}
use prosignal.Jobs.Defs.{is_live, Job, new_job}
use prosignal.Jobs.Manager.{
  starting, Worker, Manager, ids_of, reap_stale, active_job, get, thread_alive, started,
  already_running, job_busy, integrity_error, launch, start_idle, start_reaped, start,
}
use prosignal.Jobs.Rows.{
  live_count, present, live_elsewhere-le-live_count, live_elsewhere-insert, present-insert,
  ids_distinct-insert, select_id-present, select_id-insert, live_count_of_none, filter_of_no_live,
}
use prosignal.Jobs.Reap.{
  IsSingleFlight, reap_stale-IsSingleFlight, reaped, reap_stale-map, workers_cases,
}

idle_workers : (m : Manager) → IsSingleFlight m → thread_alive m ≡ false → m.workers ≡ []
unfolding thread_alive
idle_workers m v h = elim (workers_cases m v) [ inl e ↦ e | inr (w, ws, t, l, p) ↦ ground arith ]

-- A thread that is alive has its row in the table, so `start` sees the orphan.
orphan_found :
    (m : Manager)
    → IsSingleFlight m
    → thread_alive m ≡ true
    → (w : Worker) × (j : Job) × (m.thread ≡ some w.job) × (get m w.job ≡ some j)
unfolding thread_alive get
orphan_found m v h = elim (workers_cases m v) [
  | inl e ↦ elim (Option-cases m.thread) [ inl t ↦ ground arith | inr (k, t) ↦ ground arith ]
  | inr (w, ws, t, l, p) ↦ let (j, found, e) = select_id-present w.job m.rows p in (w, j, t, found)
]

launch-IsSingleFlight :
    (kind new_id now : ℕ) (m : Manager)
    → IsSingleFlight m
    → m.workers ≡ []
    → live_count m.rows ≡ 0
    → IsSingleFlight (launch kind new_id now m).0
unfolding launch
launch-IsSingleFlight kind new_id now m v idle none_live =
    elim (Bool-cases (present new_id m.rows)) [
      | inl taken ↦ rw taken v
      | inr fresh ↦
          rw (fresh, idle)
            (record {
              distinct = ids_distinct-insert new_id kind now m.rows v.distinct fresh;
              one = refl;
              single = (
                omega (
                  arith,
                  live_elsewhere-insert new_id kind now m.rows,
                  live_elsewhere-le-live_count new_id m.rows,
                ),
                ground (arith, present-insert new_id new_id kind now m.rows),
              );
            })
    ]

-- What `start` does after the reaping, by what it finds.
pub start_cases :
    (kind new_id now : ℕ) (m : Manager)
    → IsSingleFlight m
    → ((j : Job) × (active_job m ≡ some j)
        × (start_reaped kind new_id now m
            ≡ (m, if j.kind == kind then already_running j else job_busy j kind false)))
      ⊎ ((j : Job) × (live_count m.rows ≡ 0)
          × (thread_alive m ≡ true)
          × (start_reaped kind new_id now m ≡ (m, job_busy j kind true)))
      ⊎ ((live_count m.rows ≡ 0)
          × (m.workers ≡ [])
          × (start_reaped kind new_id now m ≡ launch kind new_id now m))
unfolding start_reaped start_idle
start_cases kind new_id now m v = elim (Option-cases (active_job m)) [
  | inr (j, live) ↦ inl (j, live, ground arith)
  | inl dead ↦
      let none_live : live_count m.rows ≡ 0 =
        unfold active_job in live_count_of_none (λ j. j.created_at) m.rows dead in
      elim (Bool-cases (thread_alive m)) [
        | inl alive ↦
            let (w, j, t, found) = orphan_found m v alive in
            inr (inl (j, none_live, alive, ground arith))
        | inr over ↦ inr (inr (none_live, idle_workers m v over, ground arith))
      ]
]

launch_cases :
    (kind new_id now : ℕ) (m : Manager)
    → m.workers ≡ []
    → (launch kind new_id now m ≡ (m, integrity_error))
      ⊎ (((launch kind new_id now m).1 ≡ started (new_job new_id kind now))
          × (get (launch kind new_id now m).0 new_id ≡ some (new_job new_id kind now))
          × ((launch kind new_id now m).0.workers ≡ record { job = new_id; phase = starting } ∷ [])
          × (present new_id m.rows ≡ false))
unfolding launch get
launch_cases kind new_id now m idle = elim (Bool-cases (present new_id m.rows)) [
  | inl taken ↦ inl (ground arith)
  | inr fresh ↦ inr (ground (arith, select_id-insert new_id kind now m.rows fresh))
]

-- `start` keeps the invariant, whatever it returns or raises.
pub start-IsSingleFlight :
    (kind new_id now : ℕ) (m : Manager)
    → IsSingleFlight m
    → IsSingleFlight (start kind new_id now m).0
unfolding start
start-IsSingleFlight kind new_id now m v =
    let r = (reap_stale now m).0 in
    let u = reap_stale-IsSingleFlight now m v in
    elim (start_cases kind new_id now r u) [
      | inl (j, live, e) ↦ rw e u
      | inr (inl (j, none_live, alive, e)) ↦ rw e u
      | inr (inr (none_live, idle, e)) ↦
          rw e (launch-IsSingleFlight kind new_id now r u idle none_live)
    ]

-- A job is started only when, after the reaping, no row is live and no worker is alive; it is then
-- the new queued row of the table, with the one worker.
pub start-started :
    (kind new_id now : ℕ) (m : Manager) (j : Job)
    → IsSingleFlight m
    → (start kind new_id now m).1 ≡ started j
    → (live_count (reap_stale now m).0.rows ≡ 0)
      × ((reap_stale now m).0.workers ≡ [])
      × (j ≡ new_job new_id kind now)
      × (get (start kind new_id now m).0 new_id ≡ some j)
      × ((start kind new_id now m).0.workers ≡ record { job = new_id; phase = starting } ∷ [])
unfolding start
start-started kind new_id now m j v h =
    let r = (reap_stale now m).0 in
    let u = reap_stale-IsSingleFlight now m v in
    elim (start_cases kind new_id now r u) [
      | inl (i, live, e) ↦ ground arith
      | inr (inl (i, none_live, alive, e)) ↦ ground arith
      | inr (inr (none_live, idle, e)) ↦ elim (launch_cases kind new_id now r idle) [
        | inl taken ↦ ground arith
        | inr (q, row, ws, fresh) ↦ (
          none_live,
          idle,
          ground arith,
          ap (λ p. get p.0 new_id) e ∙ row ∙ ground arith,
          ap (λ p. p.0.workers) e ∙ ws,
        )
      ]
    ]

-- When `start` does not start a job, it changes nothing but the reaping.
pub start-refused :
    (kind new_id now : ℕ) (m : Manager)
    → IsSingleFlight m
    → ((start kind new_id now m).0 ≡ (reap_stale now m).0)
      ⊎ ((start kind new_id now m).1 ≡ started (new_job new_id kind now))
unfolding start
start-refused kind new_id now m v =
    let r = (reap_stale now m).0 in
    elim (start_cases kind new_id now r (reap_stale-IsSingleFlight now m v)) [
      | inl (j, live, e) ↦ inl (ap (λ p. p.0) e)
      | inr (inl (j, none_live, alive, e)) ↦ inl (ap (λ p. p.0) e)
      | inr (inr (none_live, idle, e)) ↦ elim (launch_cases kind new_id now r idle) [
        | inl taken ↦ inl (ap (λ p. p.0) (e ∙ taken))
        | inr (q, row, ws, fresh) ↦ inr (ap (λ p. p.1) e ∙ q)
      ]
    ]

start_free :
    (kind new_id now : ℕ) (m : Manager)
    → m.workers ≡ []
    → live_count m.rows ≡ 0
    → present new_id m.rows ≡ false
    → (start_reaped kind new_id now m).1 ≡ started (new_job new_id kind now)
unfolding start_reaped start_idle launch active_job thread_alive
start_free kind new_id now m idle dead fresh =
    let no_rows = filter_of_no_live m.rows dead in
    elim (Option-cases m.thread) [ inl t ↦ ground arith | inr (k, t) ↦ ground arith ]

-- With no worker alive, a fresh id and every live row older than the timeout, `start` starts a job:
-- a row that a dead process left does not block it.
pub start_unblocked :
    (kind new_id now : ℕ) (m : Manager)
    → m.workers ≡ []
    → IsSetList (ids_of m.rows)
    → all (λ j. not (is_live j.state) || ltb (j.created_at + m.timeout) now) m.rows ≡ true
    → present new_id m.rows ≡ false
    → (start kind new_id now m).1 ≡ started (new_job new_id kind now)
unfolding start
start_unblocked kind new_id now m idle distinct old fresh = rw (reap_stale-map now m distinct) (
    start_free kind new_id now (record m { rows = map (reaped now m.timeout) m.rows }) idle
      (all_dead m.rows old) (ids_kept m.rows ∙ fresh))
  where
    all_dead :
        (js : List Job)
        → all (λ j. not (is_live j.state) || ltb (j.created_at + m.timeout) now) js ≡ true
        → live_count (map (reaped now m.timeout) js) ≡ 0
    all_dead [] h = refl
    all_dead (j ∷ js) h = ground (arith, all_dead js)

    ids_kept : (js : List Job) → present new_id (map (reaped now m.timeout) js) ≡ present new_id js
    ids_kept [] = refl
    ids_kept (j ∷ js) = ground (arith, ids_kept js)
