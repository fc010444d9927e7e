-- ===== src/Jobs/Cancels.antt =====
-- jobs.py: `cancel`, and what a cancelled job's worker can still do.
use prosignal.Prelude.{
  ℕ, ◌≡◌, refl, sym, ◌∙◌, ◌⊎◌, inl, inr, Bool, true, false, some, List, [], ◌∷◌, arith, ◌==◌,
  Bool-cases, Option-cases, filter, any, IsSetList,
}
use prosignal.Jobs.Defs.{
  queued, running, completed, cancelled, is_live, is_running, complete_label, cancelled_by_user,
  Job, update, select_id,
}
use prosignal.Jobs.Manager.{
  Worker, Manager, ids_of, reap_stale, active_job, get, job_busy, start, has_id, runs_as, begin,
  complete, fail, cancel,
}
use prosignal.Jobs.Rows.{live_count, present, filter_of_no_live}
use prosignal.Jobs.Reap.{IsSingleFlight, reap_stale-IsSingleFlight}
use prosignal.Jobs.Starts.{start_cases}

-- A statement that no row passes changes nothing.
update_none :
    (test : Job → Bool) (set : Job → Job) (js : List Job)
    → any test js ≡ false
    → update test set js ≡ js
update_none test set [] h = refl
update_none test set (j ∷ js) h = ground (arith, update_none test set js)

-- The row of a terminal state is out of reach of the last statements of `_execute`.
runs_none :
    (k : ℕ) (js : List Job) (j : Job)
    → IsSetList (ids_of js)
    → select_id k js ≡ some j
    → is_running j.state ≡ false
    → any (runs_as k) js ≡ false
runs_none k [] j d h r = refl
runs_none k (i ∷ js) j d h r = elim (Bool-cases (i.id == k)) [
  | inl here ↦ let gone : present k js ≡ false = ground arith in ground (arith, runs_absent js gone)
  | inr later ↦ ground (arith, runs_none k js j d.1)
]
  where
    runs_absent : (js : List Job) → present k js ≡ false → any (runs_as k) js ≡ false
    runs_absent [] h = refl
    runs_absent (j ∷ js) h = ground (arith, runs_absent js)

-- The result of a worker is discarded when its row is not RUNNING: neither the statement of a
-- runner that returned nor that of one that raised changes the table.
pub complete_discarded :
    (k now value exc : ℕ) (m : Manager) (j : Job)
    → IsSetList (ids_of m.rows)
    → get m k ≡ some j
    → is_running j.state ≡ false
    → ((complete k now value m).rows ≡ m.rows) × ((fail k now exc m).rows ≡ m.rows)
unfolding complete fail get
complete_discarded k now value exc m j d h r =
    let free = runs_none k m.rows j d h r in
    (update_none (runs_as k) _ m.rows free, update_none (runs_as k) _ m.rows free)

select_id-update :
    (k : ℕ) (test : Job → Bool) (set : Job → Job) (js : List Job) (j : Job)
    → ((i : Job) → (set i).id ≡ i.id)
    → select_id k js ≡ some j
    → test j ≡ true
    → select_id k (update test set js) ≡ some (set j)
select_id-update k test set [] j keeps h t = cc
select_id-update k test set (i ∷ js) j keeps h t = elim (Bool-cases (i.id == k)) [
  | inl here ↦ let e : i ≡ j = ground arith in ground (arith, keeps j)
  | inr later ↦ ground (arith, keeps i, select_id-update k test set js j keeps)
]

select_id-id : (k : ℕ) (js : List Job) (j : Job) → select_id k js ≡ some j → (j.id == k) ≡ true
select_id-id k [] j h = cc
select_id-id k (i ∷ js) j h = ground (arith, select_id-id k js j)

-- `cancel` succeeds exactly on a row that is live, which is CANCELLED from then on; otherwise it
-- changes nothing.
pub cancel_lem :
    (k now : ℕ) (m : Manager)
    → ((j : Job) × (get m k ≡ some j)
        × (is_live j.state ≡ true)
        × ((cancel k now m).1 ≡ true)
        × (get (cancel k now m).0 k
            ≡ some (record j {
              state = cancelled;
              finished_at = some now;
              error = some cancelled_by_user;
            })))
      ⊎ (cancel k now m ≡ (m, false))
unfolding cancel get
cancel_lem k now m = elim (Option-cases (select_id k m.rows)) [
  | inl missing ↦ inr (ground arith)
  | inr (j, found) ↦ elim (Bool-cases (is_live j.state)) [
    | inl live ↦ inl (
      j,
      found,
      live,
      ground arith,
      ground (
        arith,
        select_id-update k (has_id k)
            (λ i. record i {
              state = cancelled;
              finished_at = some now;
              error = some cancelled_by_user;
            })
            m.rows j (λ i. refl) found (select_id-id k m.rows j found),
      ),
    )
    | inr over ↦ inr (ground arith)
  ]
]

-- A cancel that comes before the worker's first statement is lost: that statement is not
-- conditional on the row's state, so the cancelled job runs, and ends COMPLETED with its result.
pub cancel_before_begin :
    (k t u v value : ℕ) (m : Manager) (j : Job)
    → get m k ≡ some j
    → j.state ≡ queued
    → (i : Job) × (get (complete k v value (begin k u (cancel k t m).0)) k ≡ some i)
      × ((cancel k t m).1 ≡ true)
      × (i.state ≡ completed)
      × (i.result ≡ some value)
unfolding cancel get begin complete
cancel_before_begin k t u v value m j found q =
    let cancel_set = λ (i : Job). record i {
      state = cancelled;
      finished_at = some t;
      error = some cancelled_by_user;
    } in
    let begin_set = λ (i : Job). record i { state = running; started_at = some u } in
    let complete_set = λ (i : Job). record i {
      state = completed;
      finished_at = some v;
      result = some value;
      progress_step = i.progress_total;
      progress_label = complete_label;
    } in
    let id = select_id-id k m.rows j found in
    let a = select_id-update k (has_id k) cancel_set m.rows j (λ i. refl) found id in
    let b = select_id-update k (has_id k) begin_set _ (cancel_set j) (λ i. refl) a id in
    let runs : runs_as k (begin_set (cancel_set j)) ≡ true = ground arith in
    let c =
      select_id-update k (runs_as k) complete_set _ (begin_set (cancel_set j)) (λ i. refl) b runs in
    (complete_set (begin_set (cancel_set j)), ground (arith, c), ground arith, refl, refl)

-- While the worker of a cancelled job is alive, `start` raises JobBusy for the orphan, whatever is
-- asked for, and starts nothing.
pub start-orphaned :
    (kind new_id now : ℕ) (m : Manager) (w : Worker)
    → IsSingleFlight m
    → m.workers ≡ w ∷ []
    → live_count (reap_stale now m).0.rows ≡ 0
    → (j : Job) × (start kind new_id now m ≡ ((reap_stale now m).0, job_busy j kind true))
unfolding start
start-orphaned kind new_id now m w v one dead =
    let r = (reap_stale now m).0 in
    elim (start_cases kind new_id now r (reap_stale-IsSingleFlight now m v)) [
      | inl (j, live, e) ↦
          let idle = filter_of_no_live r.rows dead in absurd (not_selected r j live idle)
      | inr (inl (j, none_live, alive, e)) ↦ (j, e)
      | inr (inr (none_live, over, e)) ↦
          let workers : r.workers ≡ m.workers = unfold reap_stale in refl in
          absurd (cc (sym over ∙ workers ∙ one))
    ]
  where
    not_selected :
        (r : Manager) (j : Job)
        → active_job r ≡ some j
        → filter (λ i. is_live i.state) r.rows ≡ []
        → ⊥
    not_selected r j live idle = unfold active_job in ground arith
