-- ===== src/Jobs/Reap.antt =====
-- jobs.py: the invariant of the manager, and `reap_stale`.
use prosignal.Prelude.{
  ℕ, ◌≤◌, ◌≡◌, refl, ap, ◌∙◌, ◌⊎◌, inl, inr, true, false, Option, some, List, [], ◌∷◌, map, arith,
  if◌then◌else◌, Bool-cases, filter, elem, IsSetList,
}
use prosignal.Jobs.Defs.{Job, update}
use prosignal.Jobs.Manager.{Worker, Manager, is_stale, ids_of, timed_out_at, reap_stale}
use prosignal.Jobs.Rows.{
  live_count, live_elsewhere, present, ids_of-update, live_count-update, live_elsewhere-update,
}

abbrev pub OneWorker : Option ℕ → List Worker → Type 0
OneWorker thread [] = Unit
OneWorker thread (w ∷ []) = thread ≡ some w.job
OneWorker thread (w ∷ v ∷ ws) = ⊥

-- With a worker alive, only its own row may be live, and that row is in the table.
abbrev pub SingleLive : List Worker → List Job → Type 0
SingleLive [] js = live_count js ≤ 1
SingleLive (w ∷ ws) js = (live_elsewhere w.job js ≡ 0) × (present w.job js ≡ true)

pub record IsSingleFlight (m : Manager) : Type 0 where
  pub distinct : IsSetList (ids_of m.rows)
  pub one : OneWorker m.thread m.workers
  pub single : SingleLive m.workers m.rows

-- A statement that keeps the ids and adds no live row keeps the rows' part of the invariant.
pub SingleLive-mono :
    (ws : List Worker) (js is : List Job)
    → ids_of is ≡ ids_of js
    → live_count is ≤ live_count js
    → ((k : ℕ) → live_elsewhere k is ≤ live_elsewhere k js)
    → SingleLive ws js
    → SingleLive ws is
SingleLive-mono [] js is e l f h = omega arith
SingleLive-mono (w ∷ ws) js is e l f h = (omega (arith, f w.job, h.0), ap (elem w.job) e ∙ h.1)

-- `reap_stale` keeps the invariant.
pub reap_stale-IsSingleFlight :
    (now : ℕ) (m : Manager) → IsSingleFlight m → IsSingleFlight (reap_stale now m).0
unfolding reap_stale
reap_stale-IsSingleFlight now m v =
    let ids = ids_of (filter (is_stale now m.timeout) m.rows) in
    let test = λ (j : Job). elem j.id ids in
    let same = ids_of-update test (timed_out_at now) (λ j. refl) m.rows in
    record {
      distinct = rw same v.distinct;
      one = v.one;
      single =
          SingleLive-mono m.workers m.rows (update test (timed_out_at now) m.rows) same
            (live_count-update test (timed_out_at now) (λ j. refl) m.rows (λ j. refl))
            (λ k. live_elsewhere-update test (timed_out_at now) (λ j. refl) k m.rows (λ j. refl))
            v.single;
    }

-- What the reaping leaves of a row.
abbrev pub reaped : ℕ → ℕ → Job → Job
reaped now timeout j = if is_stale now timeout j then timed_out_at now j else j

stale_elem :
    (now timeout : ℕ) (js : List Job) (k : ℕ)
    → present k js ≡ false
    → elem k (ids_of (filter (is_stale now timeout) js)) ≡ false
stale_elem now timeout [] k h = refl
stale_elem now timeout (j ∷ js) k h = ground (arith, stale_elem now timeout js k)

-- An id that no row has makes no difference to the rows updated.
update_absent :
    (k : ℕ) (ids : List ℕ) (set : Job → Job) (js : List Job)
    → present k js ≡ false
    → update (λ j. elem j.id (k ∷ ids)) set js ≡ update (λ j. elem j.id ids) set js
update_absent k ids set [] h = refl
update_absent k ids set (j ∷ js) h = ground (arith, update_absent k ids set js)

update_stale :
    (now timeout : ℕ) (js : List Job)
    → IsSetList (ids_of js)
    → update (λ j. elem j.id (ids_of (filter (is_stale now timeout) js))) (timed_out_at now) js
      ≡ map (reaped now timeout) js
update_stale now timeout [] h = refl
update_stale now timeout (j ∷ js) h = elim (Bool-cases (is_stale now timeout j)) [
  | inl stale ↦
      let ids = ids_of (filter (is_stale now timeout) js) in
      ground
        (arith, update_absent j.id ids (timed_out_at now) js h.0, update_stale now timeout js h.1)
  | inr fresh ↦ ground (arith, stale_elem now timeout js j.id h.0, update_stale now timeout js h.1)
]

-- With distinct ids, `reap_stale` fails exactly the live rows that are older than the timeout, and
-- changes nothing else: not the other rows, nor the threads.
pub reap_stale-map :
    (now : ℕ) (m : Manager)
    → IsSetList (ids_of m.rows)
    → (reap_stale now m).0 ≡ record m { rows = map (reaped now m.timeout) m.rows }
unfolding reap_stale
reap_stale-map now m h = ap (λ js. record m { rows = js }) (update_stale now m.timeout m.rows h)

-- Either no worker is alive, or one is, on the thread's job, and only its row may be live.
pub workers_cases :
    (m : Manager)
    → IsSingleFlight m
    → (m.workers ≡ [])
      ⊎ ((w : Worker) × (m.workers ≡ w ∷ [])
          × (m.thread ≡ some w.job)
          × (live_elsewhere w.job m.rows ≡ 0)
          × (present w.job m.rows ≡ true))
workers_cases m v = worker_list_cases m.thread m.workers m.rows v.one v.single
  where
    worker_list_cases :
        (t : Option ℕ) (ws : List Worker) (js : List Job)
        → OneWorker t ws
        → SingleLive ws js
        → (ws ≡ [])
          ⊎ ((w : Worker) × (ws ≡ w ∷ [])
              × (t ≡ some w.job)
              × (live_elsewhere w.job js ≡ 0)
              × (present w.job js ≡ true))
    worker_list_cases t [] js o s = inl refl
    worker_list_cases t (w ∷ []) js o s = inr (w, refl, o, s.0, s.1)
    worker_list_cases t (w ∷ u ∷ ws) js o s = absurd o
