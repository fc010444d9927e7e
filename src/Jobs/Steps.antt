-- ===== src/Jobs/Steps.antt =====
-- jobs.py: the steps of the manager, of its worker threads and of the process. The calls of the
-- clients and the statements of `_execute` come in any order; each is one step.
use prosignal.Prelude.{ℕ, ◌≡◌, Option, none, some, List, [], ◌∷◌, ◌==◌, if◌then◌else◌}
use prosignal.Jobs.Manager.{
  Phase, starting, working, Worker, Manager, start, progress, begin, complete, fail, exit, cancel,
  construct,
}

abbrev pub phase_of : ℕ → List Worker → Option Phase
phase_of k [] = none
phase_of k (w ∷ ws) = if w.job == k then some w.phase else phase_of k ws

pub data Step (m u : Manager) : Type 0 where
  starts : (kind new_id now : ℕ) → u ≡ (start kind new_id now m).0 → Step m u
  cancels : (k now : ℕ) → u ≡ (cancel k now m).0 → Step m u
  begins : (k now : ℕ) → phase_of k m.workers ≡ some starting → u ≡ begin k now m → Step m u
  reports :
      (k step label : ℕ)
      → phase_of k m.workers ≡ some working
      → u ≡ progress k step label m
      → Step m u
  completes :
      (k now value : ℕ)
      → phase_of k m.workers ≡ some working
      → u ≡ complete k now value m
      → Step m u
  fails : (k now exc : ℕ) → phase_of k m.workers ≡ some working → u ≡ fail k now exc m → Step m u
  exits : (k : ℕ) → u ≡ exit k m → Step m u
  restarts : (now : ℕ) → u ≡ construct m.timeout now m.rows → Step m u

pub data Reach (m : Manager) : Manager → Type 0 where
  here : Reach m m
  next : {t u : Manager} → Reach m t → Step t u → Reach m u
