-- ===== src/Jobs/Rows.antt =====
-- jobs.py: what the statements do to the live rows of the table.
use prosignal.Prelude.{
  ℕ, ◌+◌, ◌≤◌, ◌≡◌, refl, ◌≢◌, inl, inr, Bool, true, false, not, ◌&&◌, ◌||◌, none, some, List, [],
  ◌∷◌, ◌++◌, arith, ◌==◌, Bool-cases, Option-cases, filter, elem, count, IsSetList,
}
use prosignal.Jobs.Defs.{is_live, Job, new_job, update, select_id, select_latest}
use prosignal.Jobs.Manager.{ids_of, has_id}

-- The live rows, and those of another id.
abbrev pub live_count : List Job → ℕ
live_count js = count (λ j. is_live j.state) js

abbrev pub live_elsewhere : ℕ → List Job → ℕ
live_elsewhere k js = count (λ j. is_live j.state && not (j.id == k)) js

abbrev pub present : ℕ → List Job → Bool
present k js = elem k (ids_of js)

module _ (test : Job → Bool) (set : Job → Job) (keeps : (j : Job) → (set j).id ≡ j.id) where
  pub ids_of-update : (js : List Job) → ids_of (update test set js) ≡ ids_of js
  ids_of-update [] = refl
  ids_of-update (j ∷ js) = ground (arith, keeps j, ids_of-update js)

  -- A statement that leaves every row that it touches terminal.
  pub live_count-update :
      (js : List Job)
      → ((j : Job) → is_live (set j).state ≡ false)
      → live_count (update test set js) ≤ live_count js
  live_count-update [] h = omega arith
  live_count-update (j ∷ js) h = ground (arith, h j, live_count-update js h)

  pub live_elsewhere-update :
      (k : ℕ) (js : List Job)
      → ((j : Job) → is_live (set j).state ≡ false)
      → live_elsewhere k (update test set js) ≤ live_elsewhere k js
  live_elsewhere-update k [] h = omega arith
  live_elsewhere-update k (j ∷ js) h = ground (arith, h j, live_elsewhere-update k js h)

-- A statement on one id leaves the live rows of the other ids alone.
pub live_elsewhere-update_id :
    (k : ℕ) (set : Job → Job) (js : List Job)
    → ((j : Job) → (set j).id ≡ j.id)
    → live_elsewhere k (update (has_id k) set js) ≡ live_elsewhere k js
live_elsewhere-update_id k set [] h = refl
live_elsewhere-update_id k set (j ∷ js) h = ground (arith, h j, live_elsewhere-update_id k set js h)

live_elsewhere_absent :
    (k : ℕ) (js : List Job) → present k js ≡ false → live_count js ≡ live_elsewhere k js
live_elsewhere_absent k [] h = refl
live_elsewhere_absent k (j ∷ js) h = ground (arith, live_elsewhere_absent k js)

-- With distinct ids at most one live row has a given id.
pub live_count-le-elsewhere :
    (k : ℕ) (js : List Job) → IsSetList (ids_of js) → live_count js ≤ live_elsewhere k js + 1
live_count-le-elsewhere k [] h = omega arith
live_count-le-elsewhere k (j ∷ js) h =
    ground (arith, live_count-le-elsewhere k js h.1, live_elsewhere_absent k js)

pub live_elsewhere-le-live_count : (k : ℕ) (js : List Job) → live_elsewhere k js ≤ live_count js
live_elsewhere-le-live_count k [] = omega arith
live_elsewhere-le-live_count k (j ∷ js) = ground (arith, live_elsewhere-le-live_count k js)

-- The insertion of a row.
pub live_elsewhere-insert :
    (k kind now : ℕ) (js : List Job)
    → live_elsewhere k (js ++ new_job k kind now ∷ []) ≡ live_elsewhere k js
live_elsewhere-insert k kind now [] = ground arith
live_elsewhere-insert k kind now (j ∷ js) = ground (arith, live_elsewhere-insert k kind now js)

pub present-insert :
    (i k kind now : ℕ) (js : List Job)
    → present i (js ++ new_job k kind now ∷ []) ≡ (present i js || i == k)
present-insert i k kind now [] = ground arith
present-insert i k kind now (j ∷ js) = ground (arith, present-insert i k kind now js)

pub ids_distinct-insert :
    (k kind now : ℕ) (js : List Job)
    → IsSetList (ids_of js)
    → present k js ≡ false
    → IsSetList (ids_of (js ++ new_job k kind now ∷ []))
ids_distinct-insert k kind now [] h a = (refl, tt)
ids_distinct-insert k kind now (j ∷ js) h a =
    ground (arith, ids_distinct-insert k kind now js h.1, present-insert j.id k kind now js)

-- The selections.
pub select_id-present :
    (k : ℕ) (js : List Job)
    → present k js ≡ true
    → (j : Job) × (select_id k js ≡ some j) × (j.id ≡ k)
select_id-present k [] h = cc
select_id-present k (j ∷ js) h = elim (Bool-cases (j.id == k)) [
  | inl here ↦ (j, ground arith, ground arith)
  | inr later ↦ let (i, found, e) = select_id-present k js (ground arith) in (i, ground arith, e)
]

pub select_id-insert :
    (k kind now : ℕ) (js : List Job)
    → present k js ≡ false
    → select_id k (js ++ new_job k kind now ∷ []) ≡ some (new_job k kind now)
select_id-insert k kind now [] h = ground arith
select_id-insert k kind now (j ∷ js) h = ground (arith, select_id-insert k kind now js)

pub select_latest-ne-none :
    (key : Job → ℕ) (j : Job) (js : List Job) → select_latest key (j ∷ js) ≢ none
select_latest-ne-none key j js = elim (Option-cases (select_latest key js)) [
  | inl e ↦ ground arith
  | inr (best, e) ↦ ground arith
]

-- No row is selected exactly when no row is live.
pub live_count_of_none :
    (key : Job → ℕ) (js : List Job)
    → select_latest key (filter (λ j. is_live j.state) js) ≡ none
    → live_count js ≡ 0
live_count_of_none key [] h = refl
live_count_of_none key (j ∷ js) h = ground (
  arith,
  select_latest-ne-none key j (filter (λ j. is_live j.state) js),
  live_count_of_none key js,
)

pub filter_of_no_live : (js : List Job) → live_count js ≡ 0 → filter (λ j. is_live j.state) js ≡ []
filter_of_no_live [] h = refl
filter_of_no_live (j ∷ js) h = ground (arith, filter_of_no_live js)
