-- ===== src/Actions/Clusters.antt =====
-- data/corporate_actions.py: the rows that `dedupe_actions` keeps of a symbol.
use prosignal.Prelude.{
  ℕ, ◌+◌, ◌≤◌, ◌<◌, ◌≡◌, refl, ap, inl, inr, true, List, [], ◌∷◌, ◌++◌, arith, ltb, lt→ltb,
  Bool-cases, All, All-append,
}
use prosignal.Actions.Defs.{
  Action, same_event_days, key_less, best_from, flush, last_date, is_apart, cluster_from,
  dedupe_group,
}

-- In the order of their dates, from a day on
abbrev pub IsAscending : ℕ → List Action → Type 0
IsAscending day [] = Unit
IsAscending day (a ∷ xs) = (day ≤ a.ex_date) × IsAscending a.ex_date xs

-- Any two rows are more than `same_event_days` apart.
abbrev pub IsSpread : List Action → Type 0
IsSpread [] = Unit
IsSpread (a ∷ xs) = All (λ b. a.ex_date + same_event_days < b.ex_date) xs × IsSpread xs

pub best_from-All :
    (P : Action → Type 0) (best : Action) (xs : List Action)
    → P best
    → All P xs
    → P (best_from best xs)
best_from-All P best [] h k = h
best_from-All P best (a ∷ xs) h k = elim (Bool-cases (key_less best a)) [
  | inl less ↦ rw less (best_from-All P a xs k.0 k.1)
  | inr kept ↦ rw kept (best_from-All P best xs h k.1)
]

flush-All : (P : Action → Type 0) (cluster : List Action) → All P cluster → All P (flush cluster)
flush-All P [] h = tt
flush-All P (a ∷ xs) h = (best_from-All P a xs h.0 h.1, tt)

-- What holds of all rows holds of those that are kept.
pub cluster_from-All :
    (P : Action → Type 0) (cluster xs : List Action)
    → All P cluster
    → All P xs
    → All P (cluster_from cluster xs)
unfolding cluster_from
cluster_from-All P cluster [] h k = flush-All P cluster h
cluster_from-All P cluster (a ∷ xs) h k = elim (Bool-cases (is_apart cluster a)) [
  | inl apart ↦ rw apart (
      All-append P (flush cluster) (cluster_from (a ∷ []) xs) (flush-All P cluster h)
        (cluster_from-All P (a ∷ []) xs (k.0, tt) k.1))
  | inr close ↦
      rw close
        (cluster_from-All P (cluster ++ a ∷ []) xs (All-append P cluster (a ∷ []) h (k.0, tt)) k.1)
]

ascending-ge : (day : ℕ) (xs : List Action) → IsAscending day xs → All (λ a. day ≤ a.ex_date) xs
ascending-ge day [] h = tt
ascending-ge day (a ∷ xs) h = (h.0, later xs (ascending-ge a.ex_date xs h.1))
  where
    later : (ys : List Action) → All (λ x. a.ex_date ≤ x.ex_date) ys → All (λ x. day ≤ x.ex_date) ys
    later [] k = tt
    later (y ∷ ys) k = (omega (arith, k.0, h.0), later ys k.1)

-- A cluster that is not empty, whose rows are in order and end on a day
abbrev Cluster : ℕ → Action → List Action → Type 0
Cluster day c cs =
    (last_date c.ex_date cs ≡ day) × (c.ex_date ≤ day) × All (λ x. x.ex_date ≤ day) cs

last_date-append :
    (day : ℕ) (cs : List Action) (a : Action) → last_date day (cs ++ a ∷ []) ≡ a.ex_date
last_date-append day [] a = refl
last_date-append day (c ∷ cs) a = last_date-append c.ex_date cs a

pub is_apart-append :
    (cs : List Action) (a b : Action)
    → is_apart (cs ++ a ∷ []) b ≡ ltb (a.ex_date + same_event_days) b.ex_date
is_apart-append [] a b = refl
is_apart-append (c ∷ cs) a b =
    ap (λ d. ltb (d + same_event_days) b.ex_date) (last_date-append c.ex_date cs a)

cluster_from-IsSpread :
    (day : ℕ) (c : Action) (cs xs : List Action)
    → Cluster day c cs
    → IsAscending day xs
    → IsSpread (cluster_from (c ∷ cs) xs)
unfolding cluster_from
cluster_from-IsSpread day c cs [] h k = (tt, tt)
cluster_from-IsSpread day c cs (a ∷ xs) (last, first, before) k =
    elim (Bool-cases (is_apart (c ∷ cs) a)) [
      | inl apart ↦
          let best = best_from-All (λ x. x.ex_date ≤ day) c cs first before in
          let gap : day + same_event_days < a.ex_date = ground (arith, last) in
          rw apart (
            weaken best gap (cluster_from (a ∷ []) xs) (
                cluster_from-All (λ x. a.ex_date ≤ x.ex_date) (a ∷ []) xs (omega arith, tt)
                  (ascending-ge a.ex_date xs k.1)),
            cluster_from-IsSpread a.ex_date a [] xs (refl, omega arith, tt) k.1,
          )
      | inr close ↦ rw close (
          cluster_from-IsSpread a.ex_date c (cs ++ a ∷ []) xs
            (
              last_date-append c.ex_date cs a,
              omega (arith, first, k.0),
              All-append (λ x. x.ex_date ≤ a.ex_date) cs (a ∷ []) (raise cs before)
                  (omega arith, tt),
            )
            k.1)
    ]
  where
    weaken :
        (best_from c cs).ex_date ≤ day
        → day + same_event_days < a.ex_date
        → (ys : List Action) → All (λ x. a.ex_date ≤ x.ex_date) ys
        → All (λ x. (best_from c cs).ex_date + same_event_days < x.ex_date) ys
    weaken u v [] w = tt
    weaken u v (y ∷ ys) w = (omega (arith, u, v, w.0), weaken u v ys w.1)

    raise : (ys : List Action) → All (λ x. x.ex_date ≤ day) ys → All (λ x. x.ex_date ≤ a.ex_date) ys
    raise [] w = tt
    raise (y ∷ ys) w = (omega (arith, w.0, k.0), raise ys w.1)

-- Of the rows of a symbol, sorted by date, the kept ones are pairwise more than the days of one
-- event apart: no event adjusts the prices twice.
pub dedupe_group-IsSpread : (rows : List Action) → IsAscending 0 rows → IsSpread (dedupe_group rows)
unfolding dedupe_group cluster_from
dedupe_group-IsSpread [] h = tt
dedupe_group-IsSpread (a ∷ xs) h =
    cluster_from-IsSpread a.ex_date a [] xs (refl, omega arith, tt) h.1

settled : (a : Action) (xs : List Action) → IsSpread (a ∷ xs) → cluster_from (a ∷ []) xs ≡ a ∷ xs
unfolding cluster_from
settled a [] h = refl
settled a (b ∷ xs) h =
    let apart : is_apart (a ∷ []) b ≡ true = lt→ltb (a.ex_date + same_event_days) b.ex_date h.0.0 in
    rw apart (ap (λ ys. a ∷ ys) (settled b xs h.1))

spread_settled : (ys : List Action) → IsSpread ys → dedupe_group ys ≡ ys
unfolding dedupe_group cluster_from
spread_settled [] k = refl
spread_settled (y ∷ ys) k = settled y ys k

-- Rows that were deduplicated once are kept as they are.
pub dedupe_group-idempotent :
    (rows : List Action) → IsAscending 0 rows → dedupe_group (dedupe_group rows) ≡ dedupe_group rows
dedupe_group-idempotent rows h = spread_settled (dedupe_group rows) (dedupe_group-IsSpread rows h)
