-- ===== src/Actions/Covered.antt =====
-- data/corporate_actions.py: the rows that describe one event, and the one that is kept of them.
use prosignal.Prelude.{
  ℕ, ◌+◌, ◌≤◌, ◌≡◌, refl, sym, subst, ◌⊎◌, inl, inr, List, [], ◌∷◌, ◌++◌, arith, ltb, Bool-cases,
  All, All-append, Has,
}
use prosignal.Actions.Defs.{
  Action, same_event_days, key_less, best_from, flush, is_apart, cluster_from, dedupe_group,
}
use prosignal.Actions.Clusters.{IsAscending, best_from-All, cluster_from-All, is_apart-append}

abbrev AreClose : Action → Action → Type 0
AreClose a b = (a.ex_date ≤ b.ex_date + same_event_days) × (b.ex_date ≤ a.ex_date + same_event_days)

-- A chain of the rows leads from one to the other, each at most the days of one event from the
-- next: by the rule of the clusters they describe one event.
pub data Linked (rows : List Action) (a : Action) : Action → Type 0 where
  alone : Linked rows a a
  chained :
      (b : Action) {c : Action}
      → Linked rows a b
      → Has b rows
      → Has c rows
      → AreClose b c
      → Linked rows a c

AreClose-sym : (a b : Action) → AreClose a b → AreClose b a
AreClose-sym a b h = (h.1, h.0)

Linked-trans :
    (rows : List Action) (a b c : Action) → Linked rows a b → Linked rows b c → Linked rows a c
Linked-trans rows a b c h alone = h
Linked-trans rows a b c h (chained d k m n close) =
    chained d (Linked-trans rows a b d h k) m n close

Linked-sym : (rows : List Action) (a b : Action) → Linked rows a b → Linked rows b a
Linked-sym rows a b alone = alone
Linked-sym rows a b (chained d k m n close) =
    Linked-trans rows b d a (chained b alone n m (AreClose-sym d b close)) (Linked-sym rows a d k)

-- One of the kept rows describes the event of the row, from a source of at least its rank.
abbrev pub IsCovered : List Action → Action → List Action → Type 0
IsCovered rows a [] = ⊥
IsCovered rows a (k ∷ ks) = ((a.rank ≤ k.rank) × Linked rows a k) ⊎ IsCovered rows a ks

IsCovered-left :
    (rows : List Action) (a : Action) (xs ys : List Action)
    → IsCovered rows a xs
    → IsCovered rows a (xs ++ ys)
IsCovered-left rows a [] ys h = absurd h
IsCovered-left rows a (x ∷ xs) ys (inl h) = inl h
IsCovered-left rows a (x ∷ xs) ys (inr h) = inr (IsCovered-left rows a xs ys h)

IsCovered-right :
    (rows : List Action) (a : Action) (xs ys : List Action)
    → IsCovered rows a ys
    → IsCovered rows a (xs ++ ys)
IsCovered-right rows a [] ys h = h
IsCovered-right rows a (x ∷ xs) ys h = inr (IsCovered-right rows a xs ys h)

best_from-ge :
    (rank : ℕ) (best : Action) (xs : List Action)
    → rank ≤ best.rank
    → rank ≤ (best_from best xs).rank
best_from-ge rank best [] h = h
best_from-ge rank best (a ∷ xs) h = elim (Bool-cases (key_less best a)) [
  | inl less ↦ rw (less, best_from) (best_from-ge rank a xs (ground (arith, h)))
  | inr kept ↦ rw (kept, best_from) (best_from-ge rank best xs h)
]

best_from-top :
    (best : Action) (xs : List Action) → All (λ a. a.rank ≤ (best_from best xs).rank) (best ∷ xs)
best_from-top best [] = (omega arith, tt)
best_from-top best (a ∷ xs) = elim (Bool-cases (key_less best a)) [
  | inl less ↦
      let turn : best_from best (a ∷ xs) ≡ best_from a xs = rw (less, best_from) refl in
      subst (λ (b : Action). All (λ x. x.rank ≤ b.rank) (best ∷ a ∷ xs)) (sym turn)
        (best_from-ge best.rank a xs (ground arith), best_from-top a xs)
  | inr kept ↦
      let turn : best_from best (a ∷ xs) ≡ best_from best xs = rw (kept, best_from) refl in
      let (own, rest) = best_from-top best xs in
      subst (λ (b : Action). All (λ x. x.rank ≤ b.rank) (best ∷ a ∷ xs)) (sym turn)
        (own, (best_from-ge a.rank best xs (ground arith), rest))
]

All-map {ℓ κ μ} :
    {A : Type ℓ} (P : A → Type κ) (Q : A → Type μ) (xs : List A)
    → ((a : A) → P a → Q a)
    → All P xs
    → All Q xs
All-map P Q [] f h = tt
All-map P Q (x ∷ xs) f h = (f x h.0, All-map P Q xs f h.1)

All-both {ℓ κ μ} :
    {A : Type ℓ} (P : A → Type κ) (Q : A → Type μ) (xs : List A)
    → All P xs
    → All Q xs
    → All (λ a. P a × Q a) xs
All-both P Q [] h k = tt
All-both P Q (x ∷ xs) h k = ((h.0, k.0), All-both P Q xs h.1 k.1)

module _ (rows : List Action) where
  -- A cluster whose rows are all linked to one row
  abbrev LinkedTo : Action → List Action → Type 0
  LinkedTo hub cluster = All (λ x. Linked rows x hub) cluster

  flush-IsCovered :
      (hub : Action) (cluster : List Action)
      → LinkedTo hub cluster
      → All (λ a. IsCovered rows a (flush cluster)) cluster
  flush-IsCovered hub [] h = tt
  flush-IsCovered hub (c ∷ cs) h =
      let best = best_from c cs in
      let best_linked = best_from-All (λ x. Linked rows x hub) c cs h.0 h.1 in
      All-map (λ (a : Action). (a.rank ≤ best.rank) × Linked rows a hub)
        (λ a. IsCovered rows a (flush (c ∷ cs))) (c ∷ cs)
        (λ a k. inl (k.0, Linked-trans rows a hub best k.1 (Linked-sym rows best hub best_linked)))
        (All-both (λ (a : Action). a.rank ≤ best.rank) (λ a. Linked rows a hub) (c ∷ cs)
          (best_from-top c cs) h)

  -- What the loop keeps of its cluster: the last row is of the symbol, and all are linked to it.
  record IsCluster (hub : Action) (cluster : List Action) : Type 0 where
    there : Has hub rows
    linked : LinkedTo hub cluster
    ends : (a : Action) → is_apart cluster a ≡ ltb (hub.ex_date + same_event_days) a.ex_date

  cluster_from-IsCovered :
      (hub : Action) (cluster xs : List Action)
      → IsCluster hub cluster
      → IsAscending hub.ex_date xs
      → All (λ x. Has x rows) xs
      → All (λ a. IsCovered rows a (cluster_from cluster xs)) cluster
        × All (λ a. IsCovered rows a (cluster_from cluster xs)) xs
  unfolding cluster_from
  cluster_from-IsCovered hub cluster [] s up m = (flush-IsCovered hub cluster s.linked, tt)
  cluster_from-IsCovered hub cluster (a ∷ xs) s up m = elim (Bool-cases (is_apart cluster a)) [
    | inl apart ↦
        let rest = cluster_from (a ∷ []) xs in
        let fresh : IsCluster a (a ∷ []) = record {
          there = m.0;
          linked = (alone, tt);
          ends = λ b. refl;
        } in
        let (now, later) = cluster_from-IsCovered a (a ∷ []) xs fresh up.1 m.1 in
        let turn : cluster_from cluster (a ∷ xs) ≡ flush cluster ++ rest = rw apart refl in
        subst
          (λ ks. All (λ x. IsCovered rows x ks) cluster × All (λ x. IsCovered rows x ks) (a ∷ xs))
          (sym turn)
          (
            All-map (λ x. IsCovered rows x (flush cluster))
                (λ x. IsCovered rows x (flush cluster ++ rest)) cluster
                (λ x h. IsCovered-left rows x (flush cluster) rest h)
                (flush-IsCovered hub cluster s.linked),
            (
              IsCovered-right rows a (flush cluster) rest now.0,
              All-map (λ x. IsCovered rows x rest) (λ x. IsCovered rows x (flush cluster ++ rest))
                  xs (λ x h. IsCovered-right rows x (flush cluster) rest h) later,
            ),
          )
    | inr close ↦
        let near : AreClose hub a = ground (arith, s.ends a, up.0) in
        let grown : IsCluster a (cluster ++ a ∷ []) = record {
          there = m.0;
          linked =
              All-append (λ x. Linked rows x a) cluster (a ∷ [])
                (All-map (λ x. Linked rows x hub) (λ x. Linked rows x a) cluster
                  (λ x k. chained hub k s.there m.0 near) s.linked)
                (alone, tt);
          ends = λ b. is_apart-append cluster a b;
        } in
        let (now, later) = cluster_from-IsCovered a (cluster ++ a ∷ []) xs grown up.1 m.1 in
        let (mine, own) =
          halves (λ x. IsCovered rows x (cluster_from (cluster ++ a ∷ []) xs)) cluster now in
        let turn : cluster_from cluster (a ∷ xs) ≡ cluster_from (cluster ++ a ∷ []) xs =
          rw close refl in
        subst
          (λ ks. All (λ x. IsCovered rows x ks) cluster × All (λ x. IsCovered rows x ks) (a ∷ xs))
          (sym turn) (mine, (own, later))
  ]
    where
      halves : (P : Action → Type 0) (cs : List Action) → All P (cs ++ a ∷ []) → All P cs × P a
      halves P [] h = (tt, h.0)
      halves P (c ∷ cs) h = let (u, v) = halves P cs h.1 in ((h.0, u), v)

All-own : (xs : List Action) → All (λ k. Has k xs) xs
All-own [] = tt
All-own (x ∷ xs) =
    (inl refl, All-map (λ k. Has k xs) (λ k. Has k (x ∷ xs)) xs (λ k h. inr h) (All-own xs))

covered :
    (rows : List Action)
    → IsAscending 0 rows
    → All (λ a. IsCovered rows a (cluster_from [] rows)) rows
unfolding cluster_from
covered [] up = tt
covered (a ∷ xs) up =
    let rows = a ∷ xs in
    let (now, later) =
      cluster_from-IsCovered rows a (a ∷ []) xs
        (record { there = inl refl; linked = (alone, tt); ends = λ b. refl }) up.1
        (All-own rows).1 in
    (now.0, later)

-- Of the rows of a symbol, sorted by date, every kept row is one of them, and for every row one is
-- kept that describes the same event, from a source that ranks at least as high: a chain of the
-- rows leads from one to the other, each step of at most the days of one event.
pub dedupe_group-IsCovered :
    (rows : List Action)
    → IsAscending 0 rows
    → All (λ k. Has k rows) (dedupe_group rows)
      × All (λ a. IsCovered rows a (dedupe_group rows)) rows
unfolding dedupe_group
dedupe_group-IsCovered rows up =
    (cluster_from-All (λ k. Has k rows) [] rows tt (All-own rows), covered rows up)
