-- ===== src/Actions/Defs.antt =====
-- data/corporate_actions.py: `build_adjustment_factors` for one symbol, and the clusters of
-- `dedupe_actions`. A date is its ordinal.
use prosignal.Prelude.{
  ℕ, ◌+◌, Bool, false, not, ◌&&◌, ◌||◌, Option, none, some, List, [], ◌∷◌, ◌++◌, map, ltb, ◌==◌,
  if◌then◌else◌,
}
use prosignal.Prelude.Floats.{FloatOps}

-- A row that adjusts prices: its ex-date, the rank of its source and its place in the frame
pub record Action : Type 0 where
  pub ex_date : ℕ
  pub rank : ℕ
  pub row : ℕ

abbrev pub same_event_days : ℕ
same_event_days = 3

-- `key=lambda r: (r["_rank"], r["ex_date"])`
abbrev pub key_less : Action → Action → Bool
key_less a b = ltb a.rank b.rank || (a.rank == b.rank && ltb a.ex_date b.ex_date)

-- Python's `max`: the first of the greatest
abbrev pub best_from : Action → List Action → Action
best_from best [] = best
best_from best (a ∷ xs) = best_from (if key_less best a then a else best) xs

-- `_flush`
abbrev pub flush : List Action → List Action
flush [] = []
flush (a ∷ xs) = best_from a xs ∷ []

abbrev pub last_date : ℕ → List Action → ℕ
last_date day [] = day
last_date day (a ∷ xs) = last_date a.ex_date xs

-- `cluster and (row.ex_date - cluster[-1].ex_date).days > _SAME_EVENT_DAYS`
abbrev pub is_apart : List Action → Action → Bool
is_apart [] a = false
is_apart (c ∷ cs) a = ltb (last_date c.ex_date cs + same_event_days) a.ex_date

-- The loop over the rows of a symbol, sorted by date
unfoldable pub cluster_from : List Action → List Action → List Action
cluster_from cluster [] = flush cluster
cluster_from cluster (a ∷ xs) =
    let apart = is_apart cluster a in
    let kept = if apart then flush cluster else [] in
    let rest = cluster_from (if apart then a ∷ [] else cluster ++ a ∷ []) xs in kept ++ rest

-- The rows of a symbol that `dedupe_actions` keeps
unfoldable pub dedupe_group : List Action → List Action
dedupe_group rows = cluster_from [] rows

module _ (F : FloatOps) where
  open F use {Float, lt, le, mul, div, ratio}

  -- A row of the actions; a date or a ratio that is missing is `none`.
  pub record Ratio : Type 0 where
    pub ex_date : Option ℕ
    pub ratio : Option Float

  abbrev in_band : Float → Float → Bool
  in_band limit r = le (div (ratio 1 1) limit) r && le r limit

  -- The usable rows, with `MAX_PRICE_FACTOR`
  abbrev pub usable_ratio : Float → Ratio → Option (ℕ × Float)
  usable_ratio limit row = elim row.ex_date [
    | none ↦ none
    | some day ↦ elim row.ratio [
      | none ↦ none
      | some r ↦
          if lt (ratio 0 1) r && not (le r (ratio 1 1) && le (ratio 1 1) r) && in_band limit r
          then some (day, r)
          else none
    ]
  ]

  abbrev pub usable : Float → List Ratio → List (ℕ × Float)
  usable limit [] = []
  usable limit (row ∷ rows) = elim (usable_ratio limit row) [
    | none ↦ usable limit rows
    | some u ↦ u ∷ usable limit rows
  ]

  -- `factors.loc[idx < ex_date] *= ratio`
  abbrev pub scale_before : ℕ × Float → List ℕ → List Float → List Float
  scale_before u [] factors = []
  scale_before u (d ∷ ds) [] = []
  scale_before u (d ∷ ds) (f ∷ fs) = (if ltb d u.0 then mul f u.1 else f) ∷ scale_before u ds fs

  abbrev pub scale_all : List (ℕ × Float) → List ℕ → List Float → List Float
  scale_all [] dates factors = factors
  scale_all (u ∷ us) dates factors = scale_all us dates (scale_before u dates factors)

  unfoldable pub build_adjustment_factors : Float → List ℕ → List Ratio → List Float
  build_adjustment_factors limit dates actions =
      scale_all (usable limit actions) dates (map (λ d. ratio 1 1) dates)
