-- ===== src/Book/Defs.antt =====
-- book.py: `BookSpec`, `_target_count`, the selection of `build_book`, and the redistribution loop
-- of `_allocate`. A ticker is a number. `scaled n x` is `int(math.floor(n * x))`.
use prosignal.Prelude.{
  ℕ, zero, suc, ◌+◌, ◌-◌, max, min, Bool, not, ◌||◌, Option, none, some, List, [], ◌∷◌, ◌++◌, ltb,
  leb, ◌==◌, if◌then◌else◌, length, take, filter, elem,
}
use prosignal.Prelude.Floats.{FloatOps}

module _ (F : FloatOps) where
  open F use {Float, lt, add, div, neg, ratio}

  pub record BookSpec : Type 0 where
    pub capital : Float
    pub entry_percentile : Float
    pub exit_percentile : Float
    pub min_names : ℕ
    pub max_names : ℕ

  unfoldable pub target_count : (ℕ → Float → ℕ) → ℕ → BookSpec → ℕ
  target_count scaled n_eligible spec =
      max spec.min_names (min spec.max_names (scaled n_eligible spec.entry_percentile))

  -- The held names inside the exit band, and the others inside the entry band.
  abbrev pub incumbents : ℕ → List ℕ → List ℕ → List ℕ
  incumbents exit_cut ranking held = filter (λ t. elem t held) (take exit_cut ranking)

  abbrev pub newcomers : ℕ → List ℕ → List ℕ → List ℕ
  newcomers entry_cut ranking held = filter (λ t. not (elem t held)) (take entry_cut ranking)

  -- `{t: i for i, t in enumerate(ranking)}[t]`: the last place of a name.
  abbrev pub rank_from : ℕ → List ℕ → ℕ → ℕ
  rank_from i [] t = 0
  rank_from i (r ∷ ranking) t =
      let later = rank_from (i + 1) ranking t in
      if elem t ranking then later else if r == t then i else 0

  abbrev pub insert_by_rank : (ℕ → ℕ) → ℕ → List ℕ → List ℕ
  insert_by_rank rank t [] = t ∷ []
  insert_by_rank rank t (u ∷ us) =
      let rest = insert_by_rank rank t us in if ltb (rank u) (rank t) then u ∷ rest else t ∷ u ∷ us

  abbrev pub sort_by_rank : (ℕ → ℕ) → List ℕ → List ℕ
  sort_by_rank rank [] = []
  sort_by_rank rank (t ∷ ts) = insert_by_rank rank t (sort_by_rank rank ts)

  abbrev pub exit_cut : (ℕ → Float → ℕ) → List ℕ → BookSpec → ℕ
  exit_cut scaled ranking spec =
      let n = length ranking in
      max (scaled n spec.exit_percentile) (max (target_count scaled n spec) 1)

  -- `chosen` of `build_book`, for a ranking that is not empty
  unfoldable pub chosen : (ℕ → Float → ℕ) → List ℕ → BookSpec → List ℕ → List ℕ
  chosen scaled ranking spec held =
      let n_target = target_count scaled (length ranking) spec in
      let entry_cut = max n_target 1 in
      let keep = take n_target (incumbents (exit_cut scaled ranking spec) ranking held) in
      let fresh = take (n_target - length keep) (newcomers entry_cut ranking held) in
      sort_by_rank (rank_from 0 ranking) (keep ++ fresh)

  -- The variables of the loop in `_allocate`.
  pub record Allocation : Type 0 where
    pub alloc : List (ℕ × Float)
    pub remaining : Float
    pub open_names : List ℕ

  -- `alloc[t] = x` and `alloc.get(t)`
  abbrev pub set_amount : ℕ → Float → List (ℕ × Float) → List (ℕ × Float)
  set_amount t x [] = (t, x) ∷ []
  set_amount t x ((u, y) ∷ others) =
      let rest = set_amount t x others in if u == t then (t, x) ∷ others else (u, y) ∷ rest

  abbrev pub amount : ℕ → List (ℕ × Float) → Option Float
  amount t [] = none
  amount t ((u, y) ∷ others) = if u == t then some y else amount t others

  abbrev pub amount_or_zero : ℕ → List (ℕ × Float) → Float
  amount_or_zero t amounts = elim (amount t amounts) [ some x ↦ x | none ↦ ratio 0 1 ]

  abbrev pub share_out : Float → List ℕ → List (ℕ × Float) → List (ℕ × Float)
  share_out share [] amounts = amounts
  share_out share (t ∷ ts) amounts =
      share_out share ts (set_amount t (add (amount_or_zero t amounts) share) amounts)

  -- `xs.remove(t)`, for a name that is there
  abbrev pub remove : ℕ → List ℕ → List ℕ
  remove t [] = []
  remove t (u ∷ us) = let rest = remove t us in if u == t then us else u ∷ rest

  abbrev pub cap_one : (ℕ → Float) → ℕ → Allocation → Allocation
  cap_one caps t a = record {
    alloc = set_amount t (caps t) a.alloc;
    remaining = add a.remaining (neg (caps t));
    open_names = remove t a.open_names;
  }

  abbrev pub cap_all : (ℕ → Float) → List ℕ → Allocation → Allocation
  cap_all caps [] a = a
  cap_all caps (t ∷ ts) a = cap_all caps ts (cap_one caps t a)

  abbrev pub is_done : Allocation → Bool
  is_done a = leb (length a.open_names) 0 || not (lt (ratio 1 1) a.remaining)

  abbrev pub share_of : Allocation → Float
  share_of a = div a.remaining (ratio (length a.open_names) 1)

  abbrev pub capped : (ℕ → Float) → Allocation → List ℕ
  capped caps a = filter (λ t. lt (caps t) (share_of a)) a.open_names

  abbrev pub place_all : Allocation → Allocation
  place_all a = record {
    alloc = share_out (share_of a) a.open_names a.alloc;
    remaining = ratio 0 1;
    open_names = a.open_names;
  }

  -- The loop on fuel; `none` when that runs out.
  unfoldable pub redistribute : (ℕ → Float) → ℕ → Allocation → Option Allocation
  redistribute caps zero a = none
  redistribute caps (suc fuel) a =
      let rest = redistribute caps fuel (cap_all caps (capped caps a) a) in
      if is_done a
      then some a
      else if leb (length (capped caps a)) 0
      then some (place_all a)
      else rest

  unfoldable pub allocate : (ℕ → Float) → BookSpec → List ℕ → Option Allocation
  allocate caps spec tradable =
      redistribute caps (suc (length tradable))
        (record { alloc = []; remaining = spec.capital; open_names = tradable })
