-- ===== src/Actions/Tests.antt =====
-- data/corporate_actions.py: one bonus seen by two sources a day apart, and a later split.
use prosignal.Prelude.{◌≡◌, refl, none, some, List, [], ◌∷◌, map, arith, All, Has}
use prosignal.Prelude.Int.{pos, ◌*ℤ◌}
use prosignal.Prelude.Whole.{whole}
use prosignal.Actions.Defs.{
  Action, cluster_from, dedupe_group, Ratio, usable, build_adjustment_factors,
}
use prosignal.Actions.Factors.{product_after, build_adjustment_factors-map}
use prosignal.Actions.Clusters.{IsAscending, IsSpread, dedupe_group-IsSpread}
use prosignal.Actions.Covered.{IsCovered, dedupe_group-IsCovered}

abbrev described : List Action
described =
    record { ex_date = 10; rank = 1; row = 0 }
    ∷ record { ex_date = 11; rank = 2; row = 1 }
    ∷ record { ex_date = 40; rank = 1; row = 2 }
    ∷ []

abbrev halved : List (Ratio whole)
halved =
    record { ex_date = some 20; ratio = some (pos 2) }
    ∷ record { ex_date = some 30; ratio = some (pos 3) }
    ∷ record { ex_date = none; ratio = some (pos 7) }
    ∷ []

factors :
    build_adjustment_factors whole (pos 5) (15 ∷ 25 ∷ 35 ∷ []) halved ≡ pos 6 ∷ pos 3 ∷ pos 1 ∷ []
unfolding build_adjustment_factors ◌*ℤ◌
factors = refl

kept : map (λ a. a.row) (dedupe_group described) ≡ 1 ∷ 2 ∷ []
unfolding dedupe_group cluster_from
kept = refl

in_order : IsAscending 0 described
in_order = (omega arith, (omega arith, (omega arith, tt)))

dedupe_group-IsSpread_example : IsSpread (dedupe_group described)
dedupe_group-IsSpread_example = dedupe_group-IsSpread described in_order

dedupe_group-IsCovered_example :
    All (λ k. Has k described) (dedupe_group described)
    × All (λ a. IsCovered described a (dedupe_group described)) described
dedupe_group-IsCovered_example = dedupe_group-IsCovered described in_order

build_adjustment_factors-map_example :
    build_adjustment_factors whole (pos 5) (15 ∷ 25 ∷ 35 ∷ []) halved
    ≡ map (λ d. product_after whole d (pos 1) (usable whole (pos 5) halved)) (15 ∷ 25 ∷ 35 ∷ [])
build_adjustment_factors-map_example =
    build_adjustment_factors-map whole (pos 5) (15 ∷ 25 ∷ 35 ∷ []) halved
