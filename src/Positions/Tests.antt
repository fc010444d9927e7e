-- ===== src/Positions/Tests.antt =====
-- positions.py: runs of the review.
use prosignal.Prelude.{ℕ, ◌≤◌, ◌<◌, ◌≡◌, refl, ◌↔◌, ◌⊎◌, true, false, none, some, List, [], ◌∷◌}
use prosignal.Prelude.Int.{pos}
use prosignal.Prelude.Whole.{whole}
use prosignal.Positions.Defs.{
  hold, hold_and_flag, force_exit, no_print_suspended, trading_normally, Row, Frame, traded,
  last_date, last_price, gap, review_open_position,
}
use prosignal.Positions.Review.{full_frame, sessions_since, review-action, review-no_print}

abbrev bars : Frame whole
bars = record {
  has_close = true;
  has_volume = true;
  has_date = true;
  rows =
      record { date = 1; close = some (pos 50); volume = some (pos 900) }
      ∷ record { date = 2; close = some (pos 51); volume = some (pos 0) }
      ∷ record { date = 3; close = none; volume = some (pos 5) }
      ∷ [];
}

abbrev quiet_bars : Frame whole
quiet_bars = record bars { rows = record { date = 2; close = some (pos 51); volume = none } ∷ [] }

abbrev week : List ℕ
week = 1 ∷ 2 ∷ 3 ∷ 4 ∷ 5 ∷ 8 ∷ 9 ∷ []

suspended :
    (review_open_position whole 7 (some bars) 8 true week false none).reason ≡ no_print_suspended 5
unfolding review_open_position gap last_date last_price traded
suspended = refl

abbrev printed : Row whole
printed = record { date = 1; close = some (pos 50); volume = some (pos 900) }

abbrev unprinted : List (Row whole)
unprinted =
    record { date = 2; close = some (pos 51); volume = some (pos 0) }
    ∷ record { date = 3; close = none; volume = some (pos 5) }
    ∷ []

review-action_example :
    let d =
      review_open_position whole 7
        (some (full_frame whole (printed ∷ printed ∷ unprinted)))
        8
        true
        week
        false
        none in
    let silent = sessions_since whole 1 8 week in
    ((d.action ≡ force_exit) ↔ ((false ≡ true) ⊎ (30 ≤ silent)))
    × ((d.action ≡ hold_and_flag)
        ↔ ((false ≡ false) × ((silent < 30) × ((5 ≤ silent) ⊎ (true ≡ false)))))
    × ((d.last_tradeable_price ≡ some (pos 50)) × (d.last_tradeable_date ≡ some 1))
review-action_example =
    review-action whole 7 (printed ∷ []) unprinted printed (pos 50) 8 true week false none refl refl
      (refl, (refl, tt))

quiet_bars-traded : traded whole (some quiet_bars) ≡ []
unfolding traded
quiet_bars-traded = refl

review-no_print_example :
    let d = review_open_position whole 7 (some quiet_bars) 8 true week false none in
    (gap whole (some quiet_bars) 8 week ≡ 0)
    × (d.reason ≡ trading_normally)
    × (d.action ≡ hold)
    × (d.last_tradeable_price ≡ none)
review-no_print_example = review-no_print whole 7 (some quiet_bars) 8 week quiet_bars-traded
