-- ===== src/Positions/Review.antt =====
-- positions.py: when a position is exited by force, flagged or held.
use prosignal.Prelude.{
  ℕ, ◌≤◌, ◌<◌, ◌≡◌, refl, sym, ap, ◌∙◌, ◌↔◌, ◌⊎◌, inl, inr, Bool, true, false, not, ◌&&◌, ◌||◌,
  Option, none, some, List, [], ◌∷◌, ◌++◌, arith, ltb, leb, Bool-cases, is_some, length, filter,
  All,
}
use prosignal.Prelude.Floats.{FloatOps}
use prosignal.Positions.Defs.{
  hold, hold_and_flag, force_exit, trading_normally, suspension_sessions, delisting_sessions, Row,
  Frame, has_volume_above_zero, traded, last_row, last_date, last_price, gap, classify,
  review_open_position,
}

module _ (F : FloatOps) where
  -- With the facts as four numbers, on a case for each outcome.
  action-cases :
      (silent : ℕ) (in_universe delisted : Bool) (why : Option ℕ)
      → let action = (classify F silent in_universe delisted why).1 in
        (((delisted || leb delisting_sessions silent) ≡ true) × (action ≡ force_exit))
        ⊎ ((((delisted || leb delisting_sessions silent) ≡ false)
              × (((leb suspension_sessions silent || not in_universe) ≡ true)
                  × (action ≡ hold_and_flag)))
            ⊎ (((delisted || leb delisting_sessions silent) ≡ false)
                × (((leb suspension_sessions silent || not in_universe) ≡ false)
                    × (action ≡ hold))))
  action-cases silent in_universe delisted why =
      elim (Bool-cases (delisted || leb delisting_sessions silent)) [
        | inl out ↦ rw out (inl (refl, refl))
        | inr kept ↦ elim (Bool-cases (leb suspension_sessions silent)) [
          | inl quiet ↦ rw kept (rw quiet (inr (inl (refl, (refl, refl)))))
          | inr trades ↦ rw kept (rw trades (inr (normal in_universe why)))
        ]
      ]
    where
      normal :
          (b : Bool) (w : Option ℕ)
          → ((Path Bool false false)
              × (((false || not b) ≡ true) × ((classify F 0 b false w).1 ≡ hold_and_flag)))
            ⊎ ((Path Bool false false)
                × (((false || not b) ≡ false) × ((classify F 0 b false w).1 ≡ hold)))
      normal false w = inl (refl, (refl, refl))
      normal true none = inr (refl, (refl, refl))
      normal true (some w) = inr (refl, (refl, refl))

  -- What the code calls traded: a close, and a volume above zero.
  abbrev pub is_print : Row F → Bool
  is_print r = is_some r.close && has_volume_above_zero F r

  none_later :
      (post : List (Row F))
      → All (λ s. is_print s ≡ false) post
      → filter (has_volume_above_zero F) (filter (λ s. is_some s.close) post) ≡ []
  none_later [] h = refl
  none_later (s ∷ post) h = elim (Bool-cases (is_some s.close)) [
    | inl closed ↦
        let quiet : has_volume_above_zero F s ≡ false = sym (rw closed refl) ∙ h.0 in
        rw (closed, filter) (rw (quiet, filter) (none_later post h.1))
    | inr without ↦ rw (without, filter) (none_later post h.1)
  ]

  last_row-filter :
      (pre post : List (Row F)) (r : Row F)
      → is_some r.close ≡ true
      → has_volume_above_zero F r ≡ true
      → All (λ s. is_print s ≡ false) post
      → last_row F
          (filter (has_volume_above_zero F) (filter (λ s. is_some s.close) (pre ++ r ∷ post)))
        ≡ some r
  last_row-filter [] post r c v h = rw c (rw v (rw (none_later post h) refl))
  last_row-filter (s ∷ pre) post r c v h =
      let later = last_row-filter pre post r c v h in
      elim (Bool-cases (is_some s.close)) [
        | inl closed ↦ elim (Bool-cases (has_volume_above_zero F s)) [
          | inl moved ↦ rw closed (rw moved (rw later refl))
          | inr still ↦ rw closed (rw still later)
        ]
        | inr without ↦ rw without later
      ]

  abbrev pub full_frame : List (Row F) → Frame F
  full_frame rows = record { has_close = true; has_volume = true; has_date = true; rows = rows }

  abbrev pub sessions_since : ℕ → ℕ → List ℕ → ℕ
  sessions_since d as_of sessions = length (filter (λ s. ltb d s && leb s as_of) sessions)

  classify-action :
      (silent : ℕ) (in_universe delisted : Bool) (why : Option ℕ)
      → let action = (classify F silent in_universe delisted why).1 in
        ((action ≡ force_exit) ↔ ((delisted ≡ true) ⊎ (30 ≤ silent)))
        × ((action ≡ hold_and_flag)
            ↔ ((delisted ≡ false) × ((silent < 30) × ((5 ≤ silent) ⊎ (in_universe ≡ false)))))
  classify-action silent in_universe delisted why =
      elim (action-cases silent in_universe delisted why) [
        | inl (out, act) ↦ (
          (λ h. out-parts out, λ h. act),
          (λ h. cc, λ h. absurd (not_both (out-parts out) h.0 h.1.0)),
        )
        | inr (inl (kept, (odd, act))) ↦ (
          (λ h. cc, λ h. absurd (not_both h (kept-parts kept).0 (kept-parts kept).1)),
          (λ h. ((kept-parts kept).0, ((kept-parts kept).1, odd-parts odd)), λ h. act),
        )
        | inr (inr (kept, (even, act))) ↦ (
          (λ h. cc, λ h. absurd (not_both h (kept-parts kept).0 (kept-parts kept).1)),
          (λ h. cc, λ h. absurd (even-parts even h.1.1)),
        )
      ]
    where
      out-parts :
          (delisted || leb delisting_sessions silent) ≡ true → (delisted ≡ true) ⊎ (30 ≤ silent)
      out-parts out = elim (Bool-cases delisted) [
        | inl yes_out ↦ inl yes_out
        | inr stays ↦ inr (ground arith)
      ]

      kept-parts :
          (delisted || leb delisting_sessions silent) ≡ false → (delisted ≡ false) × (silent < 30)
      kept-parts kept = elim (Bool-cases delisted) [
        | inl left ↦ cc
        | inr stays ↦ (stays, ground arith)
      ]

      odd-parts :
          (leb suspension_sessions silent || not in_universe) ≡ true
          → (5 ≤ silent) ⊎ (in_universe ≡ false)
      odd-parts odd = elim (Bool-cases in_universe) [
        | inl inside ↦ inl (ground arith)
        | inr outside ↦ inr outside
      ]

      even-parts :
          (leb suspension_sessions silent || not in_universe) ≡ false
          → (5 ≤ silent) ⊎ (in_universe ≡ false)
          → ⊥
      even-parts even (inl long) = ground arith
      even-parts even (inr outside) = ground arith

      not_both : (delisted ≡ true) ⊎ (30 ≤ silent) → delisted ≡ false → silent < 30 → ⊥
      not_both (inl out) stays few = cc
      not_both (inr long) stays few = omega arith

  abbrev last_close : Option (Row F) → Option F.Float
  last_close o = elim o [ none ↦ none | some r ↦ r.close ]

  -- Let the last row with a close and a volume above zero be of the day d, in a frame with the
  -- three columns. The position is exited by force exactly when the name is delisted or 30 sessions
  -- or more passed after d; otherwise it is flagged exactly when 5 or more passed or the name left
  -- the universe. The price and the date reported are that row's.
  pub review-action :
      (ticker : ℕ) (pre post : List (Row F)) (r : Row F) (price : F.Float) (as_of : ℕ)
      (in_universe : Bool) (sessions : List ℕ) (delisted : Bool) (why : Option ℕ)
      → r.close ≡ some price
      → has_volume_above_zero F r ≡ true
      → All (λ s. is_print s ≡ false) post
      → let d =
          review_open_position F ticker
            (some (full_frame (pre ++ r ∷ post)))
            as_of
            in_universe
            sessions
            delisted
            why in
        let silent = sessions_since r.date as_of sessions in
        ((d.action ≡ force_exit) ↔ ((delisted ≡ true) ⊎ (30 ≤ silent)))
        × ((d.action ≡ hold_and_flag)
            ↔ ((delisted ≡ false) × ((silent < 30) × ((5 ≤ silent) ⊎ (in_universe ≡ false)))))
        × ((d.last_tradeable_price ≡ some price) × (d.last_tradeable_date ≡ some r.date))
  unfolding review_open_position gap last_date last_price traded
  review-action ticker pre post r price as_of in_universe sessions delisted why c v h =
      let closed : is_some r.close ≡ true = rw c refl in
      let last = last_row-filter pre post r closed v h in
      let dated : last_date F (some (full_frame (pre ++ r ∷ post))) ≡ some r.date =
        ap (λ o. elim o as (λ x. Option ℕ) [ none ↦ none | some q ↦ some q.date ]) last in
      let silent = sessions_since r.date as_of sessions in
      let counted : gap F (some (full_frame (pre ++ r ∷ post))) as_of sessions ≡ silent =
        ap (λ o. elim o as (λ x. ℕ) [ none ↦ 0 | some d ↦ sessions_since d as_of sessions ])
          dated in
      let acts : (classify F (gap F (some (full_frame (pre ++ r ∷ post))) as_of sessions)
            in_universe delisted why).1
          ≡ (classify F silent in_universe delisted why).1 =
        ap (λ n. (classify F n in_universe delisted why).1) counted in
      let (forced, flagged) = classify-action silent in_universe delisted why in
      (
        (λ e. forced.0 (sym acts ∙ e), λ e. acts ∙ forced.1 e),
        (λ e. flagged.0 (sym acts ∙ e), λ e. acts ∙ flagged.1 e),
        (ap last_close last ∙ c, dated),
      )

  quiet_gap :
      (frame : Option (Frame F)) (as_of : ℕ) (sessions : List ℕ)
      → traded F frame ≡ []
      → gap F frame as_of sessions ≡ 0
  unfolding gap last_date
  quiet_gap frame as_of sessions silent = rw (silent, gap, last_date) refl

  quiet_price : (frame : Option (Frame F)) → traded F frame ≡ [] → last_price F frame ≡ none
  unfolding last_price
  quiet_price frame silent = rw (silent, last_price) refl

  -- Without one row that traded, a listed name of the universe that no stated exclusion set aside is
  -- reported as trading normally and held, however many sessions have passed: the gap stays 0, and
  -- there is no price.
  pub review-no_print :
      (ticker : ℕ) (frame : Option (Frame F)) (as_of : ℕ) (sessions : List ℕ)
      → traded F frame ≡ []
      → let d = review_open_position F ticker frame as_of true sessions false none in
        (gap F frame as_of sessions ≡ 0)
        × (d.reason ≡ trading_normally)
        × (d.action ≡ hold)
        × (d.last_tradeable_price ≡ none)
  unfolding review_open_position
  review-no_print ticker frame as_of sessions silent =
      let none_counted = quiet_gap frame as_of sessions silent in
      (
        none_counted,
        ap (λ n. (classify F n true false none).2) none_counted,
        ap (λ n. (classify F n true false none).1) none_counted,
        quiet_price frame silent,
      )
