-- ===== src/Outcomes/Scored.antt =====
-- outcomes.py: `resolve_pending` as a whole.
use prosignal.Prelude.{
  ℕ, ◌+◌, ◌≡◌, refl, sym, ap, ◌∙◌, subst, Bool, true, false, List, [], ◌∷◌, ◌++◌, map, arith,
  length, All, filter-append, ok,
}
use prosignal.Prelude.Floats.{FloatOps}
use prosignal.Outcomes.Defs.{Session}
use prosignal.Outcomes.Resolve.{no_stop}
use prosignal.Outcomes.Pending.{
  Run, Item, book_by_date, Entry, Tally, existing, entry_call, pending_of, resolve_item,
  empty_tally, resolve_pending,
}
use prosignal.Outcomes.Once.{IsOnce, IsOnce-append, map-append, IsOpen, pending-IsOnce}
use prosignal.Outcomes.Adds.{
  apart-All, resolve_one-ne-no_stop, open-off_file, EntriesOnce, score-Adds,
}

module _ (F : FloatOps) (isfinite : F.Float → Bool) where
  -- Scoring never fails; each pending signal is written, open or refused; and where no two current
  -- rows of the outcomes file are of one call, this holds after it too: a call is written once,
  -- however often `resolve_pending` runs.
  pub resolve_pending-once :
      (by_symbol : ℕ → List (Session F isfinite)) (use_target : Bool) (max_hold : ℕ)
      (rows : List (Run F isfinite)) (outcomes : List (Entry F isfinite))
      → EntriesOnce F isfinite outcomes
      → (u : List (Entry F isfinite)) × (t : Tally F isfinite) × (resolve_pending F isfinite
            by_symbol use_target max_hold rows outcomes
          ≡ ok (u, t))
        × (u ≡ outcomes ++ t.written)
        × EntriesOnce F isfinite u
        × (length t.written + t.still_open + t.refused
            ≡ length (pending_of F isfinite rows outcomes))
  unfolding resolve_pending
  resolve_pending-once by_symbol use_target max_hold rows outcomes filed =
      let items = pending_of F isfinite rows outcomes in
      let keys =
        map (λ (e : Entry F isfinite). (e.run_id, e.ticker)) (existing F isfinite outcomes) in
      let on_file = map (entry_call F isfinite) (existing F isfinite outcomes) in
      let (once, opens) = pending-IsOnce F isfinite keys on_file rows in
      let (t, done, (new, wrote, cur, once', apart, sum)) =
        score-Adds F isfinite (resolve_item F isfinite by_symbol use_target max_hold rows) items
          (empty_tally F isfinite) (safe items opens) once in
      let wrote' : t.written ≡ new = wrote in
      let filed' : map (entry_call F isfinite) (existing F isfinite (outcomes ++ new))
          ≡ on_file ++ map (entry_call F isfinite) new =
        ap (map (entry_call F isfinite)) (
          filter-append (λ (e : Entry F isfinite). e.current) outcomes new
          ∙ ap (λ es. existing F isfinite outcomes ++ es) cur)
        ∙ map-append (entry_call F isfinite) (existing F isfinite outcomes) new in
      (
        outcomes ++ t.written,
        t,
        rw done refl,
        refl,
        subst (λ ws. EntriesOnce F isfinite (outcomes ++ ws)) (sym wrote')
            (subst IsOnce (sym filed') (
              IsOnce-append on_file (map (entry_call F isfinite) new) filed once' (
                apart-All on_file (map (entry_call F isfinite) new) (λ c k.
                  open-off_file F isfinite keys on_file items c opens (pulled c (apart c) k))))),
        omega (arith, sum, ap (λ (ws : List (Entry F isfinite)). length ws) wrote'),
      )
    where
      pulled : (c : ℕ × ℕ) {b d : Bool} → (b ≡ false → d ≡ false) → d ≡ true → b ≡ true
      pulled c {b = true} h k = refl
      pulled c {b = false} h k = let bad = h refl in cc

      safe :
          (items : List (Item F isfinite))
          → All
              (IsOpen F isfinite
                (map (λ e. (e.run_id, e.ticker)) (existing F isfinite outcomes))
                (map (entry_call F isfinite) (existing F isfinite outcomes)))
              items
          → All
              (λ i. resolve_item F isfinite by_symbol use_target max_hold rows i ≡ no_stop → ⊥)
              items
      safe [] h = tt
      safe (i ∷ items) h = (
        resolve_one-ne-no_stop F isfinite (book_by_date F isfinite rows) use_target max_hold i.rec
            i.date (by_symbol i.rec.ticker) h.0.1,
        safe items h.1,
      )
