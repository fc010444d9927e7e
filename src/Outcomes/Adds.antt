-- ===== src/Outcomes/Adds.antt =====
-- outcomes.py: what scoring the pending items adds.
use prosignal.Prelude.{
  ℕ, ◌+◌, ◌≡◌, refl, ap, ◌∙◌, ◌⊎◌, inl, inr, Bool, true, false, Option, none, some, List, [], ◌∷◌,
  ◌++◌, map, arith, ltb, Bool-cases, Option-cases, is_some, length, take, All, ok, last_of,
}
use prosignal.Prelude.Floats.{FloatOps}
use prosignal.Outcomes.Defs.{Holdings, Session, Ending, running, ended, walk_bars}
use prosignal.Outcomes.Resolve.{
  Rec, basis_factor, Trade, Outcome, still_open, refused, no_stop, resolved, levels_of, start_walk,
  conclude, resolve_priced, unpriced, resolve_future, after, resolve_one,
}
use prosignal.Outcomes.Pending.{
  same_pair, has_pair, Item, call_of, Entry, Tally, score, existing, entry_call,
}
use prosignal.Outcomes.Once.{IsOnce, or_false, same_pair_eq, IsOpen}

append_nil {ℓ} : {A : Type ℓ} (xs : List A) → xs ≡ xs ++ []
append_nil [] = refl
append_nil (x ∷ xs) = ap (λ zs. x ∷ zs) (append_nil xs)

append_assoc {ℓ} :
    {A : Type ℓ} (xs : List A) (e : A) (ys : List A) → (xs ++ e ∷ []) ++ ys ≡ xs ++ e ∷ ys
append_assoc [] e ys = refl
append_assoc (x ∷ xs) e ys = ap (λ zs. x ∷ zs) (append_assoc xs e ys)

-- Lists of which no element of the first is in the second
pub apart-All :
    (zs ys : List (ℕ × ℕ))
    → ((c : ℕ × ℕ) → has_pair c ys ≡ true → has_pair c zs ≡ false)
    → All (λ y. has_pair y zs ≡ false) ys
apart-All zs [] h = tt
apart-All zs (y ∷ ys) h =
    (h y (ground (arith, same_pair_refl y)), apart-All zs ys (λ c k. h c (ground arith)))
  where
    same_pair_refl : (c : ℕ × ℕ) → same_pair c c ≡ true
    same_pair_refl (a, b) = ground arith

module _ (F : FloatOps) (isfinite : F.Float → Bool) where
  conclude-ne-no_stop :
      (b : Session F isfinite) (factor : F.Float) (max_hold : ℕ) (walk : List (Session F isfinite))
      (e : Ending F isfinite)
      → conclude F isfinite b factor max_hold walk e ≡ no_stop
      → ⊥
  unfolding conclude
  conclude-ne-no_stop b factor max_hold walk (ended p d r w) = λ h. cc
  conclude-ne-no_stop b factor max_hold walk (running w) =
      elim (Bool-cases (ltb (length walk) max_hold)) [
        | inl short ↦ rw short (λ h. cc)
        | inr full ↦ elim (Option-cases (last_of walk)) [
          | inl absent ↦ rw full (rw absent (λ h. cc))
          | inr (l, there) ↦ rw full (rw there (λ h. cc))
        ]
      ]

  -- Only a missing stop makes scoring fail.
  pub resolve_one-ne-no_stop :
      (book : Holdings) (use_target : Bool) (max_hold : ℕ) (rec : Rec F isfinite) (day : ℕ)
      (frame : List (Session F isfinite))
      → is_some rec.stop ≡ true
      → resolve_one F isfinite book use_target max_hold rec day frame ≡ no_stop
      → ⊥
  unfolding resolve_one
  resolve_one-ne-no_stop book use_target max_hold rec day frame has_stop =
      future (basis_factor F isfinite rec frame day) (after F isfinite day frame)
    where
      priced :
          (basis level : Option F.Float) (b : Session F isfinite) (rest : List (Session F isfinite))
          → is_some level ≡ true
          → resolve_priced F isfinite book use_target max_hold rec b rest basis level ≡ no_stop
          → ⊥
      priced none level b rest s h = cc
      priced (some f) none b rest s h = cc
      priced (some f) (some x) b rest s h =
          conclude-ne-no_stop b f max_hold (take max_hold rest)
            (walk_bars F isfinite book rec.ticker
              (levels_of F isfinite rec x f b.open_price use_target) (take max_hold rest)
              (start_walk F isfinite b.date))
            h

      future :
          (basis : Option F.Float) (bs : List (Session F isfinite))
          → resolve_future F isfinite book use_target max_hold rec basis bs ≡ no_stop
          → ⊥
      future basis [] = λ h. cc
      future basis (b ∷ rest) = elim (Bool-cases (unpriced F isfinite b)) [
        | inl bad ↦ rw bad (λ h. cc)
        | inr good ↦ rw good (priced basis rec.stop b rest has_stop)
      ]

  pub open-off_file :
      (keys on_file : List (ℕ × ℕ)) (items : List (Item F isfinite)) (c : ℕ × ℕ)
      → All (IsOpen F isfinite keys on_file) items
      → has_pair c (map (call_of F isfinite) items) ≡ true
      → has_pair c on_file ≡ false
  open-off_file keys on_file [] c opens h = cc
  open-off_file keys on_file (i ∷ items) c opens h =
      elim (Bool-cases (same_pair c (call_of F isfinite i))) [
        | inl same ↦
            ap (λ d. has_pair d on_file) (same_pair_eq c (call_of F isfinite i) same) ∙ opens.0.0
        | inr other ↦ open-off_file keys on_file items c opens.1 (ground arith)
      ]

  abbrev pub EntriesOnce : List (Entry F isfinite) → Type 0
  EntriesOnce outcomes = IsOnce (map (entry_call F isfinite) (existing F isfinite outcomes))

  -- What scoring adds to a tally, for items whose calls are distinct
  abbrev pub Adds : List (Item F isfinite) → Tally F isfinite → Tally F isfinite → Type 0
  Adds items t u =
      (new : List (Entry F isfinite)) × (u.written ≡ t.written ++ new)
      × (existing F isfinite new ≡ new)
      × IsOnce (map (entry_call F isfinite) new)
      × ((c : ℕ × ℕ)
          → has_pair c (map (call_of F isfinite) items) ≡ false
          → has_pair c (map (entry_call F isfinite) new) ≡ false)
      × (u.still_open + u.refused + length new ≡ t.still_open + t.refused + length items)

  Outcome-cases :
      (o : Outcome F isfinite)
      → (o ≡ still_open)
        ⊎ (o ≡ refused)
        ⊎ (o ≡ no_stop)
        ⊎ ((x : Trade F isfinite) × (o ≡ resolved x))
  Outcome-cases still_open = inl refl
  Outcome-cases refused = inr (inl refl)
  Outcome-cases no_stop = inr (inr (inl refl))
  Outcome-cases (resolved x) = inr (inr (inr (x, refl)))

  Adds-skipped :
      (i : Item F isfinite) (items : List (Item F isfinite)) (t s u : Tally F isfinite)
      → s.written ≡ t.written
      → s.still_open + s.refused ≡ t.still_open + t.refused + 1
      → Adds items s u
      → Adds (i ∷ items) t u
  Adds-skipped i items t s u same one (new, wrote, cur, once, apart, sum) = (
    new,
    wrote ∙ ap (λ ws. ws ++ new) same,
    cur,
    once,
    λ c h.
        apart c
          (or_false (same_pair c (call_of F isfinite i))
            (has_pair c (map (call_of F isfinite) items)) h).1,
    omega (arith, sum, one),
  )

  pub score-Adds :
      (resolve : Item F isfinite → Outcome F isfinite) (items : List (Item F isfinite))
      (t : Tally F isfinite)
      → All (λ i. resolve i ≡ no_stop → ⊥) items
      → IsOnce (map (call_of F isfinite) items)
      → (u : Tally F isfinite) × (score F isfinite resolve items t ≡ ok u) × Adds items t u
  score-Adds resolve [] t safe once =
      (t, refl, ([], append_nil t.written, refl, tt, λ c h. refl, omega arith))
  score-Adds resolve (i ∷ items) t safe once = elim (Outcome-cases (resolve i)) [
    | inl o ↦
        let (u, done, adds) =
          score-Adds resolve items (record t { still_open = t.still_open + 1 }) safe.1 once.1 in
        (
          u,
          rw (o, score) done,
          Adds-skipped i items t (record t { still_open = t.still_open + 1 }) u refl (omega arith)
              adds,
        )
    | inr (inl o) ↦
        let (u, done, adds) =
          score-Adds resolve items (record t { refused = t.refused + 1 }) safe.1 once.1 in
        (
          u,
          rw (o, score) done,
          Adds-skipped i items t (record t { refused = t.refused + 1 }) u refl (omega arith) adds,
        )
    | inr (inr (inl o)) ↦ absurd (safe.0 o)
    | inr (inr (inr (x, o))) ↦
        let e : Entry F isfinite = record {
          run_id = i.run_id;
          ticker = i.rec.ticker;
          signal_date = i.date;
          current = true;
          trade = some x;
        } in
        let (u, done, (new, wrote, cur, once', apart, sum)) =
          score-Adds resolve items (record t { written = t.written ++ e ∷ [] }) safe.1 once.1 in
        (
          u,
          rw (o, score) done,
          (
            e ∷ new,
            wrote ∙ append_assoc t.written e new,
            ap (λ es. e ∷ es) cur,
            (apart (call_of F isfinite i) once.0, once'),
            λ c h.
                let (a, b) =
                  or_false (same_pair c (call_of F isfinite i))
                    (has_pair c (map (call_of F isfinite) items)) h in
                rw a (apart c b),
            omega (arith, sum),
          ),
        )
  ]
