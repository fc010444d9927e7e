-- ===== src/Exits/Walk.antt =====
-- features/exits.py: a position walked bar by bar, and what the masks find of the same bars.
use prosignal.Prelude.{
  ℕ, suc, ◌+◌, ◌≤◌, ◌<◌, ◌≡◌, refl, sym, ap, ◌∙◌, subst, inl, inr, Bool, true, false, ◌&&◌, Option,
  none, some, List, [], ◌∷◌, arith, if◌then◌else◌, Bool-cases, length, get_elem?, any,
}
use prosignal.Exits.Defs.{Side, exit_stop, exit_target, exit_invalidation, exit_timeout, first_hit}

abbrev later {ℓ} : {A : Type ℓ} → Option (ℕ × Side × A) → Option (ℕ × Side × A)
later none = none
later (some (k, side, b)) = some (suc k, side, b)

module _ {A : Type 0} where
  module _ (stops invalidates takes : A → Bool) where
    -- Bar by bar: on a bar that meets several levels the stop comes first, then the invalidation,
    -- then the target.
    abbrev pub walk : List A → Option (ℕ × Side × A)
    walk [] = none
    walk (b ∷ bs) =
        let rest = later (walk bs) in
        if stops b
        then some (0, exit_stop, b)
        else if invalidates b
        then some (0, exit_invalidation, b)
        else if takes b
        then some (0, exit_target, b)
        else rest

  pub first_hit-cons :
      (mask : A → Bool) (b : A) (bs : List A)
      → first_hit mask (b ∷ bs) ≡ (if mask b then 0 else suc (first_hit mask bs))
  unfolding first_hit
  first_hit-cons mask b bs = elim (Bool-cases (mask b)) [
    | inl hit ↦ rw hit refl
    | inr miss ↦ rw miss (elim (Bool-cases (any mask bs)) [
      | inl some_hit ↦ rw some_hit refl
      | inr no_hit ↦ rw no_hit (omega arith)
    ])
  ]

  first_hit-nil : (mask : A → Bool) → first_hit mask [] ≡ 1
  unfolding first_hit
  first_hit-nil mask = refl

  -- An exit that is not armed is one whose mask never hits.
  pub first_hit-armed :
      (armed : Bool) (mask : A → Bool) (bs : List A)
      → (if armed then first_hit mask bs else length bs + 1) ≡ first_hit (λ b. armed && mask b) bs
  first_hit-armed true mask bs = refl
  first_hit-armed false mask bs = sym (never bs)
    where
      never : (bs : List A) → first_hit (λ (b : A). false) bs ≡ length bs + 1
      never [] = first_hit-nil (λ b. false)
      never (b ∷ bs) = omega (arith, first_hit-cons (λ (b : A). false) b bs, never bs)

  -- What the first hits of the three masks say of the end of a walk
  abbrev pub IsEnd : ℕ → ℕ → ℕ → List A → Option (ℕ × Side × A) → Type 0
  IsEnd s v t bs none = (length bs < s) × (length bs < v) × (length bs < t)
  IsEnd s v t bs (some (k, exit_stop, b)) =
      (s ≡ k) × (k ≤ v) × (k ≤ t) × (k < length bs) × (get_elem? bs k ≡ some b)
  IsEnd s v t bs (some (k, exit_invalidation, b)) =
      (k < s) × (v ≡ k) × (k ≤ t) × (k < length bs) × (get_elem? bs k ≡ some b)
  IsEnd s v t bs (some (k, exit_target, b)) =
      (k < s) × (k < v) × (t ≡ k) × (k < length bs) × (get_elem? bs k ≡ some b)
  IsEnd s v t bs (some (k, exit_timeout, b)) = ⊥

  IsEnd-later :
      (s v t : ℕ) (b : A) (bs : List A) (w : Option (ℕ × Side × A))
      → IsEnd s v t bs w
      → IsEnd (suc s) (suc v) (suc t) (b ∷ bs) (later w)
  IsEnd-later s v t b bs none h = (omega arith, omega arith, omega arith)
  IsEnd-later s v t b bs (some (k, exit_stop, c)) h =
      (ap suc h.0, omega (arith, h.1), omega (arith, h.2), omega (arith, h.3), h.4)
  IsEnd-later s v t b bs (some (k, exit_invalidation, c)) h =
      (omega (arith, h.0), ap suc h.1, omega (arith, h.2), omega (arith, h.3), h.4)
  IsEnd-later s v t b bs (some (k, exit_target, c)) h =
      (omega (arith, h.0), omega (arith, h.1), ap suc h.2, omega (arith, h.3), h.4)
  IsEnd-later s v t b bs (some (k, exit_timeout, c)) h = h

  pub walk-IsEnd :
      (p q r : A → Bool) (bs : List A)
      → IsEnd (first_hit p bs) (first_hit q bs) (first_hit r bs) bs (walk p q r bs)
  walk-IsEnd p q r [] = (
    omega (arith, first_hit-nil p),
    omega (arith, first_hit-nil q),
    omega (arith, first_hit-nil r),
  )
  walk-IsEnd p q r (b ∷ bs) = elim (Bool-cases (p b)) [
    | inl hp ↦
        rw hp (first_hit-cons p b bs ∙ rw hp refl, omega arith, omega arith, omega arith, refl)
    | inr np ↦
        let fs : first_hit p (b ∷ bs) ≡ suc (first_hit p bs) = first_hit-cons p b bs ∙ rw np refl in
        elim (Bool-cases (q b)) [
          | inl hq ↦
              rw (np, hq)
                (
                  omega (arith, fs),
                  first_hit-cons q b bs ∙ rw hq refl,
                  omega arith,
                  omega arith,
                  refl,
                )
          | inr nq ↦
              let fv : first_hit q (b ∷ bs) ≡ suc (first_hit q bs) =
                first_hit-cons q b bs ∙ rw nq refl in
              elim (Bool-cases (r b)) [
                | inl hr ↦
                    rw (np, nq, hr)
                      (
                        omega (arith, fs),
                        omega (arith, fv),
                        first_hit-cons r b bs ∙ rw hr refl,
                        omega arith,
                        refl,
                      )
                | inr nr ↦
                    let ft : first_hit r (b ∷ bs) ≡ suc (first_hit r bs) =
                      first_hit-cons r b bs ∙ rw nr refl in
                    let step =
                      IsEnd-later (first_hit p bs) (first_hit q bs) (first_hit r bs) b bs
                        (walk p q r bs) (walk-IsEnd p q r bs) in
                    rw (np, nq, nr)
                      (subst
                        (λ x.
                          IsEnd x (first_hit q (b ∷ bs)) (first_hit r (b ∷ bs)) (b ∷ bs)
                            (later (walk p q r bs)))
                        (sym fs)
                        (subst
                          (λ x.
                            IsEnd (suc (first_hit p bs)) x (first_hit r (b ∷ bs)) (b ∷ bs)
                              (later (walk p q r bs)))
                          (sym fv)
                          (subst
                            (λ x.
                              IsEnd (suc (first_hit p bs)) (suc (first_hit q bs)) x (b ∷ bs)
                                (later (walk p q r bs)))
                            (sym ft) step)))
              ]
        ]
  ]
