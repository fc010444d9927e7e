-- ===== src/Book/Allocate.antt =====
-- book.py: the redistribution loop of `_allocate`, from its first round to its end.
use prosignal.Prelude.{
  ℕ, zero, suc, ◌≤◌, ◌<◌, ◌≡◌, refl, sym, ◌∙◌, subst, inl, inr, Bool, true, false, not, none, some,
  List, [], ◌∷◌, arith, leb, ◌==◌, leb→le, ==_iff, Bool-cases, length, filter, All, elem, IsSetList,
  All-elem,
}
use prosignal.Prelude.Floats.{FloatOps, IsOrdered}
use prosignal.Book.Defs.{
  BookSpec, Allocation, set_amount, amount, cap_one, cap_all, is_done, share_of, capped, place_all,
  redistribute, allocate,
}
use prosignal.Book.Amounts.{
  elem-head, elem-tail, elem-distinct, IsWithin, IsFresh, set_amount-IsWithin, amount-set_amount,
  amount-set_amount_same, length-remove, length-remove_found, remove-IsSetList, elem-remove,
  elem-remove_other,
}
use prosignal.Book.Paid.{IsSetList-filter, IsPaid, IsShared, capped-open, cap_one-IsPaid}
use prosignal.Book.Shares.{share_out-IsWithin, amount-share_out_other, share_out-shares}
use mathlib.Core.List.Perm

module _ (F : FloatOps) where
  open F use {Float, lt, add, div, ratio}

  -- A name that was given up by the loop has its cap.
  abbrev pub HasCaps : (ℕ → Float) → List ℕ → Allocation F → Type 0
  HasCaps caps tradable b =
      All (λ t. amount F t b.alloc ≡ some (caps t))
        (filter (λ t. not (elem t b.open_names)) tradable)

  module _ (o : IsOrdered F) (add_zero : (x : Float) → add (ratio 0 1) x ≡ x)
      (zero_small : lt (ratio 1 1) (ratio 0 1) ≡ false) (caps : ℕ → Float) (capital : Float)
      (tradable : List ℕ) where
    cap_is_within : (t : ℕ) → lt (caps t) (caps t) ≡ false
    cap_is_within t = elim (Bool-cases (lt (caps t) (caps t))) [
      | inl h ↦ o.lt_asym (caps t) (caps t) h
      | inr h ↦ h
    ]

    record IsSound (a : Allocation F) : Type 0 where
      settled :
          (u : ℕ)
          → elem u tradable ≡ true
          → elem u a.open_names ≡ false
          → amount F u a.alloc ≡ some (caps u)
      paid : IsPaid F caps capital tradable a
      distinct : IsSetList a.open_names
      fresh : IsFresh F a.open_names a.alloc
      within : IsWithin F caps a.alloc

    cap_one-IsSound :
        (t : ℕ) (a : Allocation F)
        → elem t a.open_names ≡ true
        → IsSound a
        → IsSound (cap_one F caps t a)
    cap_one-IsSound t a h s = record {
      paid = cap_one-IsPaid F caps capital tradable t a h s.paid;
      settled = λ u there shut. elim (Bool-cases (u == t)) [
        | inl hit ↦
            subst (λ v. amount F v (set_amount F t (caps t) a.alloc) ≡ some (caps v))
              (sym ((==_iff u t).0 hit)) (amount-set_amount_same F t (caps t) a.alloc)
        | inr miss ↦
            amount-set_amount F u t (caps t) a.alloc miss
            ∙ s.settled u there (sym (elem-remove_other F u t a.open_names miss) ∙ shut)
      ];
      distinct = remove-IsSetList F t a.open_names s.distinct;
      fresh = λ u m.
          let (other, there) = elem-remove F u t a.open_names s.distinct m in
          amount-set_amount F u t (caps t) a.alloc other ∙ s.fresh u there;
      within = set_amount-IsWithin F caps t (caps t) a.alloc (cap_is_within t) s.within;
    }

    cap_all-IsSound :
        (ts : List ℕ) (a : Allocation F)
        → IsSetList ts
        → ((u : ℕ) → elem u ts ≡ true → elem u a.open_names ≡ true)
        → IsSound a
        → IsSound (cap_all F caps ts a)
    cap_all-IsSound [] a d m s = s
    cap_all-IsSound (t ∷ ts) a d m s =
        cap_all-IsSound ts (cap_one F caps t a) d.1
          (λ u h.
            elem-remove_other F u t a.open_names (elem-distinct u t ts h d.0)
            ∙ m u (elem-tail u t ts h))
          (cap_one-IsSound t a (m t (elem-head t ts)) s)

    capped-IsSound : (a : Allocation F) → IsSound a → IsSound (cap_all F caps (capped F caps a) a)
    capped-IsSound a s =
        cap_all-IsSound (capped F caps a) a
          (IsSetList-filter (λ t. lt (caps t) (share_of F a)) a.open_names s.distinct)
          (capped-open F caps a) s

    HasCaps-settled :
        (names : List ℕ) (b : Allocation F)
        → ((u : ℕ)
            → elem u names ≡ true
            → elem u b.open_names ≡ false
            → amount F u b.alloc ≡ some (caps u))
        → HasCaps caps names b
    HasCaps-settled [] b h = tt
    HasCaps-settled (t ∷ ts) b h =
        let rest = HasCaps-settled ts b (λ u m. h u (elem-tail u t ts m)) in
        elim (Bool-cases (elem t b.open_names)) [
          | inl open_still ↦ rw (open_still, filter) rest
          | inr shut ↦ rw (shut, filter) (h t (elem-head t ts) shut, rest)
        ]

    -- What the loop ends with.
    abbrev pub IsSettled : Allocation F → Type 0
    IsSettled b =
        (is_done F b ≡ true)
        × (IsWithin F caps b.alloc × (HasCaps caps tradable b × IsShared F caps capital tradable b))

    IsSound-IsSettled : (a : Allocation F) → is_done F a ≡ true → IsSound a → IsSettled a
    IsSound-IsSettled a done s = (
      done,
      (
        s.within,
        (
          HasCaps-settled tradable a s.settled,
          let (ts, (split, paid)) = s.paid in
              (
                ts,
                (split, inl (paid, All-elem a.open_names (λ t. amount F t a.alloc ≡ none) s.fresh)),
              ),
        ),
      ),
    )

    length-cap_all :
        (ts : List ℕ) (a : Allocation F)
        → length (cap_all F caps ts a).open_names ≤ length a.open_names
    length-cap_all [] a = omega arith
    length-cap_all (t ∷ ts) a =
        omega (arith, length-cap_all ts (cap_one F caps t a), length-remove F t a.open_names)

    filter-none :
        (p : ℕ → Bool) (ts : List ℕ) → length (filter p ts) ≤ 0 → All (λ t. p t ≡ false) ts
    filter-none p [] = λ h. tt
    filter-none p (t ∷ ts) = elim (Bool-cases (p t)) [
      | inl hit ↦ rw hit (λ h. absurd (omega arith))
      | inr miss ↦ rw miss (λ h. (refl, filter-none p ts h))
    ]

    -- A round that caps a name leaves fewer of them open.
    cap_all-fewer :
        (ts : List ℕ) (a : Allocation F)
        → 0 < length ts
        → ((u : ℕ) → elem u ts ≡ true → elem u a.open_names ≡ true)
        → length (cap_all F caps ts a).open_names < length a.open_names
    cap_all-fewer [] a h m = absurd (omega arith)
    cap_all-fewer (t ∷ ts) a h m = omega (
      arith,
      length-cap_all ts (cap_one F caps t a),
      length-remove_found F t a.open_names (m t (elem-head t ts)),
    )

    place_all-done : (a : Allocation F) → is_done F (place_all F a) ≡ true
    place_all-done a = elim (Bool-cases (leb (length a.open_names) 0)) [
      | inl empty ↦ rw empty refl
      | inr names ↦ rw (names, is_done) (rw zero_small refl)
    ]

    place_all-IsSettled :
        (a : Allocation F) → length (capped F caps a) ≤ 0 → IsSound a → IsSettled (place_all F a)
    place_all-IsSettled a nothing s =
        let share = share_of F a in
        let fits = filter-none (λ t. lt (caps t) share) a.open_names nothing in
        (
          place_all-done a,
          (
            share_out-IsWithin F add_zero caps share a.open_names a.alloc s.distinct s.fresh fits
                s.within,
            (
              HasCaps-settled tradable (place_all F a) (λ u there shut.
                  amount-share_out_other F add_zero share u a.open_names a.alloc shut
                  ∙ s.settled u there shut),
              let (ts, (split, paid)) = s.paid in
                  (
                    ts,
                    (
                      split,
                      inr (
                        refl,
                        subst
                            (λ x.
                              All
                                (λ t.
                                  amount F t (place_all F a).alloc
                                  ≡ some (div x (ratio (length a.open_names) 1)))
                                a.open_names)
                            paid
                            (share_out-shares F add_zero share a.open_names a.alloc s.distinct
                              s.fresh),
                      ),
                    ),
                  ),
            ),
          ),
        )

    redistribute-IsWithin :
        (fuel : ℕ) (a : Allocation F)
        → length a.open_names < fuel
        → IsSound a
        → (b : Allocation F) × ((redistribute F caps fuel a ≡ some b) × IsSettled b)
    unfolding redistribute
    redistribute-IsWithin zero a h s = absurd (omega arith)
    redistribute-IsWithin (suc fuel) a h s = elim (Bool-cases (is_done F a)) [
      | inl done ↦ rw done (a, (refl, IsSound-IsSettled a done s))
      | inr going ↦ elim (Bool-cases (leb (length (capped F caps a)) 0)) [
        | inl nothing ↦
            rw going
              (rw nothing (place_all F a, (refl, place_all-IsSettled a (leb→le _ _ nothing) s)))
        | inr more ↦
            let fewer = cap_all-fewer (capped F caps a) a (ground arith) (capped-open F caps a) in
            rw going (
              rw more (
                redistribute-IsWithin fuel (cap_all F caps (capped F caps a) a) (omega arith)
                  (capped-IsSound a s)))
      ]
    ]

  -- With distinct names the loop ends within as many rounds as there are names and one. Then no name
  -- gets more than its cap, and every name that is no longer open gets just its cap. Either nothing
  -- more was given: all that these caps leave of the capital is left, and no name is open or it is
  -- no more than 1. Or it is divided: each name still open gets that rest over their number, and
  -- nothing is left. The laws used: adding zero, a zero not above one, and the order.
  pub allocate-IsWithin :
      (o : IsOrdered F) (add_zero : (x : Float) → add (ratio 0 1) x ≡ x)
      (zero_small : lt (ratio 1 1) (ratio 0 1) ≡ false) (caps : ℕ → Float) (spec : BookSpec F)
      (tradable : List ℕ)
      → IsSetList tradable
      → (b : Allocation F) × ((allocate F caps spec tradable ≡ some b)
          × ((is_done F b ≡ true)
              × (IsWithin F caps b.alloc
                  × (HasCaps caps tradable b × IsShared F caps spec.capital tradable b))))
  unfolding allocate
  allocate-IsWithin o add_zero zero_small caps spec tradable s =
      redistribute-IsWithin o add_zero zero_small caps spec.capital tradable (suc (length tradable))
        (record { alloc = []; remaining = spec.capital; open_names = tradable }) (omega arith)
        (record {
          settled = λ u there shut. cc;
          paid = ([], (Perm.refl tradable, refl));
          distinct = s;
          fresh = λ u h. refl;
          within = tt;
        })
