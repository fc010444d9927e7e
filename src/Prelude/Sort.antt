-- ===== src/Prelude/Sort.antt =====
-- `sorted(xs, key=…)`, which is stable, and membership in a list.
use mathlib.Core.Path.{◌≡◌, refl, sym, ap, ◌∙◌, subst}
use mathlib.Core.Logic.{◌↔◌, ◌⊎◌, inl, inr}
use mathlib.Core.Bool.{Bool, true, false}
use mathlib.Core.Option.{Option, none, some}
use mathlib.Core.List.{List, [], ◌∷◌}
use prosignal.Prelude.Tests.{if◌then◌else◌, Bool-cases, Option-cases}
use prosignal.Prelude.Lists.{filter, All}

module _ {ℓ} {A : Type ℓ} where
  -- `lt x y` says that the key of `x` is the smaller one.
  abbrev pub insert_by : (A → A → Bool) → A → List A → List A
  insert_by lt x [] = x ∷ []
  insert_by lt x (y ∷ ys) = let rest = insert_by lt x ys in if lt y x then y ∷ rest else x ∷ y ∷ ys

  abbrev pub sort_by : (A → A → Bool) → List A → List A
  sort_by lt [] = []
  sort_by lt (x ∷ xs) = insert_by lt x (sort_by lt xs)

  abbrev pub last_of : List A → Option A
  last_of [] = none
  last_of (x ∷ xs) = elim (last_of xs) [ some l ↦ some l | none ↦ some x ]

module _ {A : Type 0} where
  abbrev pub Has : A → List A → Type 0
  Has a [] = ⊥
  Has a (x ∷ xs) = (x ≡ a) ⊎ Has a xs

  pub Has-insert_by :
      (lt : A → A → Bool) (a x : A) (ys : List A) → Has a (insert_by lt x ys) ↔ Has a (x ∷ ys)
  Has-insert_by lt a x [] = (λ h. h, λ h. h)
  Has-insert_by lt a x (y ∷ ys) = elim (Bool-cases (lt y x)) [
    | inl before ↦ rw before (
      λ h. elim h [
        | inl e ↦ inr (inl e)
        | inr t ↦ elim ((Has-insert_by lt a x ys).0 t) [ inl e ↦ inl e | inr u ↦ inr (inr u) ]
      ],
      λ h. elim h [
        | inl e ↦ inr ((Has-insert_by lt a x ys).1 (inl e))
        | inr t ↦ elim t [ inl e ↦ inl e | inr u ↦ inr ((Has-insert_by lt a x ys).1 (inr u)) ]
      ],
    )
    | inr after ↦ rw after (λ h. h, λ h. h)
  ]

  pub Has-sort_by : (lt : A → A → Bool) (a : A) (xs : List A) → Has a (sort_by lt xs) ↔ Has a xs
  Has-sort_by lt a [] = (λ h. h, λ h. h)
  Has-sort_by lt a (x ∷ xs) =
      let step = Has-insert_by lt a x (sort_by lt xs) in
      let ih = Has-sort_by lt a xs in
      (
        λ h. elim (step.0 h) [ inl e ↦ inl e | inr t ↦ inr (ih.0 t) ],
        λ h.
            step.1
              (elim h as (λ _. Has a (x ∷ sort_by lt xs)) [ inl e ↦ inl e | inr t ↦ inr (ih.1 t) ]),
      )

  pub Has-filter :
      (p : A → Bool) (a : A) (xs : List A) → Has a (filter p xs) ↔ (Has a xs × (p a ≡ true))
  Has-filter p a [] = (λ h. absurd h, λ h. h.0)
  Has-filter p a (x ∷ xs) = elim (Bool-cases (p x)) [
    | inl pass ↦ rw pass (
      λ h. elim h [
        | inl e ↦ (inl e, rw (← e) pass)
        | inr t ↦ let u = (Has-filter p a xs).0 t in (inr u.0, u.1)
      ],
      λ h. elim h.0 [ inl e ↦ inl e | inr t ↦ inr ((Has-filter p a xs).1 (t, h.1)) ],
    )
    | inr fail ↦ rw fail (
      λ h. let u = (Has-filter p a xs).0 h in (inr u.0, u.1),
      λ h. elim h.0 [
        | inl e ↦ let hit : p x ≡ true = rw e h.1 in cc
        | inr t ↦ (Has-filter p a xs).1 (t, h.1)
      ],
    )
  ]

  pub last_of-Has : (xs : List A) (a : A) → last_of xs ≡ some a → Has a xs
  last_of-Has [] a = λ h. cc
  last_of-Has (x ∷ xs) a = elim (Option-cases (last_of xs)) [
    | inl end ↦ rw end (λ h. inl (cc))
    | inr (l, more) ↦ rw more (λ h. inr (last_of-Has xs a (more ∙ h)))
  ]

  pub last_of-none : (xs : List A) → last_of xs ≡ none → xs ≡ []
  last_of-none [] = λ h. refl
  last_of-none (x ∷ xs) = elim (Option-cases (last_of xs)) [
    | inl end ↦ rw end (λ h. cc)
    | inr (l, more) ↦ rw more (λ h. cc)
  ]

  pub All-Has {κ} : (P : A → Type κ) (xs : List A) (a : A) → All P xs → Has a xs → P a
  All-Has P [] a h m = absurd m
  All-Has P (x ∷ xs) a h m = elim m [ inl e ↦ subst P e h.0 | inr t ↦ All-Has P xs a h.1 t ]

-- The last of a sorted list is not before any other.
module _ {A : Type 0} (lt : A → A → Bool) (lt_asym : (a b : A) → lt a b ≡ true → lt b a ≡ false)
    (ge_trans : (a b c : A) → lt a b ≡ false → lt b c ≡ false → lt a c ≡ false) where
  abbrev LastIsTop : List A → Type 0
  LastIsTop xs = (m : A) → last_of xs ≡ some m → All (λ y. lt m y ≡ false) xs

  lt_irrefl : (x : A) → lt x x ≡ false
  lt_irrefl x = elim (Bool-cases (lt x x)) [ inl h ↦ lt_asym x x h | inr h ↦ h ]

  last_of-cons : (x l : A) (xs : List A) → last_of xs ≡ some l → last_of (x ∷ xs) ≡ some l
  last_of-cons x l xs h = rw h refl

  LastIsTop-tail : (x : A) (xs : List A) → LastIsTop (x ∷ xs) → LastIsTop xs
  LastIsTop-tail x xs top m h = (top m (last_of-cons x m xs h)).1

  top_above :
      (l x : A) (ys : List A)
      → lt l x ≡ false
      → All (λ y. lt x y ≡ false) ys
      → All (λ y. lt l y ≡ false) ys
  top_above l x [] h a = tt
  top_above l x (y ∷ ys) h a = (ge_trans l x y h a.0, top_above l x ys h a.1)

  last_of-insert_by : (x : A) (ys : List A) → (l : A) × (last_of (insert_by lt x ys) ≡ some l)
  last_of-insert_by x [] = (x, refl)
  last_of-insert_by x (y ∷ ys) = elim (Bool-cases (lt y x)) [
    | inl before ↦
        let (l, e) = last_of-insert_by x ys in
        (l, rw before (last_of-cons y l (insert_by lt x ys) e))
    | inr after ↦ elim (Option-cases (last_of ys)) [
      | inl end ↦ (y, rw after (rw end refl))
      | inr (m, more) ↦ (m, rw after (rw more refl))
    ]
  ]

  some_eq : {a b : A} → some a ≡ some b → a ≡ b
  some_eq h = cc

  last_of-drop :
      (x y l : A) (ys : List A) → last_of (x ∷ y ∷ ys) ≡ some l → last_of (y ∷ ys) ≡ some l
  last_of-drop x y l ys = elim (Option-cases (last_of ys)) [
    | inl end ↦ rw end (λ h. h)
    | inr (m, more) ↦ rw more (λ h. h)
  ]

  All-inserted :
      (x : A) (ys : List A) (m : A)
      → lt m x ≡ false
      → All (λ y. lt m y ≡ false) ys
      → All (λ y. lt m y ≡ false) (insert_by lt x ys)
  All-inserted x [] m h a = (h, tt)
  All-inserted x (y ∷ ys) m h a = elim (Bool-cases (lt y x)) [
    | inl before ↦ rw before (a.0, All-inserted x ys m h a.1)
    | inr after ↦ rw after (h, a)
  ]

  insert_by-LastIsTop :
      (x : A) (ys : List A)
      → LastIsTop ys
      → (l : A) → last_of (insert_by lt x ys) ≡ some l
      → (lt l x ≡ false) × All (λ y. lt l y ≡ false) ys
  insert_by-LastIsTop x [] top l =
      λ h. let same : x ≡ l = cc in (subst (λ z. lt z x ≡ false) same (lt_irrefl x), tt)
  insert_by-LastIsTop x (y ∷ ys) top l = elim (Bool-cases (lt y x)) [
    | inl before ↦ rw before (λ h.
        let (l', e) = last_of-insert_by x ys in
        let same : l' ≡ l = some_eq (sym (last_of-cons y l' (insert_by lt x ys) e) ∙ h) in
        let (above, rest) =
          insert_by-LastIsTop x ys (LastIsTop-tail y ys top) l (e ∙ ap (λ z. some z) same) in
        (above, (ge_trans l x y above (lt_asym y x before), rest)))
    | inr after ↦ rw after (λ h.
        let all_below = top l (last_of-drop x y l ys h) in
        (ge_trans l y x all_below.0 after, all_below))
  ]

  pub sort_by-LastIsTop : (xs : List A) → LastIsTop (sort_by lt xs)
  sort_by-LastIsTop [] m h = tt
  sort_by-LastIsTop (x ∷ xs) m h =
      let (above, rest) = insert_by-LastIsTop x (sort_by lt xs) (sort_by-LastIsTop xs) m h in
      All-inserted x (sort_by lt xs) m above rest
