-- ===== src/Epoch/Records.antt =====
-- validation/epoch.py: what `load_all` holds while it reads.
use prosignal.Prelude.{
  ℕ, zero, suc, ◌≡◌, refl, sym, ap, ◌∙◌, subst, ◌⊎◌, inl, inr, true, false, Option, none, some,
  List, [], ◌∷◌, ◌++◌, arith, ◌==◌, ==_iff, Bool-cases, Option-cases, is_some, get_elem?, elem,
  elem-append,
}
use prosignal.Epoch.Defs.{
  Epoch, is_open, Line, blank, unreadable, entry, Loaded, put, read_line, read_lines, empty,
  collect, last_open,
}

pub record IsKept (l : Loaded) : Type 0 where
  pub keyed : (k : ℕ) (e : Epoch) → l.latest k ≡ some e → e.epoch_id ≡ k
  pub listed : (k : ℕ) (e : Epoch) → l.latest k ≡ some e → elem k l.order ≡ true
  pub present : (k : ℕ) → elem k l.order ≡ true → is_some (l.latest k) ≡ true

-- At most one id has an open epoch.
abbrev pub IsSingle : Loaded → Type 0
IsSingle l =
    (k j : ℕ) (e f : Epoch)
    → l.latest k ≡ some e
    → l.latest j ≡ some f
    → is_open e ≡ true
    → is_open f ≡ true
    → k ≡ j

abbrev pub HasNoOpen : Loaded → Type 0
HasNoOpen l = (k : ℕ) (e : Epoch) → l.latest k ≡ some e → is_open e ≡ false

put-cases :
    (e f : Epoch) (l : Loaded) (k : ℕ)
    → put e l.latest k ≡ some f
    → ((e.epoch_id ≡ k) × (e ≡ f)) ⊎ (l.latest k ≡ some f)
put-cases e f l k = elim (Bool-cases (e.epoch_id == k)) [
  | inl same ↦ rw same (λ h. inl ((==_iff e.epoch_id k).0 same, cc))
  | inr other ↦ rw other (λ h. inr h)
]

pub put_self : (e : Epoch) (latest : ℕ → Option Epoch) → put e latest e.epoch_id ≡ some e
put_self e latest = let same = (==_iff e.epoch_id e.epoch_id).1 refl in rw same refl

-- Past a closed epoch, an open one is under another id.
pub put-open :
    (e f : Epoch) (latest : ℕ → Option Epoch) (k : ℕ)
    → is_open e ≡ false
    → is_open f ≡ true
    → put e latest k ≡ some f
    → ((e.epoch_id == k) ≡ false) × (latest k ≡ some f)
put-open e f latest k shut o = elim (Bool-cases (e.epoch_id == k)) [
  | inl same ↦ rw same (λ h. cc)
  | inr other ↦ rw other (λ h. (refl, h))
]

elem-order :
    (e : Epoch) (l : Loaded) (k : ℕ)
    → elem k l.order ≡ true
    → elem k (read_line (entry e) l).order ≡ true
elem-order e l k h = elim (Bool-cases (is_some (l.latest e.epoch_id))) [
  | inl known ↦ rw known h
  | inr new ↦ rw new (ground (arith, elem-append k l.order (e.epoch_id ∷ [])))
]

elem-new :
    (e : Epoch) (l : Loaded) → IsKept l → elem e.epoch_id (read_line (entry e) l).order ≡ true
elem-new e l s = elim (Option-cases (l.latest e.epoch_id)) [
  | inl new ↦ rw new (ground (arith, elem-append e.epoch_id l.order (e.epoch_id ∷ [])))
  | inr (a, known) ↦ rw known (s.listed e.epoch_id a known)
]

-- A key is of the new entry or was there before.
order-present :
    (e : Epoch) (l : Loaded) (k : ℕ)
    → (e.epoch_id == k) ≡ false
    → elem k (read_line (entry e) l).order ≡ true
    → elem k l.order ≡ true
order-present e l k other = elim (Bool-cases (is_some (l.latest e.epoch_id))) [
  | inl known ↦ rw known (λ h. h)
  | inr new ↦ rw new (λ h. ground (arith, elem-append k l.order (e.epoch_id ∷ [])))
]

pub read_line-IsKept : (line : Line) (l : Loaded) → IsKept l → IsKept (read_line line l)
read_line-IsKept blank l s = s
read_line-IsKept unreadable l s = s
read_line-IsKept (entry e) l s = record {
  keyed = λ k f h. elim (put-cases e f l k h) [
    | inl (at, same) ↦ ap (λ x. x.epoch_id) (sym same) ∙ at
    | inr old ↦ s.keyed k f old
  ];
  listed = λ k f h. elim (put-cases e f l k h) [
    | inl (at, same) ↦ subst (λ x. elem x (read_line (entry e) l).order ≡ true) at (elem-new e l s)
    | inr old ↦ elem-order e l k (s.listed k f old)
  ];
  present = λ k h. elim (Bool-cases (e.epoch_id == k)) [
    | inl at ↦ rw at refl
    | inr other ↦ rw other (s.present k (order-present e l k other h))
  ];
}

pub read_lines-IsKept : (lines : List Line) (l : Loaded) → IsKept l → IsKept (read_lines lines l)
read_lines-IsKept [] l s = s
read_lines-IsKept (line ∷ lines) l s =
    read_lines-IsKept lines (read_line line l) (read_line-IsKept line l s)

pub empty-IsKept : IsKept empty
empty-IsKept = record { keyed = λ k e h. cc; listed = λ k e h. cc; present = λ k h. cc }

pub read_lines-append :
    (lines : List Line) (line : Line) (l : Loaded)
    → read_lines (lines ++ line ∷ []) l ≡ read_line line (read_lines lines l)
read_lines-append [] line l = refl
read_lines-append (x ∷ lines) line l = read_lines-append lines line (read_line x l)

-- Writing a closed epoch opens none.
pub closed-IsSingle :
    (e : Epoch) (l : Loaded) → is_open e ≡ false → IsSingle l → IsSingle (read_line (entry e) l)
closed-IsSingle e l shut s k j a b ha hb oa ob = elim (put-cases e a l k ha) [
  | inl (at, same) ↦ cc
  | inr before ↦ elim (put-cases e b l j hb) [
    | inl (at, same) ↦ cc
    | inr old ↦ s k j a b before old oa ob
  ]
]

-- Writing an epoch where none is open leaves at most that one.
pub opened-IsSingle : (e : Epoch) (l : Loaded) → HasNoOpen l → IsSingle (read_line (entry e) l)
opened-IsSingle e l s k j a b ha hb oa ob = elim (put-cases e a l k ha) [
  | inl (at, same) ↦ elim (put-cases e b l j hb) [
    | inl (at_too, same_too) ↦ sym at ∙ at_too
    | inr old ↦ let shut = s j b old in cc
  ]
  | inr before ↦ let shut = s k a before in cc
]

get_elem-cons :
    (a e : Epoch) (es : List Epoch) (i : ℕ)
    → get_elem? (a ∷ es) i ≡ some e
    → (a ≡ e) ⊎ ((j : ℕ) × (get_elem? es j ≡ some e))
get_elem-cons a e es zero h = inl cc
get_elem-cons a e es (suc i) h = inr (i, h)

-- What `load_all` lists is held under some key.
pub collect-has :
    (latest : ℕ → Option Epoch) (ks : List ℕ) (i : ℕ) (e : Epoch)
    → get_elem? (collect latest ks) i ≡ some e
    → (k : ℕ) × (latest k ≡ some e)
collect-has latest [] i e = λ h. cc
collect-has latest (k ∷ ks) i e = elim (Option-cases (latest k)) [
  | inl without ↦ rw (without, collect) (λ h. collect-has latest ks i e h)
  | inr (a, with_one) ↦
      rw (with_one, collect)
        (λ h. elim (get_elem-cons a e (collect latest ks) i h) [
          | inl same ↦ (k, with_one ∙ ap (λ x. some x) same)
          | inr (j, later) ↦ collect-has latest ks j e later
        ])
]

last_open-cons :
    (a b : Epoch) (es : List Epoch)
    → last_open (a ∷ es) ≡ some b
    → (last_open es ≡ some b) ⊎ ((a ≡ b) × (is_open a ≡ true))
last_open-cons a b es = elim (Option-cases (last_open es)) [
  | inr (c, later) ↦ rw later (λ h. inl h)
  | inl without ↦ elim (Bool-cases (is_open a)) [
    | inl o ↦ rw without (rw o (λ h. inr (cc, refl)))
    | inr shut ↦ rw without (rw shut (λ h. inl h))
  ]
]

pub last_open-has :
    (latest : ℕ → Option Epoch) (ks : List ℕ) (a : Epoch)
    → last_open (collect latest ks) ≡ some a
    → (is_open a ≡ true) × ((k : ℕ) × (latest k ≡ some a))
last_open-has latest [] a = λ h. cc
last_open-has latest (k ∷ ks) a = elim (Option-cases (latest k)) [
  | inl without ↦ rw (without, collect) (λ h. last_open-has latest ks a h)
  | inr (b, with_one) ↦
      rw (with_one, collect)
        (λ h. elim (last_open-cons b a (collect latest ks) h) [
          | inl later ↦ last_open-has latest ks a later
          | inr (same, o) ↦ (ap is_open (sym same) ∙ o, (k, with_one ∙ ap (λ x. some x) same))
        ])
]

last_open-cons-none :
    (a : Epoch) (es : List Epoch)
    → last_open (a ∷ es) ≡ none
    → (last_open es ≡ none) × (is_open a ≡ false)
last_open-cons-none a es = elim (Option-cases (last_open es)) [
  | inr (c, later) ↦ rw later (λ h. cc)
  | inl without ↦ elim (Bool-cases (is_open a)) [
    | inl o ↦ rw without (rw o (λ h. cc))
    | inr shut ↦ rw without (rw shut (λ h. (refl, refl)))
  ]
]

pub last_open-none :
    (latest : ℕ → Option Epoch) (ks : List ℕ) (k : ℕ) (e : Epoch)
    → last_open (collect latest ks) ≡ none
    → elem k ks ≡ true
    → latest k ≡ some e
    → is_open e ≡ false
last_open-none latest [] k e = λ h m held. cc
last_open-none latest (j ∷ ks) k e = elim (Option-cases (latest j)) [
  | inl without ↦
      rw (without, collect)
        (λ h m held. elim (Bool-cases (k == j)) [
          | inl same ↦ let at = (==_iff k j).0 same in cc
          | inr other ↦ last_open-none latest ks k e h (ground arith) held
        ])
  | inr (a, with_one) ↦
      rw (with_one, collect)
        (λ h m held.
          let split = last_open-cons-none a (collect latest ks) h in
          elim (Bool-cases (k == j)) [
            | inl same ↦ let at = (==_iff k j).0 same in let shut = split.1 in cc
            | inr other ↦ last_open-none latest ks k e split.0 (ground arith) held
          ])
]
