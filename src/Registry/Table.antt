-- ===== src/Registry/Table.antt =====
-- validation/registry.py: the file as the record of a table of trials.
use prosignal.Prelude.{
  ℕ, ◌≡◌, refl, sym, ap, ◌∙◌, subst, inl, inr, Bool, true, false, not, ◌&&◌, ◌||◌, Option, none,
  some, List, [], ◌∷◌, ◌++◌, ◌==◌, if◌then◌else◌, Bool-cases, Option-cases, is_some, ok,
}
use prosignal.Registry.Defs.{
  Pass, Trial, Line, find_trial, fill_score, fill_at, load_from, load, write_lines, zip_scores,
  new_trial, record_loop, record_trials,
}
use prosignal.Registry.Merge.{has, fill_score-key, has-fill_at}
use prosignal.Registry.Budget.{has-append, merge-known, merge-new}
use prosignal.Registry.Recording.{record-cases, loaded-after}

abbrev scored : ℕ → List Trial → Bool
scored k ts = elim (find_trial k ts) as (λ x. Bool) [ none ↦ false | some t ↦ is_some t.score ]

-- A configuration with its score, looked at by a campaign of pass p: a known one gets a score if it
-- has none, a new one is added.
abbrev note : (ℕ → ℕ → ℕ) → ℕ → ℕ → Pass → ℕ × Option ℕ → List Trial → List Trial
note key_for command now p item table =
    if has (key_for command item.0) table
    then fill_at (key_for command item.0) item.1 table
    else table ++ new_trial key_for command now p item ∷ []

abbrev pub note_all : (ℕ → ℕ → ℕ) → ℕ → ℕ → Pass → List (ℕ × Option ℕ) → List Trial → List Trial
note_all key_for command now p [] table = table
note_all key_for command now p (item ∷ items) table =
    note_all key_for command now p items (note key_for command now p item table)

fill_score-none : (t : Trial) → fill_score none t ≡ t
fill_score-none t = elim (Option-cases t.score) [
  | inl unscored ↦
      ap (λ o. if is_some o then t else record t { score = none }) unscored
      ∙ ap (λ o. record t { score = o }) (sym unscored)
  | inr (v, has_one) ↦ ap (λ o. if is_some o then t else record t { score = none }) has_one
]

fill_at-none : (k : ℕ) (ts : List Trial) → fill_at k none ts ≡ ts
fill_at-none k [] = refl
fill_at-none k (t ∷ ts) = elim (Bool-cases (t.key == k)) [
  | inl at ↦ rw at (ap (λ x. x ∷ ts) (fill_score-none t))
  | inr off ↦ rw off (ap (λ xs. t ∷ xs) (fill_at-none k ts))
]

scored-head :
    (k : ℕ) (t : Trial) (ts : List Trial) (b : Bool)
    → (t.key == k) ≡ b
    → scored k (t ∷ ts) ≡ (if b then is_some t.score else scored k ts)
scored-head k t ts b h = ap pick h ∙ picked b
  where
    pick : Bool → Bool
    pick c = elim (if c then some t else find_trial k ts) as (λ x. Bool) [
      | none ↦ false
      | some u ↦ is_some u.score
    ]

    picked : (c : Bool) → pick c ≡ (if c then is_some t.score else scored k ts)
    picked true = refl
    picked false = refl

fill_score-scored : (s : Option ℕ) (t : Trial) → is_some t.score ≡ true → fill_score s t ≡ t
fill_score-scored s t h = ap (λ b. if b then t else record t { score = s }) h

fill_at-scored : (k : ℕ) (s : Option ℕ) (ts : List Trial) → scored k ts ≡ true → fill_at k s ts ≡ ts
fill_at-scored k s [] h = refl
fill_at-scored k s (t ∷ ts) h = elim (Bool-cases (t.key == k)) [
  | inl at ↦ rw at (ap (λ x. x ∷ ts) (fill_score-scored s t (sym (scored-head k t ts true at) ∙ h)))
  | inr off ↦
      rw off (ap (λ xs. t ∷ xs) (fill_at-scored k s ts (sym (scored-head k t ts false off) ∙ h)))
]

scored-fill_at :
    (k j : ℕ) (s : Option ℕ) (ts : List Trial)
    → scored k ts ≡ true
    → scored k (fill_at j s ts) ≡ true
scored-fill_at k j s [] h = h
scored-fill_at k j s (t ∷ ts) h = elim (Bool-cases (t.key == j)) [
  | inl at ↦ rw at (elim (Bool-cases (t.key == k)) [
    | inl hit ↦
        let same = fill_score-scored s t (sym (scored-head k t ts true hit) ∙ h) in
        subst (λ x. scored k (x ∷ ts) ≡ true) (sym same) h
    | inr miss ↦
        let passed : ((fill_score s t).key == k) ≡ false =
          ap (λ z. z == k) (fill_score-key s t) ∙ miss in
        scored-head k (fill_score s t) ts false passed ∙ sym (scored-head k t ts false miss) ∙ h
  ])
  | inr off ↦ rw off (elim (Bool-cases (t.key == k)) [
    | inl hit ↦ scored-head k t (fill_at j s ts) true hit ∙ sym (scored-head k t ts true hit) ∙ h
    | inr miss ↦
        scored-head k t (fill_at j s ts) false miss
        ∙ scored-fill_at k j s ts (sym (scored-head k t ts false miss) ∙ h)
  ])
]

scored-found :
    (k : ℕ) (ts : List Trial) (t : Trial) → find_trial k ts ≡ some t → scored k ts ≡ is_some t.score
scored-found k ts t h =
    ap (λ (o : Option Trial). elim o as (λ x. Bool) [ none ↦ false | some u ↦ is_some u.score ]) h

scored-append :
    (k : ℕ) (xs : List Trial) (t : Trial)
    → scored k (xs ++ t ∷ []) ≡ (if has k xs then scored k xs else scored k (t ∷ []))
scored-append k [] t = refl
scored-append k (x ∷ xs) t = elim (Bool-cases (x.key == k)) [
  | inl hit ↦
      let there : has k (x ∷ xs) ≡ true = rw hit refl in
      scored-head k x (xs ++ t ∷ []) true hit
      ∙ sym (scored-head k x xs true hit)
      ∙ sym (ap (λ b. if b then scored k (x ∷ xs) else scored k (t ∷ [])) there)
  | inr miss ↦
      let there : has k (x ∷ xs) ≡ has k xs = rw miss refl in
      scored-head k x (xs ++ t ∷ []) false miss
      ∙ scored-append k xs t
      ∙ ap (λ b. if has k xs then b else scored k (t ∷ [])) (sym (scored-head k x xs false miss))
      ∙ sym (ap (λ b. if b then scored k (x ∷ xs) else scored k (t ∷ [])) there)
]

scored-append_mono :
    (k : ℕ) (xs ys : List Trial) (t : Trial)
    → has k ys ≡ has k xs
    → (scored k xs ≡ true → scored k ys ≡ true)
    → scored k (xs ++ t ∷ []) ≡ true
    → scored k (ys ++ t ∷ []) ≡ true
scored-append_mono k xs ys t same kept h =
    scored-append k ys t
    ∙ ap (λ b. if b then scored k ys else scored k (t ∷ [])) same
    ∙ lifted (has k xs) (sym (scored-append k xs t) ∙ h)
  where
    lifted :
        (b : Bool)
        → (if b then scored k xs else scored k (t ∷ [])) ≡ true
        → (if b then scored k ys else scored k (t ∷ [])) ≡ true
    lifted true e = kept e
    lifted false e = e

-- A turn of the loop that writes no line would not have changed the table.
fill_at-quiet :
    (k : ℕ) (s : Option ℕ) (out : List Trial) (seen : Option ℕ)
    → (not (is_some seen) && is_some s) ≡ false
    → (is_some seen ≡ true → scored k out ≡ true)
    → fill_at k s out ≡ out
fill_at-quiet k none out seen h kept = fill_at-none k out
fill_at-quiet k (some s) out (some v) h kept = fill_at-scored k (some s) out (kept refl)
fill_at-quiet k (some s) out none h kept = cc

module _ (key_for : ℕ → ℕ → ℕ) (command now : ℕ) (p : Pass) where
  pub loop-note_all :
      (items : List (ℕ × Option ℕ)) (prior out : List Trial)
      → ((k : ℕ) → has k out ≡ has k prior)
      → ((k : ℕ) → scored k prior ≡ true → scored k out ≡ true)
      → load_from (write_lines (record_loop key_for command now p prior items).0) out
        ≡ note_all key_for command now p items out
  unfolding record_loop
  loop-note_all [] prior out same kept = refl
  loop-note_all (item ∷ items) prior out same kept =
      let k = key_for command item.0 in
      elim (Option-cases (find_trial k prior)) [
        | inr (seen, found) ↦
            let known : has k out ≡ true = same k ∙ ap (λ o. is_some o) found in
            let t = new_trial key_for command now seen.pass_id item in
            let (fresh, added) = record_loop key_for command now p prior items in
            elim (Bool-cases (not (is_some seen.score) && is_some item.1)) [
              | inr quiet ↦
                  let still : fill_at k item.1 out ≡ out =
                    fill_at-quiet k item.1 out seen.score quiet
                      (λ h. kept k (scored-found k prior seen found ∙ h)) in
                  rw (found, record_loop)
                    (rw quiet (rw (known, still) (loop-note_all items prior out same kept)))
              | inl supplies ↦
                  rw (found, record_loop)
                    (rw supplies (
                      ap (load_from (write_lines fresh)) (merge-known t out known)
                      ∙ rw known (
                          loop-note_all items prior (fill_at k item.1 out)
                            (λ j. has-fill_at j k item.1 out ∙ same j)
                            (λ j h. scored-fill_at j k item.1 out (kept j h)))))
            ]
        | inl new ↦
            let t = new_trial key_for command now p item in
            let absent : has k out ≡ false = same k ∙ ap (λ o. is_some o) new in
            let (fresh, added) = record_loop key_for command now p (prior ++ t ∷ []) items in
            let ih =
              loop-note_all items (prior ++ t ∷ []) (out ++ t ∷ [])
                (λ j.
                  has-append j out t
                  ∙ ap (λ b. b || t.key == j) (same j)
                  ∙ sym (has-append j prior t))
                (λ j. scored-append_mono j prior out t (same j) (kept j)) in
            rw (new, record_loop)
              (ap (load_from (write_lines fresh)) (merge-new t out absent) ∙ rw absent ih)
      ]

-- A campaign that is recorded leaves a file that reads as the table read before, with each
-- configuration of the campaign looked at in turn: the file implements the table.
pub record_trials-note_all :
    (key_for : ℕ → ℕ → ℕ) (lines u : List Line) (now command n : ℕ) (labels : List ℕ)
    (scores : Option (List (Option ℕ))) (p : Pass)
    → record_trials key_for lines now command labels scores p ≡ ok (n, u)
    → load u ≡ note_all key_for command now p (zip_scores labels scores) (load lines)
record_trials-note_all key_for lines u now command n labels scores p done =
    let (passed, good, counted, written) =
      record-cases key_for command labels scores p lines u now n done in
    let fresh = (record_loop key_for command now p (load lines) (zip_scores labels scores)).0 in
    loaded-after key_for command labels scores p lines u fresh written
    ∙ loop-note_all key_for command now p (zip_scores labels scores) (load lines) (load lines)
        (λ k. refl) (λ k h. h)
