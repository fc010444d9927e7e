-- ===== src/Registry/Known.antt =====
-- validation/registry.py: what `record` writes makes every configuration of the campaign known.
use prosignal.Prelude.{
  ℕ, ◌+◌, ◌≡◌, refl, sym, ap, ◌∙◌, subst, inl, inr, Bool, true, false, not, ◌&&◌, ◌||◌, Option,
  none, some, List, [], ◌∷◌, ◌++◌, map, ◌==◌, ==_iff, Bool-cases, Option-cases, is_some, length,
  filter, All,
}
use prosignal.Registry.Defs.{
  Pass, Trial, Line, as_row, find_trial, merge, load_from, set_of, write_lines, zip_scores,
  new_trial, record_loop,
}
use prosignal.Registry.Merge.{has, has-fill_at}
use prosignal.Registry.Scores.{load_from-IsKept}
use prosignal.Registry.Wanted.{unknown-old}
use prosignal.Registry.Budget.{has-append, merge-known, merge-new}

known_stays :
    (k : ℕ) (lines : List Line) (out : List Trial)
    → has k out ≡ true
    → has k (load_from lines out) ≡ true
known_stays k lines out h = elim (Option-cases (find_trial k out)) [
  | inl absent ↦ let bad = ap (λ o. is_some o) absent in cc
  | inr (t, found) ↦
      let (u, there, kept) = load_from-IsKept k lines out t found in ap (λ o. is_some o) there
]

pub none_unknown :
    (ks : List ℕ) (known : ℕ → Bool)
    → All (λ k. known k ≡ true) ks
    → length (filter (λ k. not (known k)) (set_of ks)) ≡ 0
none_unknown [] known h = refl
none_unknown (k ∷ ks) known h =
    unknown-old (λ j. not (known j)) k ks (ap not h.0) ∙ none_unknown ks known h.1

module _ (key_for : ℕ → ℕ → ℕ) (command : ℕ) (p : Pass) where
  pub keys-items :
      (ls : List ℕ) (ss : Option (List (Option ℕ)))
      → map (λ (i : ℕ × Option ℕ). key_for command i.0) (zip_scores ls ss)
        ≡ map (key_for command) ls
  keys-items [] ss = refl
  keys-items (l ∷ ls) none = ap (λ ks. key_for command l ∷ ks) (keys-items ls none)
  keys-items (l ∷ ls) (some []) = ap (λ ks. key_for command l ∷ ks) (keys-items ls (some []))
  keys-items (l ∷ ls) (some (s ∷ ss)) = ap (λ ks. key_for command l ∷ ks) (keys-items ls (some ss))

  -- Every key of the items is known once the written lines are read.
  abbrev pub Known : List Trial → List (ℕ × Option ℕ) → List Trial × ℕ → Type 0
  Known out is r =
      All (λ k. has k (load_from (write_lines r.0) out) ≡ true)
        (map (λ (i : ℕ × Option ℕ). key_for command i.0) is)

  pub loop-Known :
      (now : ℕ) (is : List (ℕ × Option ℕ)) (prior out : List Trial)
      → ((k : ℕ) → has k out ≡ has k prior)
      → Known out is (record_loop key_for command now p prior is)
  unfolding record_loop
  loop-Known now [] prior out same = tt
  loop-Known now (item ∷ is) prior out same =
      let k = key_for command item.0 in
      elim (Option-cases (find_trial k prior)) [
        | inr (seen, found) ↦
            let known : has k out ≡ true = same k ∙ ap (λ o. is_some o) found in
            let t = new_trial key_for command now seen.pass_id item in
            let fresh = (record_loop key_for command now p prior is).0 in
            let added = (record_loop key_for command now p prior is).1 in
            elim (Bool-cases (not (is_some seen.score) && is_some item.1)) [
              | inr quiet ↦
                  let turn : record_loop key_for command now p prior (item ∷ is) ≡ (fresh, added) =
                    rw (found, record_loop) (rw quiet refl) in
                  subst (Known out (item ∷ is)) (sym turn)
                    (known_stays k (write_lines fresh) out known, loop-Known now is prior out same)
              | inl supplies ↦
                  let turn : record_loop key_for command now p prior (item ∷ is)
                      ≡ (t ∷ fresh, added) =
                    rw (found, record_loop) (rw supplies refl) in
                  subst (Known out (item ∷ is)) (sym turn) (
                    known_stays k (write_lines (t ∷ fresh)) out known,
                    loop-Known now is prior (merge (as_row t) out)
                        (λ j. merged j t out known ∙ same j),
                  )
            ]
        | inl new ↦
            let t = new_trial key_for command now p item in
            let absent : has k out ≡ false = same k ∙ ap (λ o. is_some o) new in
            let fresh = (record_loop key_for command now p (prior ++ t ∷ []) is).0 in
            let added = (record_loop key_for command now p (prior ++ t ∷ []) is).1 in
            let here : has k (out ++ t ∷ []) ≡ true =
              has-append k out t ∙ rw (absent, (==_iff k k).1 refl) refl in
            let turn : record_loop key_for command now p prior (item ∷ is)
                ≡ (t ∷ fresh, added + 1) =
              rw (new, record_loop) refl in
            subst (Known out (item ∷ is)) (sym turn) (
              subst
                (λ o.
                  All (λ j. has j (load_from (write_lines fresh) o) ≡ true)
                    (k ∷ map (λ (i : ℕ × Option ℕ). key_for command i.0) is))
                (sym (merge-new t out absent))
                (
                  known_stays k (write_lines fresh) (out ++ t ∷ []) here,
                  loop-Known now is (prior ++ t ∷ []) (out ++ t ∷ []) (λ j.
                      has-append j out t
                      ∙ ap (λ b. b || t.key == j) (same j)
                      ∙ sym (has-append j prior t)),
                ))
      ]
    where
      merged :
          (j : ℕ) (t : Trial) (out : List Trial)
          → has t.key out ≡ true
          → has j (merge (as_row t) out) ≡ has j out
      merged j t out h = ap (has j) (merge-known t out h) ∙ has-fill_at j t.key t.score out
