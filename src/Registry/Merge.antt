-- ===== src/Registry/Merge.antt =====
-- validation/registry.py: how a line that is read changes the trials read before.
use prosignal.Prelude.{
  ℕ, suc, ◌≡◌, refl, ap, ◌∙◌, inl, inr, Bool, true, false, Option, none, some, List, [], ◌∷◌, ◌++◌,
  ◌==◌, if◌then◌else◌, Bool-cases, is_some, length, count,
}
use prosignal.Registry.Defs.{
  Pass, pre_v10, v10, other_pass, same_pass, Trial, Line, blank, unreadable, entry, row_pass,
  as_row, of_blob, find_trial, fill_score, fill_at, merge, load_from,
}

abbrev pub has : ℕ → List Trial → Bool
has k ts = is_some (find_trial k ts)

-- Reading back what was written
pub of_blob-as_row : (t : Trial) → of_blob (as_row t) ≡ t
unfolding of_blob as_row
of_blob-as_row t = ap (λ p. record t { pass_id = p }) (same t.pass_id)
  where
    same : (p : Pass) → elim (row_pass p) as (λ x. Pass) [ none ↦ pre_v10 | some q ↦ q ] ≡ p
    same pre_v10 = refl
    same (v10 n) = refl
    same (other_pass n) = refl

pub find-append :
    (k : ℕ) (xs ys : List Trial)
    → find_trial k (xs ++ ys)
      ≡ elim (find_trial k xs) as (λ x. Option Trial) [ some t ↦ some t | none ↦ find_trial k ys ]
find-append k [] ys = refl
find-append k (x ∷ xs) ys = elim (Bool-cases (x.key == k)) [
  | inl hit ↦ rw hit refl
  | inr miss ↦ rw miss (find-append k xs ys)
]

pub fill_score-key : (s : Option ℕ) (t : Trial) → (fill_score s t).key ≡ t.key
fill_score-key s t = elim (Bool-cases (is_some t.score)) [
  | inl scored ↦ rw scored refl
  | inr unscored ↦ rw unscored refl
]

fill_score-pass : (s : Option ℕ) (t : Trial) → (fill_score s t).pass_id ≡ t.pass_id
fill_score-pass s t = elim (Bool-cases (is_some t.score)) [
  | inl scored ↦ rw scored refl
  | inr unscored ↦ rw unscored refl
]

pub has-fill_at : (k j : ℕ) (s : Option ℕ) (ts : List Trial) → has k (fill_at j s ts) ≡ has k ts
has-fill_at k j s [] = refl
has-fill_at k j s (t ∷ ts) = elim (Bool-cases (t.key == j)) [
  | inl at ↦ rw at (elim (Bool-cases (t.key == k)) [
    | inl hit ↦
        let too : ((fill_score s t).key == k) ≡ true =
          ap (λ x. x == k) (fill_score-key s t) ∙ hit in
        rw (hit, too) refl
    | inr miss ↦
        let too : ((fill_score s t).key == k) ≡ false =
          ap (λ x. x == k) (fill_score-key s t) ∙ miss in
        rw (miss, too) refl
  ])
  | inr off ↦ rw off (elim (Bool-cases (t.key == k)) [
    | inl hit ↦ rw hit refl
    | inr miss ↦ rw miss (has-fill_at k j s ts)
  ])
]

pub length-fill_at : (j : ℕ) (s : Option ℕ) (ts : List Trial) → length (fill_at j s ts) ≡ length ts
length-fill_at j s [] = refl
length-fill_at j s (t ∷ ts) = elim (Bool-cases (t.key == j)) [
  | inl at ↦ rw at refl
  | inr off ↦ rw off (ap suc (length-fill_at j s ts))
]

abbrev pub spent_in : Pass → List Trial → ℕ
spent_in p ts = count (λ t. same_pass t.pass_id p) ts

pub spent-fill_at :
    (p : Pass) (j : ℕ) (s : Option ℕ) (ts : List Trial)
    → spent_in p (fill_at j s ts) ≡ spent_in p ts
spent-fill_at p j s [] = refl
spent-fill_at p j s (t ∷ ts) = elim (Bool-cases (t.key == j)) [
  | inl at ↦
      rw at (
        ap (λ q. if same_pass q p then suc (spent_in p ts) else spent_in p ts)
          (fill_score-pass s t))
  | inr off ↦ rw off (ap (λ n. if same_pass t.pass_id p then suc n else n) (spent-fill_at p j s ts))
]

pub load_from-append :
    (xs ys : List Line) (out : List Trial)
    → load_from (xs ++ ys) out ≡ load_from ys (load_from xs out)
load_from-append [] ys out = refl
load_from-append (blank ∷ xs) ys out = load_from-append xs ys out
load_from-append (unreadable ∷ xs) ys out = load_from-append xs ys out
load_from-append (entry b ∷ xs) ys out = load_from-append xs ys (merge b out)
