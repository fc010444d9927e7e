-- ===== src/Registry/Scores.antt =====
-- validation/registry.py: what later lines can do to a trial.
use prosignal.Prelude.{
  ℕ, ◌≡◌, refl, sym, ap, ◌∙◌, subst, ◌⊎◌, inl, inr, true, false, Option, none, some, List, [], ◌∷◌,
  ◌++◌, ◌==◌, if◌then◌else◌, Bool-cases, Option-cases, is_some,
}
use prosignal.Registry.Defs.{
  Trial, Blob, Line, blank, unreadable, entry, of_blob, find_trial, fill_score, fill_at, merge,
  load_from, load,
}
use prosignal.Registry.Merge.{find-append, fill_score-key, load_from-append}

-- The same trial, or the same but for a first score
abbrev pub IsKept : Trial → Trial → Type 0
IsKept t u = (u ≡ t) ⊎ ((t.score ≡ none) × (u ≡ record t { score = u.score }))

IsKept-trans : (t u v : Trial) → IsKept t u → IsKept u v → IsKept t v
IsKept-trans t u v h k = elim h [
  | inl e ↦ subst (λ x. IsKept x v) e k
  | inr (unscored, e) ↦ elim k [
    | inl same ↦ subst (λ x. IsKept t x) (sym same) (inr (unscored, e))
    | inr (still, f) ↦
        let put : Trial → Trial = λ x. record x { score = v.score } in inr (unscored, f ∙ ap put e)
  ]
]

fill_score-IsKept : (s : Option ℕ) (t : Trial) → IsKept t (fill_score s t)
fill_score-IsKept s t = elim (Option-cases t.score) [
  | inl unscored ↦
      let filled : fill_score s t ≡ record t { score = s } =
        ap (λ o. if is_some o then t else record t { score = s }) unscored in
      inr (unscored, filled ∙ ap (λ z. record t { score = z }) (sym (ap (λ x. x.score) filled)))
  | inr (v, scored) ↦ inl (ap (λ o. if is_some o then t else record t { score = s }) scored)
]

fill_at-IsKept :
    (k j : ℕ) (s : Option ℕ) (ts : List Trial) (t : Trial)
    → find_trial k ts ≡ some t
    → (u : Trial) × (find_trial k (fill_at j s ts) ≡ some u) × IsKept t u
fill_at-IsKept k j s [] t = λ h. cc
fill_at-IsKept k j s (x ∷ ts) t = elim (Bool-cases (x.key == j)) [
  | inl at ↦ elim (Bool-cases (x.key == k)) [
    | inl hit ↦
        let filled : ((fill_score s x).key == k) ≡ true =
          ap (λ z. z == k) (fill_score-key s x) ∙ hit in
        rw at (
          rw (hit, filled)
            (λ h.
              let same : x ≡ t = cc in
              (
                fill_score s x,
                refl,
                subst (λ z. IsKept z (fill_score s x)) same (fill_score-IsKept s x),
              )))
    | inr miss ↦
        let passed : ((fill_score s x).key == k) ≡ false =
          ap (λ z. z == k) (fill_score-key s x) ∙ miss in
        rw at (rw (miss, passed) (λ h. (t, h, inl refl)))
  ]
  | inr off ↦ elim (Bool-cases (x.key == k)) [
    | inl hit ↦ rw off (rw hit (λ h. (t, h, inl refl)))
    | inr miss ↦ rw off (rw miss (λ h. fill_at-IsKept k j s ts t h))
  ]
]

merge-IsKept :
    (k : ℕ) (b : Blob) (out : List Trial) (t : Trial)
    → find_trial k out ≡ some t
    → (u : Trial) × (find_trial k (merge b out) ≡ some u) × IsKept t u
unfolding merge
merge-IsKept k b out t h = elim (Bool-cases (is_some (find_trial b.key out))) [
  | inl known ↦ rw known (fill_at-IsKept k b.key b.score out t h)
  | inr new ↦ rw new (t, find-append k out (of_blob b ∷ []) ∙ rw h refl, inl refl)
]

pub load_from-IsKept :
    (k : ℕ) (lines : List Line) (out : List Trial) (t : Trial)
    → find_trial k out ≡ some t
    → (u : Trial) × (find_trial k (load_from lines out) ≡ some u) × IsKept t u
load_from-IsKept k [] out t h = (t, h, inl refl)
load_from-IsKept k (blank ∷ lines) out t h = load_from-IsKept k lines out t h
load_from-IsKept k (unreadable ∷ lines) out t h = load_from-IsKept k lines out t h
load_from-IsKept k (entry b ∷ lines) out t h =
    let (u, at, kept) = merge-IsKept k b out t h in
    let (v, there, later) = load_from-IsKept k lines (merge b out) u at in
    (v, there, IsKept-trans t u v kept later)

-- Whatever is appended to the register, a trial that it has stays in it unchanged, but that a trial
-- without a score may get one: a score is never replaced.
pub load-append :
    (k : ℕ) (lines more : List Line) (t : Trial)
    → find_trial k (load lines) ≡ some t
    → (u : Trial) × (find_trial k (load (lines ++ more)) ≡ some u) × IsKept t u
unfolding load
load-append k lines more t h =
    let (u, at, kept) = load_from-IsKept k more (load_from lines []) t h in
    (u, ap (find_trial k) (load_from-append lines more []) ∙ at, kept)
