-- ===== src/Epoch/Drift.antt =====
-- validation/epoch.py: what it means that `drifted_from` reports no difference.
use prosignal.Prelude.{
  ℕ, ◌≡◌, refl, subst, ◌↔◌, inl, inr, Bool, false, some, List, [], ◌∷◌, ◌++◌, ◌==◌, ==_iff,
  Bool-cases, Option-cases,
}
use prosignal.Epoch.Defs.{
  Identity, Field, code_sha_field, model_sources_sha_field, config_version_field,
  data_manifest_sha_field, feature_schema_sha_field, universe_policy_field, execution_model_field,
  Difference, compare, compare_fields, differences, Epoch, ident, Line, active, drifted_from,
}

-- The seven fields that decide what the engine produces.
pub record IsSameEngine (a b : Identity) : Type 0 where
  pub code : a.code_sha ≡ b.code_sha
  pub model_sources : a.model_sources_sha ≡ b.model_sources_sha
  pub config : a.config_version ≡ b.config_version
  pub data_manifest : a.data_manifest_sha ≡ b.data_manifest_sha
  pub features : a.feature_schema_sha ≡ b.feature_schema_sha
  pub universe : a.universe_policy ≡ b.universe_policy
  pub execution : a.execution_model ≡ b.execution_model

-- Both versions are of the complete configuration, and the engine is the same.
abbrev pub IsComparable : (ℕ → Bool) → Identity → Identity → Type 0
IsComparable covers a b =
    (covers a.config_version ≡ false) × ((covers b.config_version ≡ false) × IsSameEngine a b)

append-empty : (xs ys : List Difference) → xs ++ ys ≡ [] → (xs ≡ []) × (ys ≡ [])
append-empty [] ys h = (refl, h)
append-empty (x ∷ xs) ys h = cc

compare-same : (f : Field) (a b : ℕ) → (compare f a b ≡ []) ↔ (a ≡ b)
compare-same f a b = elim (Bool-cases (a == b)) [
  | inl same ↦ (λ h. (==_iff a b).0 same, λ h. rw same refl)
  | inr other ↦ (rw other (λ h. cc), λ h. let hit = (==_iff a b).1 h in cc)
]

compare_fields-same : (a b : Identity) → (compare_fields a b ≡ []) ↔ IsSameEngine a b
compare_fields-same a b =
    let code = compare-same code_sha_field a.code_sha b.code_sha in
    let sources = compare-same model_sources_sha_field a.model_sources_sha b.model_sources_sha in
    let config = compare-same config_version_field a.config_version b.config_version in
    let manifest = compare-same data_manifest_sha_field a.data_manifest_sha b.data_manifest_sha in
    let features =
      compare-same feature_schema_sha_field a.feature_schema_sha b.feature_schema_sha in
    let universe = compare-same universe_policy_field a.universe_policy b.universe_policy in
    let execution = compare-same execution_model_field a.execution_model b.execution_model in
    (
      λ h.
          let (h1, t1) = append-empty _ _ h in
          let (h2, t2) = append-empty _ _ t1 in
          let (h3, t3) = append-empty _ _ t2 in
          let (h4, t4) = append-empty _ _ t3 in
          let (h5, t5) = append-empty _ _ t4 in
          let (h6, t6) = append-empty _ _ t5 in
          record {
            code = code.0 h1;
            model_sources = sources.0 h2;
            config = config.0 h3;
            data_manifest = manifest.0 h4;
            features = features.0 h5;
            universe = universe.0 h6;
            execution = execution.0 t6;
          },
      λ s.
          let c1 = code.1 s.code in
          let c2 = sources.1 s.model_sources in
          let c3 = config.1 s.config in
          let c4 = manifest.1 s.data_manifest in
          let c5 = features.1 s.features in
          let c6 = universe.1 s.universe in
          let c7 = execution.1 s.execution in simp (c1, c2, c3, c4, c5, c6, c7),
    )

pub differences-nil :
    (covers : ℕ → Bool) (a b : Identity) → (differences covers a b ≡ []) ↔ IsComparable covers a b
unfolding differences
differences-nil covers a b = elim (Bool-cases (covers a.config_version)) [
  | inl partial ↦ rw partial (λ h. cc, λ h. let (f, rest) = h in cc)
  | inr full ↦ elim (Bool-cases (covers b.config_version)) [
    | inl partial ↦ rw full (rw partial (λ h. cc, λ h. let (f, (g, rest)) = h in cc))
    | inr full_too ↦
        let same = compare_fields-same a b in
        rw full (rw full_too (λ h. (refl, (refl, same.0 h)), λ h. same.1 h.1.1))
  ]
]

ident-same :
    (unversioned : ℕ) (a : Identity) (e : Epoch)
    → IsSameEngine a (ident unversioned e) ↔ IsSameEngine a e.identity
unfolding ident
ident-same unversioned a e = (
  λ s. record {
    code = s.code;
    model_sources = s.model_sources;
    config = s.config;
    data_manifest = s.data_manifest;
    features = s.features;
    universe = s.universe;
    execution = s.execution;
  },
  λ s. record {
    code = s.code;
    model_sources = s.model_sources;
    config = s.config;
    data_manifest = s.data_manifest;
    features = s.features;
    universe = s.universe;
    execution = s.execution;
  },
)

-- `drifted_from` reports no difference exactly when an epoch is active, its configuration and that
-- of the engine are both complete, and the seven compared fields agree; the commit and the state of
-- the working tree are not compared.
pub drifted_from-nil :
    (covers : ℕ → Bool) (unversioned : ℕ) (lines : List Line) (current : Identity)
    → ((drifted_from covers unversioned lines current).1 ≡ [])
      ↔ ((live : Epoch) × ((active lines ≡ some live) × IsComparable covers current live.identity))
unfolding drifted_from ident
drifted_from-nil covers unversioned lines current = elim (Option-cases (active lines)) [
  | inl nothing ↦ rw (nothing, drifted_from) (λ h. cc, λ h. let (e, (at, rest)) = h in cc)
  | inr (live, found) ↦
      let d = differences-nil covers current (ident unversioned live) in
      let same = ident-same unversioned current live in
      rw (found, drifted_from)
        (
          λ h. let (f, (g, s)) = d.0 h in (live, (refl, (f, (g, same.0 s)))),
          λ h.
              let (e, (at, (f, (g, s)))) = h in
              let one : e ≡ live = cc in
              let mine = subst (λ x. IsComparable covers current x.identity) one (f, (g, s)) in
              d.1 (mine.0, (mine.1.0, same.1 mine.1.1)),
        )
]
