-- ===== src/Tier/Snapshot.antt =====
-- crates/gateway/src/tiered/tier_policy_registry.rs: a snapshot is built from a configuration that
-- validates and compiles, and is replaced whole; a request has its tier and policy from one
-- snapshot. `expect` on a missing policy is none.
use waf.Base.{◌≡◌, refl, ap, ◌∙◌, sym, Bool, true, false, Option, none, some, [], arith}
use waf.Base.Map
use waf.Base.Map.{Map}
use waf.Tier.{
  Tier, critical, high, medium, catch_all, TierPolicy, TierConfig, TierConfigError, validate,
  check_policy, check_policies, thresholds_ok, or_else, all_tiers, tier_eq,
}
use waf.Tier.Rule.{Libraries, CompileError, Result, ok, err}
use waf.Tier.Classifier.{TierClassifier, RequestParts, new, classify}

module _ (lib : Libraries) where
  pub record TierSnapshot : Type 0 where
    pub classifier : TierClassifier lib
    pub policies : Map Tier TierPolicy

  pub data SnapshotBuild : Type 0 where
    built : TierSnapshot → SnapshotBuild
    config_error : TierConfigError → SnapshotBuild
    compile_error : CompileError → SnapshotBuild

-- `Regex::new(src).is_ok()`.
abbrev pub is_some {ℓ} : {A : Type ℓ} → Option A → Bool
is_some none = false
is_some (some _) = true

module _ {lib : Libraries} where
  unfoldable pub with_classifier :
      Map Tier TierPolicy → Result (TierClassifier lib) → SnapshotBuild lib
  with_classifier policies (ok c) = built (record { classifier = c; policies = policies })
  with_classifier policies (err e) = compile_error e

  unfoldable pub after_validate : TierConfig → Option TierConfigError → SnapshotBuild lib
  unfolding with_classifier
  after_validate cfg (some e) = config_error e
  after_validate cfg none = with_classifier cfg.policies (new cfg.classifier_rules cfg.default_tier)

  unfoldable pub try_from_config : TierConfig → SnapshotBuild lib
  unfolding after_validate
  try_from_config cfg = after_validate cfg (validate (λ src. is_some (lib.compile src)) cfg)

  -- `TierPolicyRegistry`: the snapshot that is live.
  unfoldable pub swap : TierSnapshot lib → TierSnapshot lib → TierSnapshot lib
  swap new_snap old = new_snap

  unfoldable pub classify_request : TierSnapshot lib → RequestParts lib → Tier × Option TierPolicy
  classify_request snap req =
      let tier = classify snap.classifier req in (tier, Map.get tier snap.policies)

-- A tier has a policy with ascending thresholds.
abbrev IsCovered : Map Tier TierPolicy → Tier → Type 0
IsCovered policies tier =
    (p : TierPolicy) × (Map.get tier policies ≡ some p) × (thresholds_ok p.risk_thresholds ≡ true)

check_policy-none :
    (policies : Map Tier TierPolicy) (tier : Tier) (o : Option TierPolicy)
    → Map.get tier policies ≡ o
    → check_policy tier o ≡ none
    → IsCovered policies tier
unfolding check_policy
check_policy-none policies tier none found h = cc
check_policy-none policies tier (some p) found h = (p, found, ground (arith, h))

or_else-nones : {A : Type 0} (a b : Option A) → or_else a b ≡ none → (a ≡ none) × (b ≡ none)
unfolding or_else
or_else-nones none b h = (refl, h)
or_else-nones (some a) b h = cc

check_policies-none :
    (policies : Map Tier TierPolicy)
    → check_policies all_tiers policies ≡ none
    → (tier : Tier) → IsCovered policies tier
unfolding check_policies
check_policies-none policies h =
    let (a, h1) = or_else-nones _ _ h in
    let (b, h2) = or_else-nones _ _ h1 in
    let (c, h3) = or_else-nones _ _ h2 in
    let (d, _) = or_else-nones _ _ h3 in
    λ tier. elim tier as (λ t. IsCovered policies t) [
      | critical ↦ check_policy-none policies critical _ refl a
      | high ↦ check_policy-none policies high _ refl b
      | medium ↦ check_policy-none policies medium _ refl c
      | catch_all ↦ check_policy-none policies catch_all _ refl d
    ]

-- The policies of a built snapshot.
abbrev built_policies : {lib : Libraries} → SnapshotBuild lib → Map Tier TierPolicy
built_policies (built snap) = snap.policies
built_policies (config_error e) = []
built_policies (compile_error e) = []

abbrev is_built : {lib : Libraries} → SnapshotBuild lib → Bool
is_built (built snap) = true
is_built (config_error e) = false
is_built (compile_error e) = false

module _ {lib : Libraries} where
  with_classifier-built :
      (policies : Map Tier TierPolicy) (r : Result (TierClassifier lib))
      → is_built (with_classifier policies r) ≡ true
      → built_policies (with_classifier policies r) ≡ policies
  unfolding with_classifier
  with_classifier-built policies (ok c) h = refl
  with_classifier-built policies (err e) h = cc

after_validate-built :
    (lib : Libraries) (cfg : TierConfig) (o : Option TierConfigError)
    → is_built (after_validate {lib = lib} cfg o) ≡ true
    → (o ≡ none) × (built_policies (after_validate {lib = lib} cfg o) ≡ cfg.policies)
unfolding after_validate
after_validate-built lib cfg none h = (refl, with_classifier-built cfg.policies _ h)
after_validate-built lib cfg (some e) h = cc

module _ {lib : Libraries} where
  -- On a snapshot that was built, the lookup of a request's policy does not fail, and the policy's
  -- thresholds ascend.
  pub classify_request-policy :
      (cfg : TierConfig) (snap : TierSnapshot lib) (req : RequestParts lib)
      → try_from_config cfg ≡ built snap
      → (p : TierPolicy) × ((classify_request snap req).1 ≡ some p)
        × (thresholds_ok p.risk_thresholds ≡ true)
  unfolding try_from_config validate classify_request
  classify_request-policy cfg snap req h =
      let (valid, same) = after_validate-built lib cfg _ (ap is_built h) in
      let policies : snap.policies ≡ cfg.policies = sym (ap built_policies h) ∙ same in
      rw policies (
        check_policies-none cfg.policies (or_else-nones _ _ valid).0 (classify snap.classifier req))
