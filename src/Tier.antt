-- ===== src/Tier.antt =====
-- crates/waf-common/src/tier.rs: the protection tiers, their policies and the validation of a
-- configuration. Whether a regular expression compiles is the library's answer.
pub mod Rule
pub mod Classifier
pub mod Snapshot
use waf.Base.{
  ℕ, ◌+◌, ◌≡◌, ◌↔◌, refl, Bool, true, false, ◌&&◌, not, String, Option, none, some, List, [], ◌∷◌,
  ltb, suc, if◌then◌else◌, arith,
}
use waf.Base.Keys.{Eq}
use waf.Base.Map
use waf.Base.Map.{Map}

pub data Tier : Type 0 where
  critical high medium catch_all : Tier

pub data FailMode : Type 0 where
  fail_close fail_open : FailMode

abbrev pub same_tier : Tier → Tier → Bool
same_tier critical critical = true
same_tier high high = true
same_tier medium medium = true
same_tier catch_all catch_all = true
same_tier _ _ = false

pub same_tier_iff : (a b : Tier) → (same_tier a b ≡ true) ↔ (a ≡ b)
same_tier_iff a b = ground arith

instance abbrev pub tier_eq : Eq Tier
tier_eq = record { beq = same_tier; beq_iff = same_tier_iff }

pub data CachePolicy : Type 0 where
  no_cache : CachePolicy
  short_ttl aggressive default_ttl : ℕ → CachePolicy

pub record RiskThresholds : Type 0 where
  pub allow : ℕ
  pub challenge : ℕ
  pub block : ℕ

pub data HttpMethod : Type 0 where
  get head post put delete connect options trace patch : HttpMethod

pub record TierPolicy : Type 0 where
  pub fail_mode : FailMode
  pub ddos_threshold_rps : ℕ
  pub cache_policy : CachePolicy
  pub risk_thresholds : RiskThresholds

-- `PathMatch` and `HostMatch` (tier_match.rs), `affix` being the prefix of a path or the suffix of
-- a host, and `HeaderMatch`.
pub data TextMatch : Type 0 where
  exact affix regex : String → TextMatch

pub record HeaderMatch : Type 0 where
  pub name : String
  pub value : String

pub record TierClassifierRule : Type 0 where
  pub priority : ℕ
  pub tier : Tier
  pub host : Option TextMatch
  pub path : Option TextMatch
  pub method : Option (List HttpMethod)
  pub headers : Option (List HeaderMatch)

pub record TierConfig : Type 0 where
  pub default_tier : Tier
  pub classifier_rules : List TierClassifierRule
  pub policies : Map Tier TierPolicy

pub data TierConfigError : Type 0 where
  missing_policy invalid_thresholds : Tier → TierConfigError
  bad_regex : ℕ → TierConfigError

abbrev pub all_tiers : List Tier
all_tiers = critical ∷ high ∷ medium ∷ catch_all ∷ []

unfoldable pub regex_source : TextMatch → Option String
regex_source (regex value) = some value
regex_source (exact _) = none
regex_source (affix _) = none

unfoldable pub thresholds_ok : RiskThresholds → Bool
thresholds_ok rt = ltb rt.allow rt.challenge && ltb rt.challenge rt.block

-- The error of a tier, from what the policies have for it.
unfoldable pub check_policy : Tier → Option TierPolicy → Option TierConfigError
unfolding thresholds_ok
check_policy tier none = some (missing_policy tier)
check_policy tier (some p) =
    if thresholds_ok p.risk_thresholds then none else some (invalid_thresholds tier)

-- The first error, if any.
unfoldable pub or_else {ℓ} : {A : Type ℓ} → Option A → Option A → Option A
or_else (some a) _ = some a
or_else none b = b

unfoldable pub check_policies : List Tier → Map Tier TierPolicy → Option TierConfigError
unfolding check_policy or_else
check_policies [] policies = none
check_policies (t ∷ ts) policies =
    or_else (check_policy t (Map.get t policies)) (check_policies ts policies)

module _ (compiles : String → Bool) where
  unfoldable pub check_source : ℕ → Option TextMatch → Option TierConfigError
  unfolding regex_source
  check_source idx none = none
  check_source idx (some (exact _)) = none
  check_source idx (some (affix _)) = none
  check_source idx (some (regex src)) = if compiles src then none else some (bad_regex idx)

  unfoldable pub check_rules : ℕ → List TierClassifierRule → Option TierConfigError
  unfolding check_source or_else
  check_rules idx [] = none
  check_rules idx (r ∷ rs) =
      or_else (check_source idx r.path)
        (or_else (check_source idx r.host) (check_rules (suc idx) rs))

  -- `TierConfig::validate`: the first error, or none.
  unfoldable pub validate : TierConfig → Option TierConfigError
  unfolding check_policies check_rules or_else
  validate cfg =
      or_else (check_policies all_tiers cfg.policies) (check_rules 0 cfg.classifier_rules)
