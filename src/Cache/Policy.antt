-- ===== src/Cache/Policy.antt =====
-- crates/gateway/src/cache/policy.rs and gates: the gates of the response cache in their order, and
-- the verdict on a response.
pub mod Decision
use waf.Base.{
  ℕ, ◌≡◌, Bool, true, false, ◌&&◌, ◌||◌, not, String, Option, none, some, List, [], ◌∷◌, ltb, leb,
  min, any, if◌then◌else◌,
}
use waf.Base.Keys.{nat_eq, ◌==◌}
use waf.Base.Text.{
  to_ascii_lowercase, eq_ignore_ascii_case, has_text, split, trim, strip_prefix, parse_u64,
}
use waf.Tier.{
  Tier, critical, high, medium, catch_all, CachePolicy, no_cache, short_ttl, aggressive,
  default_ttl,
}
use waf.Cache.Rule.{Libraries, CompiledRule, first_match}

pub data BypassReason : Type 0 where
  critical_tier no_cache_policy non_idempotent_method non_cacheable_status set_cookie : BypassReason
  upstream_no_store upstream_no_cache upstream_private : BypassReason
  authenticated explicit_deny no_match : BypassReason

-- `Cache { ttl, tags }` is `cached`.
pub data Verdict : Type 0 where
  bypass : BypassReason → Verdict
  cached : ℕ → List String → Verdict
  continue : Verdict

pub record CacheCtx : Type 0 where
  pub tier : Tier
  pub method : String
  pub host : String
  pub path : String
  pub status : ℕ
  pub headers : List (String × String)
  pub cache_control : Option String
  pub policy : CachePolicy
  pub max_ttl_secs : ℕ
  pub default_ttl_secs : ℕ
  pub has_authorization : Bool
  pub has_cookie : Bool

unfoldable pub policy_ceiling_secs : CachePolicy → ℕ → ℕ
policy_ceiling_secs no_cache hard_max = 0
policy_ceiling_secs (short_ttl ttl) hard_max = ttl
policy_ceiling_secs (aggressive ttl) hard_max = ttl
policy_ceiling_secs (default_ttl _) hard_max = hard_max

unfoldable pub policy_default_secs : CachePolicy → ℕ → ℕ
policy_default_secs no_cache fallback_secs = fallback_secs
policy_default_secs (short_ttl ttl) fallback_secs = ttl
policy_default_secs (aggressive ttl) fallback_secs = ttl
policy_default_secs (default_ttl ttl) fallback_secs = ttl

unfoldable pub is_critical : Tier → Bool
is_critical critical = true
is_critical high = false
is_critical medium = false
is_critical catch_all = false

unfoldable pub is_no_cache : CachePolicy → Bool
is_no_cache no_cache = true
is_no_cache (short_ttl _) = false
is_no_cache (aggressive _) = false
is_no_cache (default_ttl _) = false

unfoldable pub tier_gate : CacheCtx → Verdict
tier_gate ctx =
    if is_critical ctx.tier
    then bypass critical_tier
    else if is_no_cache ctx.policy
    then bypass no_cache_policy
    else continue

unfoldable pub is_cacheable_method : String → Bool
is_cacheable_method method = eq_ignore_ascii_case method "GET" || eq_ignore_ascii_case method "HEAD"

unfoldable pub method_gate : CacheCtx → Verdict
method_gate ctx = if is_cacheable_method ctx.method then continue else bypass non_idempotent_method

unfoldable pub auth_gate : CacheCtx → Verdict
auth_gate ctx = if ctx.has_authorization || ctx.has_cookie then bypass authenticated else continue

-- `CcDecision`, `None` being `nothing`.
pub data CcDecision : Type 0 where
  nothing no_store no_cache_directive private : CcDecision
  max_age : ℕ → CcDecision

-- `strip_prefix("max-age=")` and the number after it.
unfoldable pub age_of : Option String → Option ℕ
age_of none = none
age_of (some rest) = parse_u64 (trim rest)

unfoldable pub age_or : Option ℕ → CcDecision → CcDecision
age_or none d = d
age_or (some secs) d = max_age secs

-- The first part that gives an age.
unfoldable pub first_age : List String → CcDecision
unfolding age_of age_or
first_age [] = nothing
first_age (part ∷ parts) = age_or (age_of (strip_prefix (trim part) "max-age=")) (first_age parts)

unfoldable pub directive : String → CcDecision
unfolding first_age
directive lower =
    if has_text lower "no-store"
    then no_store
    else if has_text lower "no-cache"
    then no_cache_directive
    else if has_text lower "private"
    then private
    else first_age (split 44 lower)

-- `str::to_lowercase` goes by the tables of Unicode: a parameter.
unfoldable pub parse_cache_control : (String → String) → Option String → CcDecision
unfolding directive
parse_cache_control to_lowercase none = nothing
parse_cache_control to_lowercase (some header) = directive (to_lowercase header)

unfoldable pub sets_cookie : List (String × String) → Bool
sets_cookie headers = any (λ h. eq_ignore_ascii_case h.0 "set-cookie") headers

unfoldable pub cc_verdict : CacheCtx → CcDecision → Verdict
unfolding policy_ceiling_secs
cc_verdict ctx nothing = continue
cc_verdict ctx no_store = bypass upstream_no_store
cc_verdict ctx no_cache_directive = bypass upstream_no_cache
cc_verdict ctx private = bypass upstream_private
cc_verdict ctx (max_age secs) =
    cached (min (min secs (policy_ceiling_secs ctx.policy ctx.max_ttl_secs)) ctx.max_ttl_secs) []

unfoldable pub is_success : ℕ → Bool
is_success status = leb 200 status && ltb status 300

unfoldable pub tier_default_gate : CacheCtx → Verdict
unfolding policy_default_secs
tier_default_gate ctx = cached (policy_default_secs ctx.policy ctx.default_ttl_secs) []

-- `CachePolicyResolver::resolve`: the first verdict that is not `continue`.
unfoldable pub or_next : Verdict → Verdict → Verdict
or_next (bypass reason) next = bypass reason
or_next (cached ttl tags) next = cached ttl tags
or_next continue next = next

unfoldable pub resolve : List (CacheCtx → Verdict) → CacheCtx → Verdict
unfolding or_next
resolve [] ctx = bypass no_match
resolve (gate ∷ gates) ctx = or_next (gate ctx) (resolve gates ctx)

module _ (lib : Libraries) (to_lowercase : String → String) where
  unfoldable pub upstream_cc_gate : CacheCtx → Verdict
  unfolding is_success cc_verdict
  upstream_cc_gate ctx =
      if not (is_success ctx.status)
      then bypass non_cacheable_status
      else if sets_cookie ctx.headers
      then bypass set_cookie
      else cc_verdict ctx (parse_cache_control to_lowercase ctx.cache_control)

  -- The verdict of the rule that matches.
  unfoldable pub rule_verdict : CacheCtx → Option (CompiledRule lib) → Verdict
  rule_verdict ctx none = continue
  rule_verdict ctx (some r) =
      if r.ttl == 0
      then bypass explicit_deny
      else cached (min r.ttl ctx.max_ttl_secs) (r.id ∷ r.tags)

  unfoldable pub route_rule_gate : List (CompiledRule lib) → CacheCtx → Verdict
  unfolding rule_verdict
  route_rule_gate rules ctx =
      rule_verdict ctx (first_match lib rules (to_ascii_lowercase ctx.host) ctx.path ctx.method)

  -- The gates that `ResponseCache::with_backend` sets up.
  unfoldable pub gates : List (CompiledRule lib) → List (CacheCtx → Verdict)
  unfolding tier_gate method_gate auth_gate route_rule_gate upstream_cc_gate tier_default_gate
  gates rules =
      tier_gate
      ∷ method_gate
      ∷ auth_gate
      ∷ route_rule_gate rules
      ∷ upstream_cc_gate
      ∷ tier_default_gate
      ∷ []
