-- ===== src/Cache/Policy/Decision.antt =====
-- The verdict of the gates on every response.
use waf.Base.{
  ℕ, ◌≡◌, ◌≢◌, ◌↔◌, ◌≤◌, ◌<◌, refl, ◌∙◌, true, false, String, Option, none, some, List, [], ◌∷◌,
  min, arith,
}
use waf.Base.Keys.{nat_eq}
use waf.Base.Text.{to_ascii_lowercase}
use waf.Tier.{Tier, critical, CachePolicy, no_cache}
use waf.Cache.Rule.{Libraries, CompiledRule, first_match}
use waf.Cache.Policy.{
  CacheCtx, Verdict, cached, gates, resolve, is_cacheable_method, sets_cookie, parse_cache_control,
  CcDecision, nothing, max_age, policy_ceiling_secs, policy_default_secs, is_critical, is_no_cache,
  tier_gate, method_gate, auth_gate, route_rule_gate, upstream_cc_gate, tier_default_gate,
  rule_verdict, or_next,
}

pub is_critical_iff : (t : Tier) → (is_critical t ≡ true) ↔ (t ≡ critical)
unfolding is_critical
is_critical_iff t = ground arith

is_no_cache_iff : (p : CachePolicy) → (is_no_cache p ≡ true) ↔ (p ≡ no_cache)
unfolding is_no_cache
is_no_cache_iff p = ground arith

-- A request that the first three gates let pass.
pub record IsEligible (ctx : CacheCtx) : Type 0 where
  pub tier : ctx.tier ≢ critical
  pub policy : ctx.policy ≢ no_cache
  pub method : is_cacheable_method ctx.method ≡ true
  pub authorization : ctx.has_authorization ≡ false
  pub cookie : ctx.has_cookie ≡ false

-- The time to live of a response that no rule matches, from its `Cache-Control`.
pub data Lives (ctx : CacheCtx) (ttl : ℕ) : CcDecision → Type 0 where
  by_default : ttl ≡ policy_default_secs ctx.policy ctx.default_ttl_secs → Lives ctx ttl nothing
  by_age :
      (secs : ℕ)
      → ttl ≡ min (min secs (policy_ceiling_secs ctx.policy ctx.max_ttl_secs)) ctx.max_ttl_secs
      → Lives ctx ttl (max_age secs)

module _ (lib : Libraries) (to_lowercase : String → String) (rules : List (CompiledRule lib)) where
  -- The rule that the gate of the routes goes by.
  abbrev pub route_rule : CacheCtx → Option (CompiledRule lib)
  route_rule ctx = first_match lib rules (to_ascii_lowercase ctx.host) ctx.path ctx.method

  abbrev pub ByRule : CacheCtx → ℕ → List String → Type 0
  ByRule ctx ttl tags =
      (r : CompiledRule lib) × (route_rule ctx ≡ some r)
      × (r.ttl ≢ 0)
      × (ttl ≡ min r.ttl ctx.max_ttl_secs)
      × (tags ≡ r.id ∷ r.tags)

  abbrev pub ByResponse : CacheCtx → ℕ → List String → Type 0
  ByResponse ctx ttl tags =
      (route_rule ctx ≡ none)
      × (200 ≤ ctx.status)
      × (ctx.status < 300)
      × (sets_cookie ctx.headers ≡ false)
      × Lives ctx ttl (parse_cache_control to_lowercase ctx.cache_control)
      × (tags ≡ [])

  front : CacheCtx → Verdict → Verdict
  front ctx v = or_next (tier_gate ctx) (or_next (method_gate ctx) (or_next (auth_gate ctx) v))

  back : CacheCtx → Verdict
  back ctx = or_next (upstream_cc_gate lib to_lowercase ctx) (tier_default_gate ctx)

  resolve-front :
      (ctx : CacheCtx)
      → resolve (gates lib to_lowercase rules) ctx
        ≡ front ctx (or_next (route_rule_gate lib to_lowercase rules ctx) (back ctx))
  unfolding resolve gates front back tier_default_gate
  resolve-front ctx = refl

  front-eligible : (ctx : CacheCtx) (v : Verdict) → IsEligible ctx → front ctx v ≡ v
  unfolding front tier_gate method_gate auth_gate or_next
  front-eligible ctx v h = ground (arith, is_critical_iff ctx.tier, is_no_cache_iff ctx.policy)

  -- Where the rule that matches an eligible request has a time to live that is not zero, the
  -- response is cached under it whatever its status is, whether or not it sets a cookie, and
  -- whatever its `Cache-Control` says.
  pub resolve-route_rule :
      (ctx : CacheCtx) (r : CompiledRule lib) (status : ℕ) (headers : List (String × String))
      (cache_control : Option String)
      → IsEligible ctx
      → route_rule ctx ≡ some r
      → r.ttl ≢ 0
      → resolve
          (gates lib to_lowercase rules)
          (record ctx { status = status; headers = headers; cache_control = cache_control })
        ≡ cached (min r.ttl ctx.max_ttl_secs) (r.id ∷ r.tags)
  unfolding route_rule_gate rule_verdict or_next
  resolve-route_rule ctx r status headers cache_control v e n =
      let c = record ctx { status = status; headers = headers; cache_control = cache_control } in
      resolve-front c
      ∙ front-eligible c (or_next (route_rule_gate lib to_lowercase rules c) (back c)) (record {
        tier = v.tier;
        policy = v.policy;
        method = v.method;
        authorization = v.authorization;
        cookie = v.cookie;
      })
      ∙ ground (arith, e, n)
