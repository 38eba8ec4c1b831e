-- ===== src/Cache/Stats.antt =====
-- crates/gateway/src/cache/stats.rs: the counters of the response cache. Each `fetch_add` wraps at
-- 2 ^ 64. The time series is not modelled.
use waf.Base.{ℕ, ◌+◌, String, Option, none, some, []}
use waf.Base.Keys.{string_eq}
use waf.Base.Map
use waf.Base.Map.{Map}
use waf.Base.Words.{wrap_u64}
use waf.Cache.Policy.{
  BypassReason, critical_tier, no_cache_policy, non_idempotent_method, non_cacheable_status,
  set_cookie, upstream_no_store, upstream_no_cache, upstream_private, authenticated, explicit_deny,
  no_match,
}

pub record CacheStats : Type 0 where
  pub hits : ℕ
  pub misses : ℕ
  pub stores : ℕ
  pub bypassed_critical : ℕ
  pub bypassed_authenticated : ℕ
  pub bypassed_explicit_deny : ℕ
  pub purges_tag : ℕ
  pub purges_route : ℕ
  pub route_hits : Map String ℕ
  pub route_misses : Map String ℕ

abbrev pub new : CacheStats
new = record {
  hits = 0;
  misses = 0;
  stores = 0;
  bypassed_critical = 0;
  bypassed_authenticated = 0;
  bypassed_explicit_deny = 0;
  purges_tag = 0;
  purges_route = 0;
  route_hits = [];
  route_misses = [];
}

unfoldable pub record_bypass : BypassReason → CacheStats → CacheStats
record_bypass critical_tier s = record s { bypassed_critical = wrap_u64 (s.bypassed_critical + 1) }
record_bypass no_cache_policy s = record s {
  bypassed_critical = wrap_u64 (s.bypassed_critical + 1);
}
record_bypass authenticated s = record s {
  bypassed_authenticated = wrap_u64 (s.bypassed_authenticated + 1);
}
record_bypass explicit_deny s = record s {
  bypassed_explicit_deny = wrap_u64 (s.bypassed_explicit_deny + 1);
}
record_bypass non_idempotent_method s = s
record_bypass non_cacheable_status s = s
record_bypass set_cookie s = s
record_bypass upstream_no_store s = s
record_bypass upstream_no_cache s = s
record_bypass upstream_private s = s
record_bypass no_match s = s

abbrev or_zero : Option ℕ → ℕ
or_zero none = 0
or_zero (some n) = n

-- `entry(key).or_insert(0)`, counted up.
unfoldable pub count_route : String → Map String ℕ → Map String ℕ
count_route key m = Map.insert key (wrap_u64 (or_zero (Map.get key m) + 1)) m

unfoldable pub record_route_hit : String → CacheStats → CacheStats
unfolding count_route
record_route_hit key s = record s { route_hits = count_route key s.route_hits }

unfoldable pub record_route_miss : String → CacheStats → CacheStats
unfolding count_route
record_route_miss key s = record s { route_misses = count_route key s.route_misses }
