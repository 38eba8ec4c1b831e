-- ===== src/Cache/Facade.antt =====
-- crates/gateway/src/cache/store.rs: `ResponseCache`, the gates and the counters over a backend.
-- What it reports of the backend (the size, the health, the top routes) is not modelled.
pub mod Origin
use waf.Base.{ℕ, ◌+◌, Bool, true, false, String, Option, none, some, List, [], ◌∷◌, if◌then◌else◌}
use waf.Base.Text.{before}
use waf.Base.Words.{wrap_u64}
use waf.Tier.{Tier, CachePolicy}
use waf.Cache.Key.{parse_cache_key}
use waf.Cache.Rule.{Libraries, CompiledRuleSet, first_cacheable_rule_id}
use waf.Cache.Policy.{CacheCtx, Verdict, bypass, cached, continue, gates, resolve, is_critical}
use waf.Cache.Store
use waf.Cache.Store.{CachedResponse, Moka, MokaStore}
use waf.Cache.Stats.{CacheStats, record_bypass, record_route_hit, record_route_miss}

-- The trait `CacheBackend`: the calls that the cache passes on.
pub record CacheBackend : Type 1 where
  pub Store : Type 0
  pub get : String → Store → Option CachedResponse
  pub put : String → CachedResponse → ℕ → List String → Store → Store × Bool
  pub remove : String → Store → Store
  pub purge_by_tag : String → Store → Store × ℕ
  pub purge_by_route_id : String → Store → Store × ℕ
  pub purge_host : String → Store → Store × ℕ
  pub flush : Store → Store

abbrev pub moka_backend : Moka → CacheBackend
moka_backend m = record {
  Store = MokaStore m;
  get = Store.get m;
  put = Store.put m;
  remove = Store.remove m;
  purge_by_tag = Store.purge_by_tag m;
  purge_by_route_id = Store.purge_by_route_id m;
  purge_host = Store.purge_host m;
  flush = Store.flush m;
}

-- The arguments of `put`.
pub record Response : Type 0 where
  pub key : String
  pub host : String
  pub path : String
  pub status : ℕ
  pub headers : List (String × String)
  pub body : List ℕ
  pub cache_control : Option String
  pub tier : Tier
  pub policy : CachePolicy
  pub has_authorization : Bool
  pub has_cookie : Bool

unfoldable pub count_route : Option String → Option CachedResponse → CacheStats → CacheStats
unfolding record_route_hit record_route_miss
count_route none result s = s
count_route (some label) none s = record_route_miss label s
count_route (some label) (some _) s = record_route_hit label s

unfoldable pub count_result : Option CachedResponse → CacheStats → CacheStats
count_result none s = record s { misses = wrap_u64 (s.misses + 1) }
count_result (some _) s = record s { hits = wrap_u64 (s.hits + 1) }

unfoldable pub count_store : Bool → CacheStats → CacheStats
count_store true s = record s { stores = wrap_u64 (s.stores + 1) }
count_store false s = s

module _ (lib : Libraries) (to_lowercase : String → String) (b : CacheBackend) where
  pub record ResponseCache : Type 0 where
    pub backend : b.Store
    pub stats : CacheStats
    pub rules : CompiledRuleSet lib
    pub default_ttl : ℕ
    pub max_ttl : ℕ

  unfoldable pub label_for : CompiledRuleSet lib → Option (String × String × String) → Option String
  label_for rules none = none
  label_for rules (some (method, host, path)) = first_cacheable_rule_id lib rules host path method

  unfoldable pub get : String → Tier → ResponseCache → ResponseCache × Option CachedResponse
  unfolding count_route count_result
  get key tier c =
      let label = label_for c.rules (parse_cache_key key) in
      let result = b.get key c.backend in
      if is_critical tier
      then (
        record c {
          stats = record c.stats { bypassed_critical = wrap_u64 (c.stats.bypassed_critical + 1) };
        },
        none,
      )
      else (record c { stats = count_result result (count_route label result c.stats) }, result)

  unfoldable pub ctx_of : Response → ResponseCache → CacheCtx
  ctx_of r c = record {
    tier = r.tier;
    method = before 58 r.key;
    host = r.host;
    path = r.path;
    status = r.status;
    headers = r.headers;
    cache_control = r.cache_control;
    policy = r.policy;
    max_ttl_secs = c.max_ttl;
    default_ttl_secs = c.default_ttl;
    has_authorization = r.has_authorization;
    has_cookie = r.has_cookie;
  }

  -- What `put` does on a verdict.
  unfoldable pub put_verdict : Response → Verdict → ResponseCache → ResponseCache × Bool
  unfolding count_store record_bypass
  put_verdict r (bypass reason) c = (record c { stats = record_bypass reason c.stats }, false)
  put_verdict r continue c = (c, false)
  put_verdict r (cached ttl tags) c =
      let entry : CachedResponse = record {
        status = r.status;
        headers = r.headers;
        body = r.body;
        max_age = ttl;
      } in
      let (backend, stored) = b.put r.key entry ttl tags c.backend in
      (record c { backend = backend; stats = count_store stored c.stats }, stored)

  unfoldable pub put : Response → ResponseCache → ResponseCache × Bool
  unfolding put_verdict ctx_of
  put r c = put_verdict r (resolve (gates lib to_lowercase c.rules.rules) (ctx_of r c)) c

  unfoldable pub purge_host : String → ResponseCache → ResponseCache
  purge_host host c = record c { backend = (b.purge_host host c.backend).0 }

  unfoldable pub purge_key : String → ResponseCache → ResponseCache
  purge_key key c = record c { backend = b.remove key c.backend }

  unfoldable pub flush : ResponseCache → ResponseCache
  flush c = record c { backend = b.flush c.backend }

  unfoldable pub purge_by_tag : String → ResponseCache → ResponseCache × ℕ
  purge_by_tag tag c =
      let (backend, n) = b.purge_by_tag tag c.backend in
      (
        record c {
          backend = backend;
          stats = record c.stats { purges_tag = wrap_u64 (c.stats.purges_tag + n) };
        },
        n,
      )

  unfoldable pub purge_by_route_id : String → ResponseCache → ResponseCache × ℕ
  purge_by_route_id route_id c =
      let (backend, n) = b.purge_by_route_id route_id c.backend in
      (
        record c {
          backend = backend;
          stats = record c.stats { purges_route = wrap_u64 (c.stats.purges_route + n) };
        },
        n,
      )

  -- `RuleSetHolder::swap`.
  unfoldable pub swap : CompiledRuleSet lib → ResponseCache → ResponseCache
  swap rules c = record c { rules = rules }
