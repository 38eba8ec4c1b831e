-- ===== src/Cache/Facade/Origin.antt =====
-- Where the entries of the response cache come from.
use waf.Base.{◌≡◌, ◌≢◌, true, false, String, some, List, [], ◌∷◌, In}
use waf.Tier.{Tier, critical, no_cache}
use waf.Cache.Rule.{Libraries, CompiledRuleSet}
use waf.Base.Text.{before}
use waf.Cache.Policy.{is_cacheable_method}
use waf.Cache.Store
use waf.Cache.Store.{CachedResponse, Moka, MokaStore}
use waf.Cache.Facade.{
  Response, ResponseCache, moka_backend, get, put, purge_host, purge_key, flush, purge_by_tag,
  purge_by_route_id, swap,
}

-- The entry holds the response.
pub record IsOf (r : Response) (e : CachedResponse) : Type 0 where
  pub status : e.status ≡ r.status
  pub headers : e.headers ≡ r.headers
  pub body : e.body ≡ r.body

-- A response that may be cached.
pub record IsAdmissible (r : Response) : Type 0 where
  pub tier : r.tier ≢ critical
  pub policy : r.policy ≢ no_cache
  pub method : is_cacheable_method (before 58 r.key) ≡ true
  pub authorization : r.has_authorization ≡ false
  pub cookie : r.has_cookie ≡ false

module _ (lib : Libraries) (to_lowercase : String → String) (m : Moka) where
  abbrev pub Cache : Type 0
  Cache = ResponseCache lib to_lowercase (moka_backend m)

  pub data Call : Type 0 where
    puts : Response → Call
    gets : String → Tier → Call
    purges_key purges_host purges_tag purges_route : String → Call
    flushes expires : Call
    swaps : CompiledRuleSet lib → Call

  unfoldable pub step : Call → Cache → Cache
  step (puts r) c = (put lib to_lowercase (moka_backend m) r c).0
  step (gets key tier) c = (get lib to_lowercase (moka_backend m) key tier c).0
  step (purges_key key) c = purge_key lib to_lowercase (moka_backend m) key c
  step (purges_host host) c = purge_host lib to_lowercase (moka_backend m) host c
  step (purges_tag tag) c = (purge_by_tag lib to_lowercase (moka_backend m) tag c).0
  step (purges_route id) c = (purge_by_route_id lib to_lowercase (moka_backend m) id c).0
  step flushes c = flush lib to_lowercase (moka_backend m) c
  step expires c = record c { backend = Store.expire m c.backend }
  step (swaps rules) c = swap lib to_lowercase (moka_backend m) rules c

  unfoldable pub run : List Call → Cache → Cache
  unfolding step
  run [] c = c
  run (a ∷ as') c = run as' (step a c)

  -- What holds of each entry that is held, with its key.
  Holds : (String → CachedResponse → Type 0) → Cache → Type 0
  Holds P c = (k : String) (e : CachedResponse) → m.get k c.backend.inner ≡ some e → P k e

  -- What a put of an admissible response makes hold.
  abbrev Puts : (String → CachedResponse → Type 0) → Call → Type 0
  Puts P a =
      (r : Response) (e : CachedResponse) → a ≡ puts r → IsAdmissible r → IsOf r e → P r.key e

  -- An entry under a key, of a response that some of the calls put there.
  abbrev pub Origin : List Call → String → CachedResponse → Type 0
  Origin cs k e = (r : Response) × In (puts r) cs × (r.key ≡ k) × IsAdmissible r × IsOf r e
