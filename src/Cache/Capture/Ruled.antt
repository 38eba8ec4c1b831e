-- ===== src/Cache/Capture/Ruled.antt =====
-- Captured responses of requests that a route rule matches.
use waf.Base.{◌≡◌, ◌≢◌, ◌≤◌, ◌<◌, Bool, true, String, some, List, ◌∷◌, min, arith}
use waf.Cache.Rule.{Libraries, CompiledRule}
use waf.Cache.Policy.{CacheCtx, cached, gates, resolve, is_success}
use waf.Cache.Policy.Decision.{IsEligible, route_rule, resolve-route_rule}
use waf.Cache.Capture.{ResponseCachePending, UpstreamResponse, begin_upstream_cache_capture}

capture_success :
    (up : UpstreamResponse) (body_mask_enabled : Bool) (p : ResponseCachePending)
    → (begin_upstream_cache_capture up body_mask_enabled p).1 ≡ true
    → (200 ≤ up.status) × (up.status < 300)
unfolding begin_upstream_cache_capture is_success
capture_success up body_mask_enabled p h = (ground (arith, h), ground (arith, h))

module _ (lib : Libraries) (to_lowercase : String → String) (rules : List (CompiledRule lib)) where
  -- A response whose capture begins has a status from 200 to 299. Where a rule with a time to live
  -- that is not zero matches its request, and the request is eligible, the gates cache what was
  -- captured under the rule, whichever of these statuses it has, whether or not it sets a cookie,
  -- and whatever its `Cache-Control` says.
  pub capture-route_rule :
      (ctx : CacheCtx) (r : CompiledRule lib) (up : UpstreamResponse) (body_mask_enabled : Bool)
      (p : ResponseCachePending)
      → IsEligible ctx
      → route_rule lib to_lowercase rules ctx ≡ some r
      → r.ttl ≢ 0
      → (begin_upstream_cache_capture up body_mask_enabled p).1 ≡ true
      → let q = (begin_upstream_cache_capture up body_mask_enabled p).0 in
        (200 ≤ up.status)
        × (up.status < 300)
        × (resolve (gates lib to_lowercase rules) (record ctx {
          status = q.status;
          headers = q.headers;
          cache_control = q.cache_control;
        })
            ≡ cached (min r.ttl ctx.max_ttl_secs) (r.id ∷ r.tags))
  capture-route_rule ctx r up body_mask_enabled p v e n h =
      let q = (begin_upstream_cache_capture up body_mask_enabled p).0 in
      let success = capture_success up body_mask_enabled p h in
      (
        success.0,
        success.1,
        resolve-route_rule lib to_lowercase rules ctx r q.status q.headers q.cache_control v e n,
      )
