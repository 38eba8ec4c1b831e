-- ===== src/RateLimit/Check.antt =====
-- crates/waf-engine/src/checks/rate_limit/check.rs and key.rs: the check of a request against the
-- limits of its address and of its session, over any store.
pub mod Modes
use waf.Base.{
  ℕ, ◌≡◌, ◌↔◌, refl, ap, ◌∙◌, sym, inl, inr, Bool, true, false, not, ◌&&◌, ◌||◌, String, Option,
  none, some, List, [], ◌∷◌, arith, if◌then◌else◌, Bool-cases, Option-cases,
}
use Prim.Native.String.{◌++◌}
use waf.Base.Keys.{string_eq}
use waf.Base.Int.{ℤ}
use waf.Base.Float.{Float}
use waf.Base.Map
use waf.Base.Map.{Map}
use waf.Tier.{Tier, tier_eq, FailMode, fail_close, fail_open}
use waf.RateLimit.{Decision, allow, burst_exceeded, sustained_exceeded, LimitCfg}
use waf.RateLimit.Store.{RateLimitStore}

-- What the check reads of `RequestCtx`.
pub record RequestCtx : Type 0 where
  pub tier : Tier
  pub fail_mode : FailMode
  pub host_code : String
  pub client_ip : String
  pub cookies : Map String String

pub record DetectionResult : Type 0 where
  pub rule_id : String
  pub rule_name : String
  pub detail : String

pub data KeyKind : Type 0 where
  ip session : String → String → KeyKind

unfoldable pub render : KeyKind → String
render (ip host addr) = "ip:" ++ host ++ ":" ++ addr
render (session host sid) = "sess:" ++ host ++ ":" ++ sid

unfoldable pub detail_of : String → Decision → String
detail_of scope burst_exceeded = scope ++ " burst limit exceeded"
detail_of scope sustained_exceeded = scope ++ " sustained window limit exceeded"
detail_of scope allow = scope ++ " allowed"

unfoldable pub block : String → String → Decision → DetectionResult
unfolding detail_of
block rule_id scope d = record {
  rule_id = rule_id;
  rule_name = "Rate Limit";
  detail = detail_of scope d;
}

unfoldable pub handle_store_err : FailMode → Option DetectionResult
handle_store_err fail_close = some (record {
  rule_id = "RL-ERR";
  rule_name = "Rate Limit (store error)";
  detail = "rate-limit store error; tier fail_mode=close";
})
handle_store_err fail_open = none

-- The verdict on an answer of the store.
unfoldable pub verdict : String → String → FailMode → Option Decision → Option DetectionResult
unfolding block handle_store_err
verdict rule_id scope mode (some allow) = none
verdict rule_id scope mode (some burst_exceeded) = some (block rule_id scope burst_exceeded)
verdict rule_id scope mode (some sustained_exceeded) = some (block rule_id scope sustained_exceeded)
verdict rule_id scope mode none = handle_store_err mode

module _ (fl : Float) where
  pub record RateLimitConfig : Type 0 where
    pub session_cookie : String
    pub tiers : Map Tier (LimitCfg fl)

module _ {fl : Float} where
  unfoldable pub for_tier : Tier → RateLimitConfig fl → Option (LimitCfg fl)
  for_tier tier c = Map.get tier c.tiers

  module _ (store : RateLimitStore fl) where
    unfoldable pub check_session :
        LimitCfg fl
        → ℤ
        → RequestCtx
        → Option String
        → store.State
        → store.State × Option DetectionResult
    unfolding render verdict
    check_session cfg now ctx none s = (s, none)
    check_session cfg now ctx (some sid) s =
        let (s', d) = store.check_and_consume (render (session ctx.host_code sid)) cfg now s in
        (s', verdict "RL-SESSION" "per-session" ctx.fail_mode d)

    -- What follows the answer for the address.
    unfoldable pub after_ip :
        LimitCfg fl
        → ℤ
        → RequestCtx
        → Option String
        → store.State × Option Decision
        → store.State × Option DetectionResult
    unfolding check_session verdict
    after_ip cfg now ctx sid (s, some allow) = check_session cfg now ctx sid s
    after_ip cfg now ctx sid (s, some burst_exceeded) =
        (s, verdict "RL-IP" "per-IP" ctx.fail_mode (some burst_exceeded))
    after_ip cfg now ctx sid (s, some sustained_exceeded) =
        (s, verdict "RL-IP" "per-IP" ctx.fail_mode (some sustained_exceeded))
    after_ip cfg now ctx sid (s, none) = (s, verdict "RL-IP" "per-IP" ctx.fail_mode none)

    unfoldable pub check_with :
        Option (LimitCfg fl)
        → ℤ
        → RequestCtx
        → Option String
        → store.State
        → store.State × Option DetectionResult
    unfolding after_ip render
    check_with none now ctx sid s = (s, none)
    check_with (some cfg) now ctx sid s =
        after_ip cfg now ctx sid
          (store.check_and_consume (render (ip ctx.host_code ctx.client_ip)) cfg now s)

    unfoldable pub check :
        RateLimitConfig fl → ℤ → RequestCtx → store.State → store.State × Option DetectionResult
    unfolding check_with for_tier
    check config now ctx s =
        check_with (for_tier ctx.tier config) now ctx (Map.get config.session_cookie ctx.cookies) s
