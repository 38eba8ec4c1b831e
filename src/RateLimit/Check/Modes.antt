-- ===== src/RateLimit/Check/Modes.antt =====
-- When the check lets a request pass.
use waf.Base.{◌≡◌, refl, ◌∙◌, Bool, true, false, ◌&&◌, String, Option, none, some, arith}
use waf.Base.Keys.{string_eq}
use waf.Base.Int.{ℤ}
use waf.Base.Float.{Float}
use waf.Base.Map
use waf.Tier.{FailMode, fail_close, fail_open, tier_eq}
use waf.RateLimit.{Decision, allow, burst_exceeded, sustained_exceeded, LimitCfg}
use waf.RateLimit.Store.{RateLimitStore}
use waf.RateLimit.Check.{
  RequestCtx, RateLimitConfig, ip, session, render, verdict, handle_store_err, for_tier,
  check_session, after_ip, check_with, check,
}

abbrev pub is_none {ℓ} : {A : Type ℓ} → Option A → Bool
is_none none = true
is_none (some _) = false

-- An answer passes when it allows, or is an error on a tier that fails open.
abbrev pub passes : FailMode → Option Decision → Bool
passes mode (some allow) = true
passes mode (some burst_exceeded) = false
passes mode (some sustained_exceeded) = false
passes fail_open none = true
passes fail_close none = false

module _ {fl : Float} (store : RateLimitStore fl) where
  -- What the session adds after the answer for the address: nothing where the address's call
  -- failed or the request has no session.
  abbrev pub session_passes :
      LimitCfg fl → ℤ → RequestCtx → Option String → store.State × Option Decision → Bool
  session_passes cfg now ctx sid (s, none) = true
  session_passes cfg now ctx none (s, some d) = true
  session_passes cfg now ctx (some sid) (s, some d) =
      passes ctx.fail_mode
        (store.check_and_consume (render (session ctx.host_code sid)) cfg now s).1

  verdict-none :
      (rule scope : String) (mode : FailMode) (o : Option Decision)
      → is_none (verdict rule scope mode o) ≡ passes mode o
  unfolding verdict handle_store_err
  verdict-none rule scope mode (some allow) = refl
  verdict-none rule scope mode (some burst_exceeded) = refl
  verdict-none rule scope mode (some sustained_exceeded) = refl
  verdict-none rule scope fail_open none = refl
  verdict-none rule scope fail_close none = refl

  after_ip-none :
      (cfg : LimitCfg fl) (now : ℤ) (ctx : RequestCtx) (sid : Option String)
      (r : store.State × Option Decision)
      → is_none (after_ip store cfg now ctx sid r).1
        ≡ passes ctx.fail_mode r.1 && session_passes cfg now ctx sid r
  unfolding after_ip check_session
  after_ip-none cfg now ctx sid (s, none) =
      verdict-none "RL-IP" "per-IP" ctx.fail_mode none ∙ ground arith
  after_ip-none cfg now ctx sid (s, some burst_exceeded) =
      verdict-none "RL-IP" "per-IP" ctx.fail_mode (some burst_exceeded)
  after_ip-none cfg now ctx sid (s, some sustained_exceeded) =
      verdict-none "RL-IP" "per-IP" ctx.fail_mode (some sustained_exceeded)
  after_ip-none cfg now ctx none (s, some allow) = refl
  after_ip-none cfg now ctx (some sid) (s, some allow) =
      verdict-none "RL-SESSION" "per-session" ctx.fail_mode _

  -- A request on a tier with a limit passes exactly when the answer for its address passes and,
  -- where that answer is no error and the request has a session, the answer for its session in the
  -- store that the first call left passes too.
  pub check-none :
      (config : RateLimitConfig fl) (cfg : LimitCfg fl) (now : ℤ) (ctx : RequestCtx)
      (s : store.State)
      → for_tier ctx.tier config ≡ some cfg
      → let r = store.check_and_consume (render (ip ctx.host_code ctx.client_ip)) cfg now s in
        is_none (check store config now ctx s).1
        ≡ passes ctx.fail_mode r.1
          && session_passes cfg now ctx (Map.get config.session_cookie ctx.cookies) r
  unfolding check check_with
  check-none config cfg now ctx s limited =
      rw limited (after_ip-none cfg now ctx (Map.get config.session_cookie ctx.cookies) _)
