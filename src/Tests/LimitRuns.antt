-- ===== src/Tests/LimitRuns.antt =====
-- Requests of one key within one window, with natural numbers for `f64`.
use waf.Base.{◌≤◌, ◌≡◌, ◌&&◌, refl, List, [], ◌∷◌, arith}
use waf.Base.Keys.{string_eq}
use waf.Base.Int
use waf.RateLimit
use waf.Base.Int.{ℤ, pos, ◌*ℤ◌, div_euclid, saturating_sub}
use waf.Base.Map
use waf.Base.Map.{Map}
use waf.Tier.{critical, fail_close, tier_eq}
use waf.RateLimit.{
  LimitCfg, TokenBucketState, SlidingWindowState, new_window, new_full, align_floor,
}
use waf.RateLimit.Window.{consume_all, count_true, consume_all-le}
use waf.RateLimit.Store.{memory_store, check_and_consume, cleanup}
use waf.RateLimit.Store.Allows.{Op, consumed, cleaned, IsSpared, allowed, check_all, allowed-le}
use waf.RateLimit.Check.{RequestCtx, RateLimitConfig, ip, render, check, for_tier}
use waf.RateLimit.Check.Modes.{is_none, passes, session_passes, check-none}
use waf.Tests.{natural, natural_laws}

abbrev cfg : LimitCfg natural
cfg = record { burst_capacity = 5; burst_refill_per_s = 1; window_secs = 60; window_limit = 2 }

abbrev window : SlidingWindowState
window = new_window (pos 61000) 60

abbrev times : List ℤ
times = pos 61000 ∷ pos 62000 ∷ pos 63000 ∷ []

abbrev bucket : TokenBucketState natural
bucket = new_full cfg (pos 0)

consume_all-le_example : count_true (consume_all cfg times window).1 ≤ 2
unfolding new_window align_floor ◌*ℤ◌ div_euclid
consume_all-le_example =
    consume_all-le natural_laws cfg (pos 60000) times window (omega arith) (omega arith)
      (omega arith) (refl, (refl, (refl, tt)))

abbrev ops : List Op
ops =
    consumed "k" (pos 61000)
    ∷ consumed "j" (pos 500000)
    ∷ cleaned (pos 61500)
    ∷ consumed "k" (pos 62000)
    ∷ consumed "k" (pos 63000)
    ∷ []

ops-IsSpared : IsSpared natural_laws "k" cfg ops []
unfolding check_and_consume cleanup saturating_sub Map.get Map.insert Map.retain Int.◌-ℤ◌
    RateLimit.take_token new_full RateLimit.try_consume Int.quot ◌*ℤ◌ div_euclid new_window
ops-IsSpared = (refl, tt)

allowed-le_example : allowed "k" (check_all natural_laws cfg ops []) ≤ 2
unfolding align_floor Map.get ◌*ℤ◌ div_euclid
allowed-le_example =
    allowed-le natural_laws cfg "k" (pos 60000) ops [] (omega arith) (omega arith)
      ((λ _. refl), ((λ e. ground (arith, e)), ((λ _. refl), ((λ _. refl), tt)))) ops-IsSpared refl

abbrev config : RateLimitConfig natural
config = record { session_cookie = "SID"; tiers = (critical, cfg) ∷ [] }

abbrev ctx : RequestCtx
ctx = record {
  tier = critical;
  fail_mode = fail_close;
  host_code = "h";
  client_ip = "10.0.0.1";
  cookies = ("SID", "user") ∷ [];
}

check-none_example :
    is_none (check memory_store config (pos 61000) ctx []).1
    ≡ passes fail_close
        (memory_store.check_and_consume (render (ip "h" "10.0.0.1")) cfg (pos 61000) []).1
      && session_passes memory_store cfg
          (pos 61000)
          ctx
          (Map.get "SID" ctx.cookies)
          (memory_store.check_and_consume (render (ip "h" "10.0.0.1")) cfg (pos 61000) [])
unfolding for_tier Map.get
check-none_example = check-none memory_store config cfg (pos 61000) ctx [] refl
