-- ===== src/Ddos/Check.antt =====
-- crates/waf-engine/src/checks/ddos/check.rs, degrade.rs and action/risk.rs: the check of a
-- request. The detectors are any functions on a state of their own (`dyn Detector`). A detection
-- keeps what its texts are printed from; metrics are left out, and the signals to the risk
-- aggregator are kept as a list.
pub mod Bans
use waf.Base.{
  ℕ, ◌+◌, ◌≡◌, Bool, true, false, ◌||◌, String, Option, none, some, List, [], ◌∷◌, ltb,
  if◌then◌else◌,
}
use waf.Base.Int.{ℤ}
use waf.Base.Words.{wrap_u64}
use waf.Tier.{Tier, critical, high, medium, catch_all, FailMode, fail_close, fail_open}
use waf.Ddos.Ban.{
  CounterStore, BanAction, DetectorVerdict, soft_anomaly, hard_burst, ActionResult, noop, merge,
  execute, contains,
}
use waf.Ddos.Ban
use waf.Ddos.Detect.{DdosTierCfg}

pub data DegradeAction : Type 0 where
  allow allow_and_warn : DegradeAction
  block : ℕ → ℕ → DegradeAction

-- `resolve`, which does not look at the kind of error.
unfoldable pub resolve : Tier → FailMode → DegradeAction
resolve tier fail_close = block 503 5
resolve critical fail_open = block 503 5
resolve high fail_open = block 503 5
resolve medium fail_open = allow_and_warn
resolve catch_all fail_open = allow

pub record OverloadGuard : Type 0 where
  pub in_flight : ℕ
  pub overloaded : Bool
  pub threshold : ℕ

unfoldable pub new_guard : ℕ → OverloadGuard
new_guard threshold = record { in_flight = 0; overloaded = false; threshold = threshold }

unfoldable pub enter : OverloadGuard → OverloadGuard
enter g = record g { in_flight = wrap_u64 (g.in_flight + 1) }

-- `fetch_sub` wraps below zero.
unfoldable pub exit : OverloadGuard → OverloadGuard
exit g = record g { in_flight = wrap_u64 (g.in_flight + 18446744073709551615) }

unfoldable pub sample : OverloadGuard → OverloadGuard
sample g = record g { overloaded = ltb g.threshold g.in_flight }

-- The risk that a verdict submits, as `RiskBumpAction::execute`.
unfoldable pub risk_delta_of : DetectorVerdict → ℕ
risk_delta_of Ban.allow = 0
risk_delta_of (soft_anomaly delta) = delta
risk_delta_of (hard_burst _ _) = 100

unfoldable pub risk_bump :
    String → DetectorVerdict → List (String × ℕ) → List (String × ℕ) × ActionResult
unfolding risk_delta_of noop
risk_bump ip v signals =
    let delta = risk_delta_of v in
    if ltb 0 delta
    then ((ip, delta) ∷ signals, record { banned = false; ban_ttl_s = none; risk_delta = delta })
    else (signals, noop)

pub record RequestCtx : Type 0 where
  pub tier : Tier
  pub fail_mode : FailMode
  pub client_ip : String

pub data Detection : Type 0 where
  degraded : ℕ → ℕ → Detection
  currently_banned : String → Detection
  burst : String → String → Option ℕ → Detection

unfoldable pub on_degrade : DegradeAction → Option Detection
on_degrade allow = none
on_degrade allow_and_warn = none
on_degrade (block status retry_after_s) = some (degraded status retry_after_s)

module _ (D : Type 0) (store : CounterStore) where
  pub record DdosCheck : Type 0 where
    pub detectors : D
    pub action : BanAction store
    pub signals : List (String × ℕ)

module _ {D : Type 0} {store : CounterStore} where
  -- `CombinedAction::execute` of the ban and the risk bump.
  unfoldable pub combined :
      String → DetectorVerdict → ℤ → DdosCheck D store → DdosCheck D store × ActionResult
  unfolding execute risk_bump merge noop
  combined ip v now s =
      let (b, r) = execute ip v now s.action in
      let (signals, q) = risk_bump ip v s.signals in
      (record s { action = b; signals = signals }, merge (merge noop r) q)

  -- A verdict: the next detectors run unless it is a burst.
  unfoldable pub on_verdict :
      RequestCtx
      → ℤ
      → DetectorVerdict
      → (DdosCheck D store → DdosCheck D store × Option Detection)
      → DdosCheck D store
      → DdosCheck D store × Option Detection
  unfolding combined
  on_verdict ctx now Ban.allow next s = next s
  on_verdict ctx now (soft_anomaly score) next s = next s
  on_verdict ctx now (hard_burst reason detector) next s =
      let (s', r) = combined ctx.client_ip (hard_burst reason detector) now s in
      (s', some (burst detector reason r.ban_ttl_s))

  unfoldable pub run_detectors :
      List (RequestCtx → DdosTierCfg → ℤ → D → D × DetectorVerdict)
      → RequestCtx
      → DdosTierCfg
      → ℤ
      → DdosCheck D store
      → DdosCheck D store × Option Detection
  unfolding on_verdict
  run_detectors [] ctx cfg now s = (s, none)
  run_detectors (d ∷ ds) ctx cfg now s =
      let (x, v) = d ctx cfg now s.detectors in
      on_verdict ctx now v (λ s'. run_detectors ds ctx cfg now s') (record s { detectors = x })

  unfoldable pub check :
      List (RequestCtx → DdosTierCfg → ℤ → D → D × DetectorVerdict)
      → Option DdosTierCfg
      → OverloadGuard
      → RequestCtx
      → ℤ
      → DdosCheck D store
      → DdosCheck D store × Option Detection
  unfolding run_detectors on_degrade resolve contains
  check ds none guard ctx now s = (s, none)
  check ds (some cfg) guard ctx now s =
      if guard.overloaded
      then (s, on_degrade (resolve ctx.tier ctx.fail_mode))
      else if contains ctx.client_ip now s.action.ban_table
      then (s, some (currently_banned ctx.client_ip))
      else run_detectors ds ctx cfg now s
