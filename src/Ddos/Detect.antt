-- ===== src/Ddos/Detect.antt =====
-- crates/waf-engine/src/checks/ddos/detector: the detectors over any stores. A failed call of a
-- store is none, and passes.
pub mod Runs
use waf.Base.{
  ℕ, ◌+◌, ◌*◌, max, Bool, true, false, String, Option, none, some, List, [], ◌∷◌, ltb,
  if◌then◌else◌,
}
use Prim.Native.String.{◌++◌}
use waf.Base.Keys.{string_eq, ◌==◌}
use waf.Base.Int.{ℤ, pos}
use waf.Base.Words.{saturating_mul_u64}
use waf.Base.Float.{Float}
use waf.Tier.{Tier, critical, high, medium, catch_all}
use waf.RateLimit.{Decision, allow, burst_exceeded, sustained_exceeded, LimitCfg}
use waf.RateLimit.Store.{RateLimitStore}
use waf.Ddos.Ban.{CounterStore, DetectorVerdict, hard_burst}
use waf.Ddos.Ban
use waf.Ddos.Median.{MovingMedian, record_at, median}

pub record DdosTierCfg : Type 0 where
  pub per_fp_threshold : ℕ
  pub per_fp_window_s : ℕ
  pub per_tier_window_s : ℕ

unfoldable pub tier_str : Tier → String
tier_str critical = "critical"
tier_str high = "high"
tier_str medium = "medium"
tier_str catch_all = "catch_all"

-- The verdict on a count.
unfoldable pub over : String → String → ℕ → Option ℕ → DetectorVerdict
over reason detector threshold none = Ban.allow
over reason detector threshold (some n) =
    if ltb threshold n then hard_burst reason detector else Ban.allow

module _ (store : CounterStore) where
  -- `PerFpDetector::evaluate_with_fp`; the empty fingerprint is none.
  unfoldable pub evaluate_with_fp :
      Option String → Tier → DdosTierCfg → ℤ → store.State → store.State × DetectorVerdict
  unfolding over tier_str
  evaluate_with_fp none tier cfg now s = (s, Ban.allow)
  evaluate_with_fp (some fp) tier cfg now s =
      let (s', n) =
        store.incr_get ("ddos:fp:" ++ tier_str tier ++ ":" ++ fp) (pos (cfg.per_fp_window_s * 1000))
          now s in
      if fp == "" then (s, Ban.allow) else (s', over "fp_burst" "per_fp" cfg.per_fp_threshold n)

  pub record PerTierDetector : Type 0 where
    pub store_state : store.State
    pub baseline : MovingMedian
    pub absolute_cap_floor : ℕ

  unfoldable pub compute_threshold : ℕ → MovingMedian → ℕ
  unfolding median
  compute_threshold floor m = max floor (saturating_mul_u64 (median m) 3)

  -- What follows the answer of the store.
  unfoldable pub after_count : ℤ → PerTierDetector → Option ℕ → PerTierDetector × DetectorVerdict
  unfolding compute_threshold over record_at
  after_count now d none = (d, Ban.allow)
  after_count now d (some n) =
      let m = (record_at now d.baseline).0 in
      (
        record d { baseline = m },
        over "tier_burst" "per_tier" (compute_threshold d.absolute_cap_floor m) (some n),
      )

  -- `PerTierDetector::evaluate_at`.
  unfoldable pub evaluate_at :
      Tier → DdosTierCfg → ℤ → PerTierDetector → PerTierDetector × DetectorVerdict
  unfolding after_count tier_str
  evaluate_at tier cfg now d =
      let (s', n) =
        store.incr_get ("ddos:tier:" ++ tier_str tier) (pos (cfg.per_tier_window_s * 1000)) now
          d.store_state in
      after_count now (record d { store_state = s' }) n

module _ (fl : Float) where
  unfoldable pub to_limit_cfg : DdosTierCfg → LimitCfg fl
  to_limit_cfg cfg = record {
    burst_capacity = cfg.per_fp_threshold;
    burst_refill_per_s = fl.div (fl.of_ℕ cfg.per_fp_threshold) (fl.of_ℕ cfg.per_fp_window_s);
    window_secs = cfg.per_fp_window_s;
    window_limit = cfg.per_fp_threshold;
  }

unfoldable pub of_decision : Option Decision → DetectorVerdict
of_decision none = Ban.allow
of_decision (some allow) = Ban.allow
of_decision (some burst_exceeded) = hard_burst "burst" "per_ip"
of_decision (some sustained_exceeded) = hard_burst "sustained" "per_ip"

module _ {fl : Float} (store : RateLimitStore fl) where
  -- `PerIpDetector::evaluate`.
  unfoldable pub evaluate :
      String → Tier → DdosTierCfg → ℤ → store.State → store.State × DetectorVerdict
  unfolding of_decision to_limit_cfg tier_str
  evaluate ip tier cfg now s =
      let (s', d) =
        store.check_and_consume ("ddos:ip:" ++ tier_str tier ++ ":" ++ ip) (to_limit_cfg fl cfg) now
          s in
      (s', of_decision d)
