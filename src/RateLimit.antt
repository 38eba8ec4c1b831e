-- ===== src/RateLimit.antt =====
-- crates/waf-engine/src/checks/rate_limit/algo and store/mod.rs: the token bucket and the sliding
-- window of a key. Times are epoch milliseconds, whose differences are in the range of an `i64`.
-- A window of no seconds, on which the code would divide by zero, is refused with the
-- configuration (config.rs).
pub mod Window
pub mod Bucket
pub mod Store
pub mod Check
use waf.Base.{ℕ, zero, suc, ◌+◌, ◌*◌, Bool, true, false, not, if◌then◌else◌}
use waf.Base.Int.{ℤ, pos, negsuc, ◌-ℤ◌, ◌*ℤ◌, div_euclid, quot, pos_part}
use waf.Base.Words.{saturating_add_u32}
use waf.Base.Float.{Float}

pub data Decision : Type 0 where
  allow burst_exceeded sustained_exceeded : Decision

-- `align_floor`: down to a multiple of `grid`.
unfoldable pub align_floor : ℤ → ℕ → ℤ
align_floor t grid = div_euclid t grid *ℤ grid

-- `(bucket_now - curr_window_start_ms) / win_ms).max(0)`.
unfoldable pub windows_advanced : ℤ → ℤ → ℕ → ℕ
windows_advanced bucket_now start win_ms = pos_part (quot (bucket_now -ℤ start) win_ms)

module _ (fl : Float) where
  pub record LimitCfg : Type 0 where
    pub burst_capacity : ℕ
    pub burst_refill_per_s : fl.F
    pub window_secs : ℕ
    pub window_limit : ℕ

  pub record TokenBucketState : Type 0 where
    pub tokens : fl.F
    pub last_check_ms : ℤ

pub record SlidingWindowState : Type 0 where
  pub curr_count : ℕ
  pub prev_count : ℕ
  pub curr_window_start_ms : ℤ

unfoldable pub new_window : ℤ → ℕ → SlidingWindowState
new_window now window_secs = record {
  curr_count = 0;
  prev_count = 0;
  curr_window_start_ms = align_floor now (window_secs * 1000);
}

-- The window after the boundaries that have passed since it began.
unfoldable pub roll : ℕ → ℤ → SlidingWindowState → SlidingWindowState
roll zero bucket_now s = s
roll (suc zero) bucket_now s = record {
  curr_count = 0;
  prev_count = s.curr_count;
  curr_window_start_ms = bucket_now;
}
roll (suc (suc _)) bucket_now s = record {
  curr_count = 0;
  prev_count = 0;
  curr_window_start_ms = bucket_now;
}

module _ (fl : Float) where
  -- The weight of the previous window, and the estimated load.
  unfoldable pub weight_prev : ℕ → ℤ → SlidingWindowState → fl.F
  weight_prev win_ms now s =
      let elapsed = pos_part (now -ℤ s.curr_window_start_ms) in
      fl.sub (fl.of_ℕ 1)
        (fl.clamp (fl.div (fl.of_ℕ elapsed) (fl.of_ℕ win_ms)) (fl.of_ℕ 0) (fl.of_ℕ 1))

  unfoldable pub estimated : ℕ → ℤ → SlidingWindowState → fl.F
  unfolding weight_prev
  estimated win_ms now s =
      fl.mul_add (fl.of_ℕ s.prev_count) (weight_prev win_ms now s) (fl.of_ℕ s.curr_count)

module _ {fl : Float} where
  unfoldable pub new_full : LimitCfg fl → ℤ → TokenBucketState fl
  new_full cfg now = record { tokens = fl.of_ℕ cfg.burst_capacity; last_check_ms = now }

  -- The tokens after the refill.
  unfoldable pub refill : LimitCfg fl → ℤ → TokenBucketState fl → fl.F
  refill cfg now s =
      let seconds = fl.div (fl.of_ℕ (pos_part (now -ℤ s.last_check_ms))) (fl.of_ℕ 1000) in
      fl.min (fl.add s.tokens (fl.mul seconds cfg.burst_refill_per_s)) (fl.of_ℕ cfg.burst_capacity)

  unfoldable pub take_token : LimitCfg fl → ℤ → TokenBucketState fl → TokenBucketState fl × Bool
  unfolding refill
  take_token cfg now s =
      let tokens = refill cfg now s in
      if fl.le (fl.of_ℕ 1) tokens
      then (record { tokens = fl.sub tokens (fl.of_ℕ 1); last_check_ms = now }, true)
      else (record { tokens = tokens; last_check_ms = now }, false)

  -- The part of `try_consume` that follows the roll.
  unfoldable pub admit : LimitCfg fl → ℤ → SlidingWindowState → SlidingWindowState × Bool
  unfolding estimated
  admit cfg now s =
      if fl.lt (fl.of_ℕ cfg.window_limit)
        (fl.add (estimated fl (cfg.window_secs * 1000) now s) (fl.of_ℕ 1))
      then (s, false)
      else (record s { curr_count = saturating_add_u32 s.curr_count 1 }, true)

  unfoldable pub try_consume : LimitCfg fl → ℤ → SlidingWindowState → SlidingWindowState × Bool
  unfolding admit roll align_floor windows_advanced
  try_consume cfg now s =
      let win_ms = cfg.window_secs * 1000 in
      let bucket_now = align_floor now win_ms in
      admit cfg now (roll (windows_advanced bucket_now s.curr_window_start_ms win_ms) bucket_now s)
