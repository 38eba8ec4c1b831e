-- ===== src/RateLimit/Bucket.antt =====
-- The tokens of a bucket against its capacity.
use waf.Base.{◌≡◌, refl, inl, inr, true, Bool-cases}
use waf.Base.Int.{ℤ}
use waf.Base.Float.{Float, FloatLaws}
use waf.RateLimit.{LimitCfg, TokenBucketState, refill, take_token}

module _ {fl : Float} (laws : FloatLaws fl) where
  -- Whatever the clock and the tokens before, a bucket holds at most its capacity after a call, and
  -- a call that takes a token had a whole one.
  pub take_token-le :
      (cfg : LimitCfg fl) (now : ℤ) (s : TokenBucketState fl)
      → (fl.le (take_token cfg now s).0.tokens (fl.of_ℕ cfg.burst_capacity) ≡ true)
        × ((take_token cfg now s).1 ≡ fl.le (fl.of_ℕ 1) (refill cfg now s))
  unfolding take_token refill
  take_token-le cfg now s =
      let full = laws.min-le (fl.add s.tokens _) cfg.burst_capacity in
      elim (Bool-cases (fl.le (fl.of_ℕ 1) (refill cfg now s))) [
        | inl whole ↦ rw whole (laws.sub-le _ _ full, refl)
        | inr empty ↦ rw empty (full, refl)
      ]
