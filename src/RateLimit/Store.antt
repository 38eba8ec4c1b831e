-- ===== src/RateLimit/Store.antt =====
-- crates/waf-engine/src/checks/rate_limit/store: the store's interface, the in-memory store, which
-- locks the entry of a key for the whole of a call, and the breaker before a Redis store.
pub mod Allows
use waf.Base.{
  ℕ, suc, ◌+◌, ◌-◌, ◌≤◌, ◌<◌, ◌^◌, ◌*◌, ◌≡◌, refl, ap, ◌∙◌, sym, inl, inr, Bool, true, false, not,
  String, Option, none, some, List, [], ◌∷◌, map, ltb, length, take, arith, if◌then◌else◌,
  Bool-cases, Option-cases,
}
use waf.Base.Keys.{string_eq, ◌==◌, eq_refl}
use waf.Base.Int.{ℤ, pos, ltb_ℤ, leb_ℤ, saturating_sub}
use waf.Base.Float.{Float}
use waf.Base.Map
use waf.Base.Map.{Map}
use waf.RateLimit.{
  Decision, allow, burst_exceeded, sustained_exceeded, LimitCfg, TokenBucketState,
  SlidingWindowState, new_window, new_full, take_token, try_consume,
}

-- `entries.sort_by_key(|(_, t)| t)`: stable, by insertion.
unfoldable pub insert_by : String × ℤ → List (String × ℤ) → List (String × ℤ)
insert_by x [] = x ∷ []
insert_by x (y ∷ ys) = let rest = insert_by x ys in if leb_ℤ x.1 y.1 then x ∷ y ∷ ys else y ∷ rest

unfoldable pub sort_by_touch : List (String × ℤ) → List (String × ℤ)
unfolding insert_by
sort_by_touch [] = []
sort_by_touch (x ∷ xs) = insert_by x (sort_by_touch xs)

abbrev pub max_entries : ℕ
max_entries = 100000

abbrev pub entry_ttl_ms : ℤ
entry_ttl_ms = pos 600000

module _ (fl : Float) where
  pub record Entry : Type 0 where
    pub tb : TokenBucketState fl
    pub sw : SlidingWindowState
    pub last_touch_ms : ℤ

  -- `trait RateLimitStore`; a failed call returns none.
  pub record RateLimitStore : Type 1 where
    pub State : Type 0
    pub check_and_consume : String → LimitCfg fl → ℤ → State → State × Option Decision

module _ {fl : Float} where
  -- `entry(key).or_insert_with(..)`, touched.
  unfoldable pub entry_for : LimitCfg fl → ℤ → Option (Entry fl) → Entry fl
  entry_for cfg now none = record {
    tb = new_full cfg now;
    sw = new_window now cfg.window_secs;
    last_touch_ms = now;
  }
  entry_for cfg now (some e) = record e { last_touch_ms = now }

  -- The two limits of an entry: a token is taken before the window is asked.
  unfoldable pub consume : LimitCfg fl → ℤ → Entry fl → Entry fl × Decision
  consume cfg now e =
      let (tb, taken) = take_token cfg now e.tb in
      let (sw, admitted) = try_consume cfg now e.sw in
      if not taken
      then (record e { tb = tb }, burst_exceeded)
      else if not admitted
      then (record e { tb = tb; sw = sw }, sustained_exceeded)
      else (record e { tb = tb; sw = sw }, allow)

  unfoldable pub check_and_consume :
      String → LimitCfg fl → ℤ → Map String (Entry fl) → Map String (Entry fl) × Decision
  unfolding consume entry_for
  check_and_consume key cfg now m =
      let (e, d) = consume cfg now (entry_for cfg now (Map.get key m)) in (Map.insert key e m, d)

  unfoldable pub remove_all : List (String × ℤ) → Map String (Entry fl) → Map String (Entry fl)
  remove_all [] m = m
  remove_all (x ∷ xs) m = remove_all xs (Map.remove x.0 m)

  unfoldable pub cleanup : ℤ → Map String (Entry fl) → Map String (Entry fl) × ℕ
  unfolding sort_by_touch remove_all
  cleanup now m =
      let live = Map.retain (λ _ e. ltb_ℤ (saturating_sub now e.last_touch_ms) entry_ttl_ms) m in
      let oldest = sort_by_touch (map (λ e. (e.0, e.1.last_touch_ms)) live) in
      let kept =
        if ltb max_entries (length live)
        then remove_all (take (length live - max_entries) oldest) live
        else live in
      (kept, length m - length kept)

  abbrev pub memory_store : RateLimitStore fl
  memory_store = record {
    State = Map String (Entry fl);
    check_and_consume = λ key cfg now m.
        ((check_and_consume key cfg now m).0, some (check_and_consume key cfg now m).1);
  }

  -- `BreakerStore`: what follows the answer of the Redis store, and the whole call. `is_open` is
  -- `RedisStore::breaker_open`.
  unfoldable pub fall_through :
      {S : Type 0}
      → String
      → LimitCfg fl
      → ℤ
      → S × Option Decision
      → Map String (Entry fl)
      → (S × Map String (Entry fl)) × Option Decision
  unfolding check_and_consume
  fall_through key cfg now (r, some d) m = ((r, m), some d)
  fall_through key cfg now (r, none) m =
      ((r, (check_and_consume key cfg now m).0), some (check_and_consume key cfg now m).1)

  module _ (redis : RateLimitStore fl) (is_open : redis.State → Bool) where
    unfoldable pub check_or_fall_back :
        String
        → LimitCfg fl
        → ℤ
        → redis.State × Map String (Entry fl)
        → (redis.State × Map String (Entry fl)) × Option Decision
    unfolding fall_through check_and_consume
    check_or_fall_back key cfg now (r, m) =
        if is_open r
        then ((r, (check_and_consume key cfg now m).0), some (check_and_consume key cfg now m).1)
        else fall_through key cfg now (redis.check_and_consume key cfg now r) m

    abbrev pub breaker_store : RateLimitStore fl
    breaker_store = record {
      State = redis.State × Map String (Entry fl);
      check_and_consume = check_or_fall_back;
    }
