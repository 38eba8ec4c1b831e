-- ===== src/RateLimit/Store/Allows.antt =====
-- The in-memory store over calls of many keys.
use waf.Base.{
  ℕ, ◌+◌, ◌≤◌, ◌<◌, ◌^◌, ◌*◌, ◌≡◌, refl, ap, ◌∙◌, inl, inr, Bool, true, false, ltb, length, String,
  Option, none, some, List, [], ◌∷◌, arith, if◌then◌else◌, Bool-cases,
}
use waf.Base.Keys.{string_eq, ◌==◌}
use waf.Base.Int.{ℤ, ltb_ℤ, saturating_sub}
use waf.Base.Float.{Float, FloatLaws}
use waf.Base.Map
use waf.Base.Map.{Map}
use waf.RateLimit.{
  Decision, allow, burst_exceeded, sustained_exceeded, LimitCfg, SlidingWindowState, align_floor,
  windows_advanced, roll, new_window, take_token, admit,
}
use waf.RateLimit.Window.{
  admit-true, admit-false, admit-start, try_consume-eq, windows_advanced-roll,
  windows_advanced-same,
}
use waf.RateLimit.Store.{
  Entry, entry_for, consume, check_and_consume, cleanup, max_entries, entry_ttl_ms,
}

-- The count of a window, as a call within the bucket `b` finds it.
abbrev pub count_at : ℤ → ℕ → SlidingWindowState → ℕ
count_at b g s = (roll (windows_advanced b s.curr_window_start_ms g) b s).curr_count

abbrev pub is_allow : Decision → ℕ
is_allow allow = 1
is_allow burst_exceeded = 0
is_allow sustained_exceeded = 0

module _ {fl : Float} (laws : FloatLaws fl) where
  abbrev pub entry_count_at : ℤ → ℕ → Option (Entry fl) → ℕ
  entry_count_at b g none = 0
  entry_count_at b g (some e) = count_at b g e.sw

  -- A window that has been rolled to the bucket is found as it is, also after `admit`.
  count_at-admit :
      (cfg : LimitCfg fl) (b now : ℤ) (g : ℕ) (s : SlidingWindowState)
      → windows_advanced b s.curr_window_start_ms g ≡ 0
      → count_at b g (admit cfg now s).0 ≡ (admit cfg now s).0.curr_count
  unfolding roll
  count_at-admit cfg b now g s current =
      let still : windows_advanced b (admit cfg now s).0.curr_window_start_ms g ≡ 0 =
        rw (admit-start cfg now s) current in
      rw (count_at, still) refl

  -- What a call does to the count of its bucket.
  consume-count :
      (cfg : LimitCfg fl) (b now : ℤ) (e : Entry fl)
      → 0 < cfg.window_secs
      → cfg.window_limit < 2 ^ 32
      → align_floor now (cfg.window_secs * 1000) ≡ b
      → count_at b (cfg.window_secs * 1000) e.sw ≤ cfg.window_limit
      → let (e', d) = consume cfg now e in
        (count_at b (cfg.window_secs * 1000) e'.sw
          ≡ is_allow d + count_at b (cfg.window_secs * 1000) e.sw)
        × (count_at b (cfg.window_secs * 1000) e'.sw ≤ cfg.window_limit)
  unfolding consume
  consume-count cfg b now e positive small same bound =
      let g = cfg.window_secs * 1000 in
      let s' = roll (windows_advanced b e.sw.curr_window_start_ms g) b e.sw in
      let current =
        windows_advanced-roll b g (windows_advanced b e.sw.curr_window_start_ms g) e.sw
          (omega (arith, positive)) refl in
      let eq = try_consume-eq cfg now b e.sw same in
      let after = count_at-admit cfg b now g s' current in
      elim (Bool-cases (take_token cfg now e.tb).1) [
        | inr empty ↦ rw empty (omega arith, bound)
        | inl taken ↦ elim (Bool-cases (admit cfg now s').1) [
          | inl fits ↦
              let counted =
                admit-true laws cfg now s' positive small (omega (arith, bound, small)) fits in
              rw (taken, eq, fits)
                (omega (arith, after, counted.0), omega (arith, after, counted.0, counted.1))
          | inr refused ↦
              let kept = ap SlidingWindowState.curr_count (admit-false cfg now s' refused) in
              rw (taken, eq, refused)
                (omega (arith, after, kept), omega (arith, after, kept, bound))
        ]
      ]

  -- The entry that a call makes of none has counted nothing.
  count-entry_for :
      (cfg : LimitCfg fl) (b now : ℤ) (o : Option (Entry fl))
      → 0 < cfg.window_secs
      → align_floor now (cfg.window_secs * 1000) ≡ b
      → count_at b (cfg.window_secs * 1000) (entry_for cfg now o).sw
        ≡ entry_count_at b (cfg.window_secs * 1000) o
  unfolding entry_for new_window roll
  count-entry_for cfg b now none positive same =
      rw
        (same, count_at, windows_advanced-same b (cfg.window_secs * 1000) (omega (arith, positive)))
        refl
  count-entry_for cfg b now (some e) positive same = refl

-- What happens to a store: a call of a key, and a run of the background task that cleans up.
pub data Op : Type 0 where
  consumed : String → ℤ → Op
  cleaned : ℤ → Op

module _ {fl : Float} (laws : FloatLaws fl) where
  abbrev pub step : LimitCfg fl → Op → Map String (Entry fl) → Map String (Entry fl)
  step cfg (consumed key now) m = (check_and_consume key cfg now m).0
  step cfg (cleaned now) m = (cleanup now m).0

  -- Calls of any keys under one configuration and cleanups, and the decisions of the calls.
  unfoldable pub check_all :
      LimitCfg fl → List Op → Map String (Entry fl) → List (String × Decision)
  check_all cfg [] m = []
  check_all cfg (consumed key now ∷ ops) m =
      let (m', d) = check_and_consume key cfg now m in (key, d) ∷ check_all cfg ops m'
  check_all cfg (cleaned now ∷ ops) m = check_all cfg ops (cleanup now m).0

  -- No cleanup drops the entry of the key.
  abbrev pub IsSpared : String → LimitCfg fl → List Op → Map String (Entry fl) → Type 0
  IsSpared key cfg [] m = Unit {0}
  IsSpared key cfg (consumed j now ∷ ops) m = IsSpared key cfg ops (step cfg (consumed j now) m)
  IsSpared key cfg (cleaned now ∷ ops) m =
      (Map.get key (cleanup now m).0 ≡ Map.get key m)
      × IsSpared key cfg ops (step cfg (cleaned now) m)

  -- A cleanup of no more than `max_entries` entries drops none that was used within `entry_ttl_ms`.
  cleanup-keeps :
      (key : String) (now : ℤ) (m : Map String (Entry fl)) (e : Entry fl)
      → Map.distinct_keys m ≡ true
      → length m ≤ max_entries
      → Map.get key m ≡ some e
      → ltb_ℤ (saturating_sub now e.last_touch_ms) entry_ttl_ms ≡ true
      → Map.get key (cleanup now m).0 ≡ Map.get key m
  unfolding cleanup
  cleanup-keeps key now m e distinct few held fresh =
      let test : String → Entry fl → Bool =
        λ _ d. ltb_ℤ (saturating_sub now d.last_touch_ms) entry_ttl_ms in
      let shorter = Map.length-retain-le test m in
      let fits : ltb max_entries (length (Map.retain test m)) ≡ false =
        ground (arith, few, shorter) in
      rw fits (Map.get-retain test key m distinct ∙ rw held (rw fresh refl))

-- How many calls of the key are allowed.
abbrev pub allowed : String → List (String × Decision) → ℕ
allowed key [] = 0
allowed key (c ∷ cs) = (if c.0 == key then is_allow c.1 else 0) + allowed key cs

-- The calls of the key lie within one window of the grid.
abbrev pub CallsIn : String → ℤ → ℕ → List Op → Type 0
CallsIn key b g [] = Unit {0}
CallsIn key b g (consumed j now ∷ ops) =
    ((j == key) ≡ true → align_floor now g ≡ b) × CallsIn key b g ops
CallsIn key b g (cleaned now ∷ ops) = CallsIn key b g ops

module _ {fl : Float} (laws : FloatLaws fl) where
  -- A call counts for its own key alone.
  check-count :
      (cfg : LimitCfg fl) (key j : String) (b now : ℤ) (m : Map String (Entry fl))
      → 0 < cfg.window_secs
      → cfg.window_limit < 2 ^ 32
      → ((j == key) ≡ true → align_floor now (cfg.window_secs * 1000) ≡ b)
      → entry_count_at laws b (cfg.window_secs * 1000) (Map.get key m) ≤ cfg.window_limit
      → let (m', d) = check_and_consume j cfg now m in
        (entry_count_at laws b (cfg.window_secs * 1000) (Map.get key m')
          ≡ (if j == key then is_allow d else 0)
            + entry_count_at laws b (cfg.window_secs * 1000) (Map.get key m))
        × (entry_count_at laws b (cfg.window_secs * 1000) (Map.get key m') ≤ cfg.window_limit)
  unfolding check_and_consume
  check-count cfg key j b now m positive small same bound =
      let found = Map.get-insert j key (consume cfg now (entry_for cfg now (Map.get j m))).0 m in
      elim (Bool-cases (j == key)) [
        | inr other ↦
            let kept : Map.get key (check_and_consume j cfg now m).0 ≡ Map.get key m =
              found ∙ rw other refl in
            rw (kept, other) (omega arith, bound)
        | inl own ↦
            let e : j ≡ key = (string_eq.beq_iff j key).0 own in
            let put : Map.get key (check_and_consume j cfg now m).0
                ≡ some (consume cfg now (entry_for cfg now (Map.get j m))).0 =
              found ∙ rw own refl in
            let before = count-entry_for laws cfg b now (Map.get j m) positive (same own) in
            let here : entry_count_at laws b (cfg.window_secs * 1000) (Map.get j m)
                ≤ cfg.window_limit =
              rw e bound in
            let counted =
              consume-count laws cfg b now (entry_for cfg now (Map.get j m)) positive small
                (same own) (rw before here) in
            let old : entry_count_at laws b (cfg.window_secs * 1000) (Map.get j m)
                ≡ entry_count_at laws b (cfg.window_secs * 1000) (Map.get key m) =
              rw e refl in
            rw (put, own) (omega (arith, counted.0, before, old), counted.1)
      ]

  allowed_at :
      (cfg : LimitCfg fl) (key : String) (b : ℤ) (ops : List Op) (m : Map String (Entry fl))
      → 0 < cfg.window_secs
      → cfg.window_limit < 2 ^ 32
      → CallsIn key b (cfg.window_secs * 1000) ops
      → IsSpared laws key cfg ops m
      → entry_count_at laws b (cfg.window_secs * 1000) (Map.get key m) ≤ cfg.window_limit
      → allowed key (check_all laws cfg ops m)
          + entry_count_at laws b (cfg.window_secs * 1000) (Map.get key m)
        ≤ cfg.window_limit
  unfolding check_all
  allowed_at cfg key b [] m positive small same spared bound = omega (arith, bound)
  allowed_at cfg key b (consumed j now ∷ ops) m positive small same spared bound =
      let counted = check-count cfg key j b now m positive small same.0 bound in
      let rest =
        allowed_at cfg key b ops (check_and_consume j cfg now m).0 positive small same.1 spared
          counted.1 in
      omega (arith, counted.0, rest)
  allowed_at cfg key b (cleaned now ∷ ops) m positive small same spared bound =
      let kept = ap (entry_count_at laws b (cfg.window_secs * 1000)) spared.0 in
      let rest =
        allowed_at cfg key b ops (cleanup now m).0 positive small same spared.1
          (omega (arith, kept, bound)) in
      omega (arith, kept, rest)

  -- Of the calls of a key that the in-memory store has no entry of, within one window of the grid
  -- and between calls of other keys and cleanups, at most `window_limit` are allowed, while no
  -- cleanup drops the entry of the key, for windows of at least a second, limits below 2 ^ 32 and
  -- any `f64` with the stated laws.
  pub allowed-le :
      (cfg : LimitCfg fl) (key : String) (b : ℤ) (ops : List Op) (m : Map String (Entry fl))
      → 0 < cfg.window_secs
      → cfg.window_limit < 2 ^ 32
      → CallsIn key b (cfg.window_secs * 1000) ops
      → IsSpared laws key cfg ops m
      → Map.get key m ≡ none
      → allowed key (check_all laws cfg ops m) ≤ cfg.window_limit
  allowed-le cfg key b ops m positive small same spared fresh =
      omega (arith, allowed_at cfg key b ops m positive small same spared (rw fresh (omega arith)))
