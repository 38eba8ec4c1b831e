-- ===== src/RateLimit/Window.antt =====
-- The sliding window over the requests of one window of the grid.
use waf.Base.{
  ℕ, zero, suc, ◌+◌, ◌*◌, ◌^◌, ◌≤◌, ◌<◌, ◌≡◌, refl, ◌∙◌, sym, inl, inr, Bool, true, false, List, [],
  ◌∷◌, arith, Bool-cases,
}
use waf.Base.Int.{ℤ, pos, ◌-ℤ◌, eq_of_parts, pos_part, -ℤ_parts, quot}
use waf.Base.Float.{Float, FloatLaws}
use waf.RateLimit.{
  LimitCfg, SlidingWindowState, align_floor, windows_advanced, roll, admit, estimated, weight_prev,
  try_consume,
}

module _ {fl : Float} (laws : FloatLaws fl) where
  -- The estimate is at least the count of the window.
  estimated-ge :
      (win_ms : ℕ) (now : ℤ) (s : SlidingWindowState)
      → 0 < win_ms
      → fl.le (fl.of_ℕ s.curr_count) (estimated fl win_ms now s) ≡ true
  unfolding estimated weight_prev
  estimated-ge win_ms now s h =
      let unit =
        laws.clamp-unit _ (laws.div_nonneg (pos_part (now -ℤ s.curr_window_start_ms)) win_ms h) in
      let weight = laws.one_sub-unit _ unit.0 unit.1 in
      laws.le-mul_add s.prev_count s.curr_count _ weight.0 weight.1

  -- A request that is admitted fits within the limit, and is counted.
  pub admit-true :
      (cfg : LimitCfg fl) (now : ℤ) (s : SlidingWindowState)
      → 0 < cfg.window_secs
      → cfg.window_limit < 2 ^ 32
      → s.curr_count < 2 ^ 32
      → (admit cfg now s).1 ≡ true
      → ((admit cfg now s).0.curr_count ≡ suc s.curr_count) × (suc s.curr_count ≤ cfg.window_limit)
  unfolding admit
  admit-true cfg now s positive small count =
      let win_ms = cfg.window_secs * 1000 in
      let next = fl.add (estimated fl win_ms now s) (fl.of_ℕ 1) in
      let below =
        laws.add-one-le s.curr_count _ count
          (estimated-ge win_ms now s (omega (arith, positive))) in
      elim (Bool-cases (fl.lt (fl.of_ℕ cfg.window_limit) next)) [
        | inl over ↦ rw over (λ h. cc)
        | inr within ↦
            let fits =
              laws.le_trans _ next _ below
                (laws.le_of_not_lt cfg.window_limit (s.curr_count + 1) next below within) in
            let bound =
              laws.le-of_ℕ (s.curr_count + 1) cfg.window_limit (omega (arith, count))
                (omega (arith, small)) fits in
            rw within (λ _. (omega (arith, bound, small), omega (arith, bound)))
      ]

pub windows_advanced-same : (b : ℤ) (g : ℕ) → 0 < g → windows_advanced b b g ≡ 0
unfolding windows_advanced quot
windows_advanced-same b g h =
    let none : b -ℤ b ≡ pos 0 = eq_of_parts _ _ (omega (arith, -ℤ_parts b b)) in
    rw none (omega (arith, h))

-- Once rolled to a bucket, a window does not roll for it again.
pub windows_advanced-roll :
    (b : ℤ) (g n : ℕ) (s : SlidingWindowState)
    → 0 < g
    → windows_advanced b s.curr_window_start_ms g ≡ n
    → windows_advanced b (roll n b s).curr_window_start_ms g ≡ 0
unfolding roll
windows_advanced-roll b g zero s h e = e
windows_advanced-roll b g (suc zero) s h e = windows_advanced-same b g h
windows_advanced-roll b g (suc (suc n)) s h e = windows_advanced-same b g h

pub count-roll : (b : ℤ) (n : ℕ) (s : SlidingWindowState) → (roll n b s).curr_count ≤ s.curr_count
unfolding roll
count-roll b zero s = omega arith
count-roll b (suc zero) s = omega arith
count-roll b (suc (suc n)) s = omega arith

module _ {fl : Float} where
  pub try_consume-eq :
      (cfg : LimitCfg fl) (now b : ℤ) (s : SlidingWindowState)
      → align_floor now (cfg.window_secs * 1000) ≡ b
      → try_consume cfg now s
        ≡ admit cfg now
            (roll (windows_advanced b s.curr_window_start_ms (cfg.window_secs * 1000)) b s)
  unfolding try_consume
  try_consume-eq cfg now b s e = rw e refl

  pub admit-start :
      (cfg : LimitCfg fl) (now : ℤ) (s : SlidingWindowState)
      → (admit cfg now s).0.curr_window_start_ms ≡ s.curr_window_start_ms
  unfolding admit
  admit-start cfg now s = ground arith

  -- A request that is refused changes nothing.
  pub admit-false :
      (cfg : LimitCfg fl) (now : ℤ) (s : SlidingWindowState)
      → (admit cfg now s).1 ≡ false
      → (admit cfg now s).0 ≡ s
  unfolding admit
  admit-false cfg now s = ground arith

  -- Requests of one key at these times, and which of them are admitted.
  unfoldable pub consume_all :
      LimitCfg fl → List ℤ → SlidingWindowState → SlidingWindowState × List Bool
  consume_all cfg [] s = (s, [])
  consume_all cfg (t ∷ ts) s =
      let (s', a) = try_consume cfg t s in
      let (s'', rest) = consume_all cfg ts s' in (s'', a ∷ rest)

-- How many are admitted.
abbrev pub count_true : List Bool → ℕ
count_true [] = 0
count_true (true ∷ bs) = suc (count_true bs)
count_true (false ∷ bs) = count_true bs

-- The times of one window of the grid.
abbrev pub AllIn : ℤ → ℕ → List ℤ → Type 0
AllIn b g [] = Unit {0}
AllIn b g (t ∷ ts) = (align_floor t g ≡ b) × AllIn b g ts

module _ {fl : Float} (laws : FloatLaws fl) where
  admitted :
      (cfg : LimitCfg fl) (b : ℤ) (ts : List ℤ) (s : SlidingWindowState)
      → 0 < cfg.window_secs
      → cfg.window_limit < 2 ^ 32
      → s.curr_count ≤ cfg.window_limit
      → windows_advanced b s.curr_window_start_ms (cfg.window_secs * 1000) ≡ 0
      → AllIn b (cfg.window_secs * 1000) ts
      → count_true (consume_all cfg ts s).1 + s.curr_count ≤ cfg.window_limit
  unfolding consume_all roll
  admitted cfg b [] s positive small bound current same = omega (arith, bound)
  admitted cfg b (t ∷ ts) s positive small bound current same =
      let e : try_consume cfg t s ≡ admit cfg t s =
        try_consume-eq cfg t b s same.0 ∙ rw current refl in
      elim (Bool-cases (admit cfg t s).1) [
        | inl fits ↦
            let counted =
              admit-true laws cfg t s positive small (omega (arith, bound, small)) fits in
            let rest =
              admitted cfg b ts (admit cfg t s).0 positive small
                (omega (arith, counted.0, counted.1)) (rw (admit-start cfg t s) current) same.1 in
            rw (e, fits) (omega (arith, rest, counted.0))
        | inr refused ↦
            let rest = admitted cfg b ts s positive small bound current same.1 in
            rw (e, refused, admit-false cfg t s refused) rest
      ]

  -- Of any number of requests within one window of the grid, at most `window_limit` are admitted.
  pub consume_all-le :
      (cfg : LimitCfg fl) (b : ℤ) (ts : List ℤ) (s : SlidingWindowState)
      → 0 < cfg.window_secs
      → cfg.window_limit < 2 ^ 32
      → s.curr_count ≤ cfg.window_limit
      → AllIn b (cfg.window_secs * 1000) ts
      → count_true (consume_all cfg ts s).1 ≤ cfg.window_limit
  unfolding consume_all roll
  consume_all-le cfg b [] s positive small bound same = omega arith
  consume_all-le cfg b (t ∷ ts) s positive small bound same =
      let g = cfg.window_secs * 1000 in
      let n = windows_advanced b s.curr_window_start_ms g in
      let s' = roll n b s in
      let current = windows_advanced-roll b g n s (omega (arith, positive)) refl in
      let e : try_consume cfg t s ≡ try_consume cfg t s' =
        try_consume-eq cfg t b s same.0
        ∙ sym (try_consume-eq cfg t b s' same.0 ∙ rw current refl) in
      let all =
        admitted cfg b (t ∷ ts) s' positive small (omega (arith, bound, count-roll b n s)) current
          same in
      rw e (omega (arith, all))
