-- ===== src/Ddos/Ban.antt =====
-- crates/waf-engine/src/checks/ddos/action: the ban table, the schedule of escalation, the ban
-- action and the merging of results. An address is its text, as `Display` prints it. The offense
-- store is any `CounterStore` (store/mod.rs); a failed call returns none.
pub mod Table
pub mod Offenses
use waf.Base.{
  ℕ, ◌+◌, ◌-◌, ◌*◌, ◌≡◌, Bool, true, false, not, ◌||◌, String, Option, none, some, List, [], ◌∷◌,
  length, min, max, get_elem?, if◌then◌else◌,
}
use Prim.Native.String.{◌++◌}
use waf.Base.Keys.{string_eq}
use waf.Base.Int.{ℤ, pos, ◌*ℤ◌, ltb_ℤ, leb_ℤ, max_ℤ, saturating_add, saturating_sub}
use waf.Base.Map
use waf.Base.Map.{Map}
use waf.Ddos.Counter.{MemoryCounterStore, incr_get}

-- `trait CounterStore`: the state of a store, and the call that counts.
pub record CounterStore : Type 1 where
  pub State : Type 0
  pub incr_get : String → ℤ → ℤ → State → State × Option ℕ

abbrev pub memory_store : CounterStore
memory_store = record {
  State = MemoryCounterStore;
  incr_get = λ key ttl now s. ((incr_get key ttl now s).0, some (incr_get key ttl now s).1);
}

-- `DetectorVerdict`; the names of a burst are text.
pub data DetectorVerdict : Type 0 where
  allow : DetectorVerdict
  soft_anomaly : ℕ → DetectorVerdict
  hard_burst : String → String → DetectorVerdict

pub record ActionResult : Type 0 where
  pub banned : Bool
  pub ban_ttl_s : Option ℕ
  pub risk_delta : ℕ

unfoldable pub noop : ActionResult
noop = record { banned = false; ban_ttl_s = none; risk_delta = 0 }

unfoldable pub max_ttl : Option ℕ → Option ℕ → Option ℕ
max_ttl (some a) (some b) = some (max a b)
max_ttl (some a) none = some a
max_ttl none b = b

-- `saturating_add` of two `u8`, and then the cap.
unfoldable pub merge : ActionResult → ActionResult → ActionResult
unfolding max_ttl
merge a b = record {
  banned = a.banned || b.banned;
  ban_ttl_s = max_ttl a.ban_ttl_s b.ban_ttl_s;
  risk_delta = min (min (a.risk_delta + b.risk_delta) 255) 100;
}

-- `DynamicBanTable`: address to the time at which its ban ends.
abbrev pub DynamicBanTable : Type 0
DynamicBanTable = Map String ℤ

unfoldable pub longest : ℤ → Option ℤ → ℤ
longest expires none = expires
longest expires (some e) = max_ℤ e expires

unfoldable pub insert : String → ℤ → DynamicBanTable → DynamicBanTable
unfolding longest
insert ip expires t = Map.insert ip (longest expires (Map.get ip t)) t

unfoldable pub lives : ℤ → Option ℤ → Bool
lives now none = false
lives now (some e) = ltb_ℤ now e

unfoldable pub contains : String → ℤ → DynamicBanTable → Bool
unfolding lives
contains ip now t = lives now (Map.get ip t)

unfoldable pub purge_expired : ℤ → DynamicBanTable → DynamicBanTable × ℕ
purge_expired now t = let kept = Map.retain (λ _ e. ltb_ℤ now e) t in (kept, length t - length kept)

pub record BanStep : Type 0 where
  pub ttl_s : ℕ
  pub risk_delta : ℕ

abbrev pub BanSchedule : Type 0
BanSchedule = List BanStep

abbrev pub default_schedule : BanSchedule
default_schedule =
    record { ttl_s = 60; risk_delta = 30 }
    ∷ record { ttl_s = 300; risk_delta = 50 }
    ∷ record { ttl_s = 3600; risk_delta = 100 }
    ∷ []

-- `steps.get(idx).or_else(|| steps.first()).unwrap_or(..)`.
unfoldable pub or_first : Option BanStep → BanSchedule → BanStep
or_first (some step) _ = step
or_first none [] = record { ttl_s = 3600; risk_delta = 100 }
or_first none (step ∷ _) = step

unfoldable pub step_for : BanSchedule → ℕ → BanStep
unfolding or_first
step_for steps offense_n = or_first (get_elem? steps (min (offense_n - 1) (length steps - 1))) steps

pub record BanAction (store : CounterStore) : Type 0 where
  pub ban_table : DynamicBanTable
  pub offense_store : store.State
  pub schedule : BanSchedule
  pub offense_window_ms : ℤ
  pub debounce_ms : ℤ
  pub debounce_locks : Map String ℤ

unfoldable pub offense_key : String → String
offense_key ip = "ddos:offense:" ++ ip

unfoldable pub may_proceed : ℤ → ℤ → Option ℤ → Bool
may_proceed debounce now none = true
may_proceed debounce now (some last) = leb_ℤ debounce (saturating_sub now last)

module _ {store : CounterStore} where
  unfoldable pub new : DynamicBanTable → store.State → BanSchedule → BanAction store
  new table offenses steps = record {
    ban_table = table;
    offense_store = offenses;
    schedule = steps;
    offense_window_ms = pos 3600000;
    debounce_ms = pos 100;
    debounce_locks = [];
  }

  unfoldable pub acquire_debounce : String → ℤ → BanAction store → BanAction store × Bool
  unfolding may_proceed
  acquire_debounce ip now b =
      if may_proceed b.debounce_ms now (Map.get ip b.debounce_locks)
      then (record b { debounce_locks = Map.insert ip now b.debounce_locks }, true)
      else (b, false)

  unfoldable pub purge_debounce_locks : ℤ → BanAction store → BanAction store
  purge_debounce_locks now b =
      let cutoff = saturating_sub now (b.debounce_ms *ℤ 10) in
      record b { debounce_locks = Map.retain (λ _ ts. ltb_ℤ cutoff ts) b.debounce_locks }

  -- What follows the answer of the offense store.
  unfoldable pub ban : String → ℤ → BanAction store → Option ℕ → BanAction store × ActionResult
  unfolding insert step_for noop
  ban ip now b none = (b, noop)
  ban ip now b (some offense_n) =
      let step = step_for b.schedule offense_n in
      (
        record b {
          ban_table = insert ip (saturating_add now (pos (step.ttl_s * 1000))) b.ban_table;
        },
        record { banned = true; ban_ttl_s = some step.ttl_s; risk_delta = step.risk_delta },
      )

  unfoldable pub execute :
      String → DetectorVerdict → ℤ → BanAction store → BanAction store × ActionResult
  unfolding acquire_debounce offense_key ban noop
  execute ip allow now b = (b, noop)
  execute ip (soft_anomaly delta) now b = (b, noop)
  execute ip (hard_burst reason detector) now b =
      let (b', proceed) = acquire_debounce ip now b in
      let (offenses, n) =
        store.incr_get (offense_key ip) b'.offense_window_ms now b'.offense_store in
      if proceed then ban ip now (record b' { offense_store = offenses }) n else (b', noop)
