-- ===== src/Tests/DdosRuns.antt =====
-- Hits, bursts and bans of one address.
use waf.Base.{◌||◌, ℕ, some, ◌≡◌, refl, true, List, [], ◌∷◌, map, arith, ltb, if◌then◌else◌}
use waf.Base.Keys.{string_eq}
use waf.Base.Int.{ℤ, pos, ◌+ℤ◌, ◌-ℤ◌, saturating_add, saturating_sub}
use waf.Base.Map
use waf.Tier.{critical}
use waf.Ddos.Counter
use waf.Ddos.Counter.{MemoryCounterStore}
use waf.Ddos.Counter.Runs.{counted_from}
use waf.Ddos.Ban
use waf.Ddos.Ban.{
  memory_store, BanAction, DynamicBanTable, default_schedule, hard_burst, contains, purge_expired,
  execute, noop,
}
use waf.Ddos.Ban.Table.{contains-purge_expired, execute-contains}
use waf.Ddos.Ban.Offenses.{bursts, nth_ban, one_is_on, bursts_escalate}
use waf.Ddos.Detect.{DdosTierCfg}
use waf.Ddos.Detect.Runs.{fp_run, fp_run_lem}
use waf.Ddos.Check
use waf.Ddos.Check.{RequestCtx, DdosCheck, OverloadGuard, currently_banned, check}
use waf.Ddos.Check.Bans.{check-currently_banned}
use waf.Tier.{fail_open}

abbrev store : MemoryCounterStore
store = Counter.new 100

abbrev action : BanAction memory_store
action = Ban.new [] store default_schedule

abbrev times : List ℤ
times = pos 500 ∷ pos 900 ∷ pos 2000 ∷ []

bursts_escalate_example :
    ((bursts "10.0.0.1" (pos 0 ∷ times) action).1
      ≡ map (nth_ban default_schedule) (counted_from {A = ℤ} 1 (pos 0 ∷ times)))
    × (contains "10.0.0.1" (pos 900000) (bursts "10.0.0.1" (pos 0 ∷ times) action).0.ban_table
        ≡ contains "10.0.0.1" (pos 900000) []
          || one_is_on (pos 900000) default_schedule 1 (pos 0 ∷ times))
unfolding Ban.new Counter.new Map.get saturating_add saturating_sub ◌+ℤ◌ ◌-ℤ◌
bursts_escalate_example =
    bursts_escalate "10.0.0.1" (pos 0) (pos 900000) times action refl refl
      (refl, (refl, (refl, tt))) (omega arith, (omega arith, (omega arith, tt))) (omega arith)

abbrev cfg : DdosTierCfg
cfg = record { per_fp_threshold = 2; per_fp_window_s = 1; per_tier_window_s = 1 }

fp_run_lem_example :
    fp_run "f" critical cfg (pos 0 ∷ pos 500 ∷ pos 900 ∷ []) store
    ≡ map
        (λ n. if ltb 2 n then hard_burst "fp_burst" "per_fp" else Ban.allow)
        (counted_from {A = ℤ} 1 (pos 0 ∷ pos 500 ∷ pos 900 ∷ []))
unfolding Counter.new Map.get saturating_add ◌+ℤ◌
fp_run_lem_example =
    fp_run_lem "f" critical cfg (pos 0) (pos 500 ∷ pos 900 ∷ []) store refl refl
      (omega arith, (omega arith, tt)) (omega arith)

abbrev table : DynamicBanTable
table = ("10.0.0.1", pos 50) ∷ ("10.0.0.2", pos 9000) ∷ []

contains-purge_expired_example :
    contains "10.0.0.2" (pos 100) (purge_expired (pos 60) table).0
    ≡ contains "10.0.0.2" (pos 100) table
unfolding Map.distinct_keys
contains-purge_expired_example =
    contains-purge_expired "10.0.0.2" (pos 60) (pos 100) table refl (omega arith)

abbrev banning : BanAction memory_store
banning = Ban.new table store default_schedule

execute-contains_example :
    contains "10.0.0.2"
      (pos 100)
      (execute "10.0.0.1" (hard_burst "burst" "per_ip") (pos 60) banning).0.ban_table
    ≡ true
unfolding Ban.new contains Map.get
execute-contains_example =
    execute-contains "10.0.0.1" "10.0.0.2" (hard_burst "burst" "per_ip") (pos 60) (pos 100) banning
      refl

abbrev ctx : RequestCtx
ctx = record { tier = critical; fail_mode = fail_open; client_ip = "10.0.0.1" }

abbrev always : List (RequestCtx → DdosTierCfg → ℤ → ℕ → ℕ × Ban.DetectorVerdict)
always = (λ _ _ _ x. (x, hard_burst "burst" "per_ip")) ∷ []

abbrev guard : OverloadGuard
guard = Check.new_guard 1000

abbrev calm : DdosCheck ℕ memory_store
calm = record { detectors = 0; action = action; signals = [] }

check-currently_banned_example :
    check [] (some cfg) guard ctx (pos 30000) (check always (some cfg) guard ctx (pos 60) calm).0
    ≡ ((check always (some cfg) guard ctx (pos 60) calm).0, some (currently_banned "10.0.0.1"))
unfolding Check.new_guard Ban.new Counter.new check execute Counter.incr_get Map.get saturating_add
    ◌+ℤ◌
check-currently_banned_example =
    check-currently_banned always [] cfg cfg guard guard ctx ctx (pos 60) (pos 30000) calm "burst"
      "per_ip" 60 refl refl refl refl
