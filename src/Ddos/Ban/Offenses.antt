-- ===== src/Ddos/Ban/Offenses.antt =====
-- Offenses in a row: the debounce, and the escalation over the in-memory store.
use waf.Base.{
  ℕ, suc, ◌+◌, ◌*◌, ◌^◌, ◌<◌, ◌≡◌, refl, ap, ◌∙◌, Bool, true, false, ◌||◌, String, Option, none,
  some, List, [], ◌∷◌, map, arith, length,
}
use waf.Base.Keys.{string_eq, eq_refl}
use waf.Base.Int.{ℤ, pos, ltb_ℤ, leb_ℤ, saturating_add, saturating_sub}
use waf.Base.Map
use waf.Ddos.Counter.{hit}
use waf.Ddos.Counter.Runs.{Dense, counted_from, hit-live, incr_get-record}
use waf.Ddos.Ban.Table.{contains-insert}
use waf.Ddos.Ban.{
  CounterStore, memory_store, BanAction, BanSchedule, ActionResult, hard_burst, step_for, ban,
  DynamicBanTable, insert, contains, execute, acquire_debounce, may_proceed, noop, offense_key,
}

module _ {store : CounterStore} where
  -- A call of `ban` leaves all but the table.
  ban-locks :
      (ip : String) (now : ℤ) (b : BanAction store) (n : Option ℕ)
      → ((ban ip now b n).0.debounce_locks ≡ b.debounce_locks)
        × ((ban ip now b n).0.debounce_ms ≡ b.debounce_ms)
  unfolding ban
  ban-locks ip now b none = (refl, refl)
  ban-locks ip now b (some n) = (refl, refl)

  execute-locks :
      (ip r d : String) (now : ℤ) (b : BanAction store)
      → may_proceed b.debounce_ms now (Map.get ip b.debounce_locks) ≡ true
      → (Map.get ip (execute ip (hard_burst r d) now b).0.debounce_locks ≡ some now)
        × ((execute ip (hard_burst r d) now b).0.debounce_ms ≡ b.debounce_ms)
  unfolding execute acquire_debounce
  execute-locks ip r d now b go = rw go (
    ap (Map.get ip) (ban-locks ip now _ _).0 ∙ Map.get-insert_self ip now b.debounce_locks,
    (ban-locks ip now _ _).1,
  )

  execute-stop :
      (ip r d : String) (now : ℤ) (b : BanAction store)
      → may_proceed b.debounce_ms now (Map.get ip b.debounce_locks) ≡ false
      → execute ip (hard_burst r d) now b ≡ (b, noop)
  unfolding execute acquire_debounce
  execute-stop ip r d now b stop = rw stop refl

  -- Within the debounce window of a burst that was acted on, a further burst of the same address
  -- changes nothing and has no result.
  pub execute-debounce :
      (ip r d r' d' : String) (now later : ℤ) (b : BanAction store)
      → may_proceed b.debounce_ms now (Map.get ip b.debounce_locks) ≡ true
      → ltb_ℤ (saturating_sub later now) b.debounce_ms ≡ true
      → execute ip (hard_burst r' d') later (execute ip (hard_burst r d) now b).0
        ≡ ((execute ip (hard_burst r d) now b).0, noop)
  unfolding may_proceed
  execute-debounce ip r d r' d' now later b go soon =
      let after = execute-locks ip r d now b go in
      execute-stop ip r' d' later (execute ip (hard_burst r d) now b).0
        (rw (after.0, after.1) (ground (arith, soon)))

-- The bursts of one address at these times, and their results.
unfoldable pub bursts :
    String → List ℤ → BanAction memory_store → BanAction memory_store × List ActionResult
bursts ip [] b = (b, [])
bursts ip (t ∷ ts) b =
    let (b', r) = execute ip (hard_burst "burst" "per_ip") t b in
    let (b'', rs) = bursts ip ts b' in (b'', r ∷ rs)

-- The result of the nth offense of a schedule.
abbrev pub nth_ban : BanSchedule → ℕ → ActionResult
nth_ban steps n =
    let step = step_for steps n in
    record { banned = true; ban_ttl_s = some step.ttl_s; risk_delta = step.risk_delta }

-- One of the bans that start at these times, the first of them for the nth offense, is on.
abbrev pub one_is_on : ℤ → BanSchedule → ℕ → List ℤ → Bool
one_is_on later steps n [] = false
one_is_on later steps n (t ∷ ts) =
    ltb_ℤ later (saturating_add t (pos ((step_for steps n).ttl_s * 1000)))
    || one_is_on later steps (suc n) ts

-- Each time is at least the debounce after the one before it.
abbrev pub Spaced : ℤ → ℤ → List ℤ → Type 0
Spaced debounce last [] = Unit {0}
Spaced debounce last (t ∷ ts) =
    (leb_ℤ debounce (saturating_sub t last) ≡ true) × Spaced debounce t ts

-- The state after the nth offense.
record IsAfter (ip : String) (last : ℤ) (n : ℕ) (b : BanAction memory_store) : Type 0 where
  lock : Map.get ip b.debounce_locks ≡ some last
  offense :
      Map.get (offense_key ip) b.offense_store.map
      ≡ some (record { count = n; expires_ms = saturating_add last b.offense_window_ms })

-- A burst that is acted on, when the counter's entry becomes the nth.
execute_lem :
    (ip r d : String) (now : ℤ) (n : ℕ) (b : BanAction memory_store)
    → may_proceed b.debounce_ms now (Map.get ip b.debounce_locks) ≡ true
    → hit
        (Map.get (offense_key ip) b.offense_store.map)
        (saturating_add now b.offense_window_ms)
        now
      ≡ record { count = n; expires_ms = saturating_add now b.offense_window_ms }
    → let (b', res) = execute ip (hard_burst r d) now b in
      (res ≡ nth_ban b.schedule n)
      × IsAfter ip now n b'
      × (b'.schedule ≡ b.schedule)
      × (b'.debounce_ms ≡ b.debounce_ms)
      × (b'.offense_window_ms ≡ b.offense_window_ms)
      × (b'.ban_table
          ≡ insert ip (saturating_add now (pos ((step_for b.schedule n).ttl_s * 1000))) b.ban_table)
unfolding execute acquire_debounce ban
execute_lem ip r d now n b go counted =
    let after =
      incr_get-record (offense_key ip) b.offense_window_ms now b.offense_store _ counted in
    rw (go, after.1)
      (
        refl,
        record { lock = Map.get-insert_self ip now b.debounce_locks; offense = after.0 },
        refl,
        refl,
        refl,
        refl,
      )

-- The first of some bans stands in the table that the others are added to.
bans_add :
    (ip : String) (later expires : ℤ) (t : DynamicBanTable) (rest : Bool)
    → contains ip later (insert ip expires t) || rest
      ≡ contains ip later t || (ltb_ℤ later expires || rest)
bans_add ip later expires t rest =
    ground (arith, contains-insert ip ip later expires t, eq_refl {K = String} ip)

later_offenses :
    (ip : String) (last later : ℤ) (ts : List ℤ) (n : ℕ) (b : BanAction memory_store)
    → IsAfter ip last n b
    → Spaced b.debounce_ms last ts
    → Dense b.offense_window_ms last ts
    → n + length ts < 2 ^ 64
    → ((bursts ip ts b).1 ≡ map (nth_ban b.schedule) (counted_from (suc n) ts))
      × (contains ip later (bursts ip ts b).0.ban_table
          ≡ contains ip later b.ban_table || one_is_on later b.schedule (suc n) ts)
unfolding bursts may_proceed
later_offenses ip last later [] n b v s d small = (refl, ground arith)
later_offenses ip last later (t ∷ ts) n b v s d small =
    let (res, after, steps, debounce, window, table) =
      execute_lem ip "burst" "per_ip" t (suc n) b (rw v.lock s.0)
        (rw v.offense (hit-live b.offense_window_ms last t n (omega (arith, small)) d.0)) in
    let b' = (execute ip (hard_burst "burst" "per_ip") t b).0 in
    let (results, bans) =
      later_offenses ip t later ts (suc n) b' after (rw debounce s.1) (rw window d.1)
        (omega (arith, small)) in
    let expires = saturating_add t (pos ((step_for b.schedule (suc n)).ttl_s * 1000)) in
    let rest = one_is_on later b.schedule (suc (suc n)) ts in
    (
      rw (res, results, steps) refl,
      bans ∙ rw (steps, table) (bans_add ip later expires b.ban_table rest),
    )

-- An address without an offense or a debounce lock on record, whose bursts come at least the
-- debounce apart and each before the offense window of the one before it ends, is banned at each
-- of them, by the schedule's step of the offense's number: 1, 2, ... Each result names the time of
-- its ban, and after them the table bans the address exactly where it did before, or where one of
-- these bans is on, for fewer than 2 ^ 64 bursts over the in-memory store.
pub bursts_escalate :
    (ip : String) (t later : ℤ) (ts : List ℤ) (b : BanAction memory_store)
    → Map.get (offense_key ip) b.offense_store.map ≡ none
    → Map.get ip b.debounce_locks ≡ none
    → Spaced b.debounce_ms t ts
    → Dense b.offense_window_ms t ts
    → length ts + 1 < 2 ^ 64
    → ((bursts ip (t ∷ ts) b).1 ≡ map (nth_ban b.schedule) (counted_from 1 (t ∷ ts)))
      × (contains ip later (bursts ip (t ∷ ts) b).0.ban_table
          ≡ contains ip later b.ban_table || one_is_on later b.schedule 1 (t ∷ ts))
unfolding bursts may_proceed hit
bursts_escalate ip t later ts b fresh unlocked s d small =
    let (res, after, steps, debounce, window, table) =
      execute_lem ip "burst" "per_ip" t 1 b (rw unlocked refl) (rw fresh refl) in
    let b' = (execute ip (hard_burst "burst" "per_ip") t b).0 in
    let (results, bans) =
      later_offenses ip t later ts 1 b' after (rw debounce s) (rw window d)
        (omega (arith, small)) in
    let expires = saturating_add t (pos ((step_for b.schedule 1).ttl_s * 1000)) in
    (
      rw (res, results, steps) refl,
      bans
          ∙ rw (steps, table)
              (bans_add ip later expires b.ban_table (one_is_on later b.schedule 2 ts)),
    )
