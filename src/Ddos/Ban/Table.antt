-- ===== src/Ddos/Ban/Table.antt =====
-- The ban table: what an insert, a purge and an executed ban leave of the bans.
use waf.Base.{
  ℕ, ◌*◌, ◌≡◌, refl, inl, inr, true, ◌||◌, String, Option, none, some, arith, if◌then◌else◌,
  Bool-cases, Option-cases,
}
use waf.Base.Keys.{string_eq, ◌==◌, eq_refl}
use waf.Base.Int.{ℤ, pos, ltb_ℤ, ◌≤ℤ◌, saturating_add}
use waf.Base.Map
use waf.Ddos.Ban.{
  CounterStore, BanAction, DetectorVerdict, allow, soft_anomaly, hard_burst, DynamicBanTable,
  insert, contains, lives, longest, purge_expired, step_for, ban, execute, acquire_debounce,
  may_proceed, noop,
}

lives-longest :
    (now expires : ℤ) (o : Option ℤ)
    → lives now (some (longest expires o)) ≡ lives now o || ltb_ℤ now expires
unfolding lives longest
lives-longest now expires none = refl
lives-longest now expires (some e) = ground arith

-- An insert bans its address until the given time, or for as long as it was banned already, and
-- no other address.
pub contains-insert :
    (ip j : String) (now expires : ℤ) (t : DynamicBanTable)
    → contains j now (insert ip expires t)
      ≡ (if ip == j then contains j now t || ltb_ℤ now expires else contains j now t)
unfolding contains insert
contains-insert ip j now expires t = ground (
  arith,
  Map.get-insert ip j (longest expires (Map.get ip t)) t,
  string_eq.beq_iff ip j,
  lives-longest now expires (Map.get ip t),
)

-- A purge drops no ban that has not expired, and changes no later answer.
pub contains-purge_expired :
    (ip : String) (now later : ℤ) (t : DynamicBanTable)
    → Map.distinct_keys t ≡ true
    → now ≤ℤ later
    → contains ip later (purge_expired now t).0 ≡ contains ip later t
unfolding contains lives purge_expired
contains-purge_expired ip now later t d h =
    let kept = Map.get-retain (λ _ e. ltb_ℤ now e) ip t d in
    elim (Option-cases (Map.get ip t)) [
      | inl gone ↦ cc
      | inr (e, found) ↦ ground (arith, kept, found)
    ]

module _ {store : CounterStore} where
  ban-table :
      (ip j : String) (now later : ℤ) (b : BanAction store) (n : Option ℕ)
      → contains j later b.ban_table ≡ true
      → contains j later (ban ip now b n).0.ban_table ≡ true
  unfolding ban
  ban-table ip j now later b none h = h
  ban-table ip j now later b (some n) h = ground (
    arith,
    h,
    contains-insert ip j later (saturating_add now (pos ((step_for b.schedule n).ttl_s * 1000)))
        b.ban_table,
  )

  -- No execution ends or shortens a ban.
  pub execute-contains :
      (ip j : String) (v : DetectorVerdict) (now later : ℤ) (b : BanAction store)
      → contains j later b.ban_table ≡ true
      → contains j later (execute ip v now b).0.ban_table ≡ true
  unfolding execute acquire_debounce
  execute-contains ip j allow now later b h = h
  execute-contains ip j (soft_anomaly d) now later b h = h
  execute-contains ip j (hard_burst r d) now later b h =
      elim (Bool-cases (may_proceed b.debounce_ms now (Map.get ip b.debounce_locks))) [
        | inl go ↦ rw go (ban-table ip j now later _ _ h)
        | inr stop ↦ rw stop h
      ]

  ban-ttl :
      (ip : String) (now later : ℤ) (b : BanAction store) (n : Option ℕ) (ttl : ℕ)
      → (ban ip now b n).1.ban_ttl_s ≡ some ttl
      → ltb_ℤ later (saturating_add now (pos (ttl * 1000))) ≡ true
      → contains ip later (ban ip now b n).0.ban_table ≡ true
  unfolding ban noop
  ban-ttl ip now later b none ttl h early = cc
  ban-ttl ip now later b (some n) ttl h early = ground (
    arith,
    h,
    early,
    eq_refl ip,
    contains-insert ip ip later (saturating_add now (pos ((step_for b.schedule n).ttl_s * 1000)))
        b.ban_table,
  )

  -- An execution whose result names a time bans the address for that many seconds from now.
  pub execute-ban_ttl_s :
      (ip : String) (v : DetectorVerdict) (now later : ℤ) (b : BanAction store) (ttl : ℕ)
      → (execute ip v now b).1.ban_ttl_s ≡ some ttl
      → ltb_ℤ later (saturating_add now (pos (ttl * 1000))) ≡ true
      → contains ip later (execute ip v now b).0.ban_table ≡ true
  unfolding execute acquire_debounce noop
  execute-ban_ttl_s ip allow now later b ttl h early = cc
  execute-ban_ttl_s ip (soft_anomaly d) now later b ttl h early = cc
  execute-ban_ttl_s ip (hard_burst r d) now later b ttl given early =
      let banned : (execute ip (hard_burst r d) now b).1.ban_ttl_s ≡ some ttl
          → contains ip later (execute ip (hard_burst r d) now b).0.ban_table ≡ true =
        elim (Bool-cases (may_proceed b.debounce_ms now (Map.get ip b.debounce_locks))) [
          | inl go ↦ rw go (λ h. ban-ttl ip now later _ _ ttl h early)
          | inr stop ↦ rw stop (λ h. cc)
        ] in
      banned given
