-- ===== src/Ddos/Check/Bans.antt =====
-- The DDoS check after a burst.
use waf.Base.{
  ℕ, ◌*◌, ◌≡◌, refl, ap, ◌∙◌, sym, inl, inr, true, false, String, Option, none, some, List, [], ◌∷◌,
  Bool-cases,
}
use waf.Base.Int.{ℤ, pos, ltb_ℤ, saturating_add}
use waf.Ddos.Ban.{
  CounterStore, DetectorVerdict, soft_anomaly, hard_burst, merge, max_ttl, noop, execute, contains,
}
use waf.Ddos.Ban
use waf.Ddos.Ban.Table.{execute-ban_ttl_s}
use waf.Ddos.Detect.{DdosTierCfg}
use waf.Ddos.Check.{
  OverloadGuard, RequestCtx, Detection, degraded, currently_banned, burst, on_degrade, DdosCheck,
  risk_bump, combined, on_verdict, run_detectors, check, DegradeAction,
}

abbrev ttl_of : Option Detection → Option ℕ
ttl_of none = none
ttl_of (some (degraded _ _)) = none
ttl_of (some (currently_banned _)) = none
ttl_of (some (burst _ _ ttl)) = ttl

max_ttl-none : (o : Option ℕ) → max_ttl (max_ttl none o) none ≡ o
unfolding max_ttl
max_ttl-none none = refl
max_ttl-none (some a) = refl

ttl_of-on_degrade : (a : DegradeAction) → ttl_of (on_degrade a) ≡ none
unfolding on_degrade
ttl_of-on_degrade DegradeAction.allow = refl
ttl_of-on_degrade DegradeAction.allow_and_warn = refl
ttl_of-on_degrade (DegradeAction.block status retry_after_s) = refl

none-ne-some : {A : Type 0} (a : A) → none ≡ some a → ⊥
none-ne-some a h = cc

module _ {D : Type 0} {store : CounterStore} where
  refuse-banned :
      (es : List (RequestCtx → DdosTierCfg → ℤ → D → D × DetectorVerdict)) (cfg : DdosTierCfg)
      (guard : OverloadGuard) (ctx : RequestCtx) (ip : String) (now : ℤ) (s : DdosCheck D store)
      → guard.overloaded ≡ false
      → ctx.client_ip ≡ ip
      → contains ip now s.action.ban_table ≡ true
      → check es (some cfg) guard ctx now s ≡ (s, some (currently_banned ip))
  unfolding check
  refuse-banned es cfg guard ctx ip now s calm same banned = rw (calm, same, banned) refl

  combined-ttl :
      (ip r d : String) (now later : ℤ) (s : DdosCheck D store) (ttl : ℕ)
      → (combined ip (hard_burst r d) now s).1.ban_ttl_s ≡ some ttl
      → ltb_ℤ later (saturating_add now (pos (ttl * 1000))) ≡ true
      → contains ip later (combined ip (hard_burst r d) now s).0.action.ban_table ≡ true
  unfolding combined risk_bump merge max_ttl noop
  combined-ttl ip r d now later s ttl h early =
      execute-ban_ttl_s ip (hard_burst r d) now later s.action ttl (sym (max_ttl-none _) ∙ h) early

  verdict-ttl :
      (ctx : RequestCtx) (now later : ℤ) (v : DetectorVerdict)
      (next : DdosCheck D store → DdosCheck D store × Option Detection) (s : DdosCheck D store)
      (ttl : ℕ)
      → ltb_ℤ later (saturating_add now (pos (ttl * 1000))) ≡ true
      → ((t : DdosCheck D store)
          → ttl_of (next t).1 ≡ some ttl
          → contains ctx.client_ip later (next t).0.action.ban_table ≡ true)
      → ttl_of (on_verdict ctx now v next s).1 ≡ some ttl
      → contains ctx.client_ip later (on_verdict ctx now v next s).0.action.ban_table ≡ true
  unfolding on_verdict
  verdict-ttl ctx now later Ban.allow next s ttl early go h = go s h
  verdict-ttl ctx now later (soft_anomaly score) next s ttl early go h = go s h
  verdict-ttl ctx now later (hard_burst r d) next s ttl early go h =
      combined-ttl ctx.client_ip r d now later s ttl h early

  run-ttl :
      (ds : List (RequestCtx → DdosTierCfg → ℤ → D → D × DetectorVerdict)) (ctx : RequestCtx)
      (cfg : DdosTierCfg) (now later : ℤ) (s : DdosCheck D store) (ttl : ℕ)
      → ltb_ℤ later (saturating_add now (pos (ttl * 1000))) ≡ true
      → ttl_of (run_detectors ds ctx cfg now s).1 ≡ some ttl
      → contains ctx.client_ip later (run_detectors ds ctx cfg now s).0.action.ban_table ≡ true
  unfolding run_detectors
  run-ttl [] ctx cfg now later s ttl early h = cc
  run-ttl (d ∷ ds) ctx cfg now later s ttl early h =
      let (x, v) = d ctx cfg now s.detectors in
      verdict-ttl ctx now later v (λ s'. run_detectors ds ctx cfg now s')
        (record s { detectors = x }) ttl early (λ s'. run-ttl ds ctx cfg now later s' ttl early) h

  check-ttl :
      (ds : List (RequestCtx → DdosTierCfg → ℤ → D → D × DetectorVerdict)) (cfg : DdosTierCfg)
      (guard : OverloadGuard) (ctx : RequestCtx) (now later : ℤ) (s : DdosCheck D store) (ttl : ℕ)
      → ltb_ℤ later (saturating_add now (pos (ttl * 1000))) ≡ true
      → ttl_of (check ds (some cfg) guard ctx now s).1 ≡ some ttl
      → contains ctx.client_ip later (check ds (some cfg) guard ctx now s).0.action.ban_table ≡ true
  unfolding check
  check-ttl ds cfg guard ctx now later s ttl early = elim (Bool-cases guard.overloaded) [
    | inl over ↦ rw over (λ h. absurd (none-ne-some ttl (sym (ttl_of-on_degrade _) ∙ h)))
    | inr calm ↦ elim (Bool-cases (contains ctx.client_ip now s.action.ban_table)) [
      | inl old ↦ rw (calm, old) (λ h. absurd (none-ne-some ttl h))
      | inr new ↦ rw (calm, new) (run-ttl ds ctx cfg now later s ttl early)
    ]
  ]

  -- After a check that bans the address for some seconds, every check of that address within them,
  -- on a tier with a configuration and without overload, is refused as banned and changes nothing,
  -- whatever the detectors say.
  pub check-currently_banned :
      (ds es : List (RequestCtx → DdosTierCfg → ℤ → D → D × DetectorVerdict))
      (cfg cfg' : DdosTierCfg) (guard guard' : OverloadGuard) (ctx ctx' : RequestCtx)
      (now later : ℤ) (s : DdosCheck D store) (reason detector : String) (ttl : ℕ)
      → (check ds (some cfg) guard ctx now s).1 ≡ some (burst detector reason (some ttl))
      → ltb_ℤ later (saturating_add now (pos (ttl * 1000))) ≡ true
      → guard'.overloaded ≡ false
      → ctx'.client_ip ≡ ctx.client_ip
      → check es (some cfg') guard' ctx' later (check ds (some cfg) guard ctx now s).0
        ≡ ((check ds (some cfg) guard ctx now s).0, some (currently_banned ctx.client_ip))
  check-currently_banned ds es cfg cfg' guard guard' ctx ctx' now later s reason detector ttl h
        early calm same =
      refuse-banned es cfg' guard' ctx' ctx.client_ip later (check ds (some cfg) guard ctx now s).0
        calm same (check-ttl ds cfg guard ctx now later s ttl early (ap ttl_of h))
