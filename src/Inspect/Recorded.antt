-- ===== src/Inspect/Recorded.antt =====
-- What is handed on to be recorded of the requests that the engine refuses.
use waf.Base.{
  In, ◌⊎◌, inl, inr, Bool-cases, ◌≡◌, refl, sym, ◌∙◌, Bool, true, false, not, String, Option, none,
  some, List, [], ◌∷◌, drop, arith, if◌then◌else◌,
}
use waf.Inspect.{
  DetectionResult, WafDecision, Libraries, RequestCtx, RuleStore, is_allowed, check_ip_whitelist,
  check_ip_blacklist, check_url_whitelist, check_url_blacklist, url_matches, whitelists,
  url_allowed, url_blocked, ip_matches,
}
use waf.Inspect.Phases.{
  Setup, attack_row, security_row, Call, security, community_call, audit, attack_log_of,
  security_event_of, emit, listed, quiet, Check, Step, phases, run_steps, Checks, Outcome, decide,
  conclude, phase, phase_if, run_checkers, passed, all_calls, run_phases, after_whitelists,
  after_url_whitelist, after_ip_whitelist, enrich, inspect,
}

module _ (lib : Libraries) (S : Type 0) (setup : Setup lib) where
  abbrev pub Out : Type 0
  Out = Outcome lib S setup

  -- What holds of a request that all phases pass, and of every detection of which a security event
  -- is handed on, holds after the phases.
  module _ (P : Out → Type 0) (ctx : RequestCtx lib)
      (detected : (s : S) (cs : List Call) (r : DetectionResult)
        → P (record {
          state = s;
          events = emit lib S setup ctx (decide lib S setup ctx r) (security ∷ cs);
          decision = decide lib S setup ctx r;
        }))
      (passing : (s : S) → P (passed lib S setup s)) where
    conclude-holds :
        (cs : List Call) (next : S → Out) (x : S × Option DetectionResult)
        → ((s : S) → P (next s))
        → P (conclude lib S setup ctx (security ∷ cs) next x)
    unfolding conclude
    conclude-holds cs next (s, none) h = h s
    conclude-holds cs next (s, some r) h = detected s cs r

    -- A step after which P holds where it holds after what comes next.
    abbrev Keeps : Step lib S setup → Type 0
    Keeps f = (next : S → Out) → ((s : S) → P (next s)) → (s : S) → P (f next s)

    abbrev AllKeep : List (Step lib S setup) → Type 0
    AllKeep [] = Unit {0}
    AllKeep (f ∷ fs) = Keeps f × AllKeep fs

    phase-Keeps :
        (cs : List Call) (check : Check lib S setup)
        → Keeps (phase lib S setup ctx (security ∷ cs) check)
    unfolding phase
    phase-Keeps cs check next h s = conclude-holds cs next (check ctx s) h

    phase_if-Keeps :
        (cs : List Call) (check : Option (Check lib S setup))
        → Keeps (phase_if lib S setup ctx (security ∷ cs) check)
    unfolding phase_if
    phase_if-Keeps cs none next h s = h s
    phase_if-Keeps cs (some check) next h s = phase-Keeps cs check next h s

    run_checkers-Keeps : (cs : List (Check lib S setup)) → Keeps (run_checkers lib S setup ctx cs)
    unfolding run_checkers
    run_checkers-Keeps [] next h s = h s
    run_checkers-Keeps (c ∷ cs) next h s =
        phase-Keeps (community_call ∷ audit ∷ []) c (λ t. run_checkers lib S setup ctx cs next t)
          (λ t. run_checkers-Keeps cs next h t) s

    all-Keeps :
        (check : Check lib S setup) → Keeps (phase lib S setup ctx (all_calls lib S setup) check)
    all-Keeps check = phase-Keeps (community_call ∷ audit ∷ []) check

    run_steps-holds :
        (fs : List (Step lib S setup)) → AllKeep fs → (s : S) → P (run_steps lib S setup fs s)
    unfolding run_steps
    run_steps-holds [] k s = passing s
    run_steps-holds (f ∷ fs) k s =
        k.0 (λ t. run_steps lib S setup fs t) (λ t. run_steps-holds fs k.1 t) s

    phases-AllKeep : (checks : Checks lib S setup) → AllKeep (phases lib S setup checks ctx)
    unfolding phases
    phases-AllKeep checks =
        let late : AllKeep (drop 5 (phases lib S setup checks ctx)) = (
          all-Keeps checks.sqli_check,
          (
            phase_if-Keeps (community_call ∷ audit ∷ []) checks.appsec_client,
            (
              all-Keeps checks.custom_rules,
              (
                all-Keeps checks.owasp,
                (all-Keeps checks.sensitive, (all-Keeps checks.hotlink, tt)),
              ),
            ),
          ),
        ) in
        (
          phase-Keeps (community_call ∷ []) checks.ddos_check,
          (
            phase_if-Keeps (community_call ∷ audit ∷ []) checks.crowdsec_checker,
            (
              phase_if-Keeps [] checks.community_checker,
              (all-Keeps checks.geo_check, (run_checkers-Keeps checks.checkers, late)),
            ),
          ),
        )

    pub run_phases-holds :
        (checks : Checks lib S setup) (s : S) → P (run_phases lib S setup checks ctx s)
    unfolding run_phases
    run_phases-holds checks s =
        run_steps-holds (phases lib S setup checks ctx) (phases-AllKeep checks) s

  pub if-holds :
      (P : Out → Type 0) (b : Bool) (x y : Out)
      → (b ≡ true → P x)
      → (b ≡ false → P y)
      → P (if b then x else y)
  if-holds P true x y hx hy = hx refl
  if-holds P false x y hx hy = hy refl

  -- A row with the address and the path of the request and the rule that refused it is handed to a
  -- task that writes it to the database.
  abbrev pub HasRow : RequestCtx lib → Out → Type 0
  HasRow ctx o =
      (r : DetectionResult) × (o.decision.result ≡ some r)
      × (In (attack_row (attack_log_of lib S setup ctx "block" r)) o.events
          ⊎ In (security_row (security_event_of lib S setup ctx "block" r)) o.events)

  abbrev IsRecorded : RequestCtx lib → Out → Type 0
  IsRecorded ctx o = is_allowed o.decision ≡ false → HasRow ctx o

  detected-IsRecorded :
      (ctx : RequestCtx lib) (s : S) (cs : List Call) (r : DetectionResult)
      → IsRecorded ctx (record {
        state = s;
        events = emit lib S setup ctx (decide lib S setup ctx r) (security ∷ cs);
        decision = decide lib S setup ctx r;
      })
  unfolding decide emit is_allowed
  detected-IsRecorded ctx s cs r = elim (Bool-cases ctx.log_only_mode) [
    | inl on ↦ rw on (λ h. absurd (cc h))
    | inr off ↦ rw off (λ h. (r, refl, inr (inl refl)))
  ]

  ip_listed-IsRecorded :
      (ctx : RequestCtx lib) (store : RuleStore lib) (s : S)
      → IsRecorded ctx (listed lib S setup ctx (check_ip_blacklist lib ctx store) s)
  unfolding listed check_ip_blacklist is_allowed ip_matches
  ip_listed-IsRecorded ctx store s =
      elim (Bool-cases (ip_matches lib store.block_ips ctx.host_code ctx.client_ip)) [
        | inl on ↦ rw on (λ h. (_, refl, inl (inl refl)))
        | inr off ↦ rw off (λ h. absurd (cc h))
      ]

  url_listed-IsRecorded :
      (ctx : RequestCtx lib) (o : Option String) (s : S)
      → IsRecorded ctx (listed lib S setup ctx (url_blocked lib ctx o) s)
  unfolding listed is_allowed
  url_listed-IsRecorded ctx none s h = absurd (cc h)
  url_listed-IsRecorded ctx (some id) s h = (_, refl, inl (inl refl))

  after_whitelists-IsRecorded :
      (checks : Checks lib S setup) (store : RuleStore lib) (ctx : RequestCtx lib) (s : S)
      → IsRecorded ctx (after_whitelists lib S setup checks store ctx s)
  unfolding after_whitelists check_url_blacklist
  after_whitelists-IsRecorded checks store ctx s =
      let o = url_matches store.block_urls ctx.host_code ctx.path in
      let d = url_blocked lib ctx o in
      if-holds (IsRecorded ctx) (not (is_allowed d)) (listed lib S setup ctx d s)
        (run_phases lib S setup checks ctx s) (λ bad. url_listed-IsRecorded ctx o s)
        (λ fine.
          run_phases-holds (IsRecorded ctx) ctx (detected-IsRecorded ctx)
            (λ t h. absurd (unfold is_allowed in cc h)) checks s)

  after_url_whitelist-IsRecorded :
      (checks : Checks lib S setup) (store : RuleStore lib) (ctx : RequestCtx lib) (s : S)
      (o : Option String)
      → IsRecorded ctx (after_url_whitelist lib S setup checks store ctx s (url_allowed lib ctx o))
  unfolding after_url_whitelist is_allowed
  after_url_whitelist-IsRecorded checks store ctx s (some id) = λ h. absurd (cc h)
  after_url_whitelist-IsRecorded checks store ctx s none =
      after_whitelists-IsRecorded checks store ctx s

  after_ip_whitelist-IsRecorded :
      (checks : Checks lib S setup) (store : RuleStore lib) (ctx : RequestCtx lib) (s : S)
      → IsRecorded ctx (after_ip_whitelist lib S setup checks store ctx s)
  unfolding after_ip_whitelist check_url_whitelist
  after_ip_whitelist-IsRecorded checks store ctx s =
      let d = check_ip_blacklist lib ctx store in
      let o = url_matches store.allow_urls ctx.host_code ctx.path in
      if-holds (IsRecorded ctx) (not (is_allowed d)) (listed lib S setup ctx d s)
        (after_url_whitelist lib S setup checks store ctx s (url_allowed lib ctx o))
        (λ bad. ip_listed-IsRecorded ctx store s)
        (λ fine. after_url_whitelist-IsRecorded checks store ctx s o)

  pub whitelists-allowed :
      (d : WafDecision) → whitelists d.action d.result ≡ true → is_allowed d ≡ true
  unfolding whitelists is_allowed
  whitelists-allowed d h = ground (arith, h)

  -- What GeoIP says is no part of a row.
  enrich-IsRecorded :
      (g : Option (String → lib.Geo)) (ctx : RequestCtx lib) (o : Out)
      → IsRecorded (enrich lib S setup g ctx) o
      → IsRecorded ctx o
  enrich-IsRecorded none ctx o h = h
  enrich-IsRecorded (some lookup) ctx o h = h

  -- Of every request that the engine refuses, whichever phase refuses it and whatever the phases
  -- do, a row with its address, its path and the result of the decision, as a block, is handed to a
  -- task that writes it to the table of attacks or of security events; that the write succeeds is
  -- not part of it.
  pub inspect-logged :
      (checks : Checks lib S setup) (store : RuleStore lib) (ctx : RequestCtx lib) (s : S)
      → is_allowed (inspect lib S setup checks store ctx s).decision ≡ false
      → HasRow ctx (inspect lib S setup checks store ctx s)
  unfolding inspect
  inspect-logged checks store ctx s =
      let c = enrich lib S setup checks.geoip ctx in
      let d = check_ip_whitelist lib c store in
      let next = after_ip_whitelist lib S setup checks store c s in
      let listed_first = whitelists d.action d.result in
      if-holds (IsRecorded ctx) (not ctx.guard_status) (passed lib S setup s)
        (if listed_first then quiet lib S setup d s else next)
        (λ off h. absurd (unfold is_allowed in cc h))
        (λ on.
          if-holds (IsRecorded ctx) listed_first (quiet lib S setup d s) next
            (λ white h. absurd (cc (sym (whitelists-allowed d white) ∙ h)))
            (λ other.
              enrich-IsRecorded checks.geoip ctx next
                (after_ip_whitelist-IsRecorded checks store c s)))
