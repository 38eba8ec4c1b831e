-- ===== src/Inspect/Phases.antt =====
-- crates/waf-engine/src/engine.rs: the phases of `inspect` in their order. The phases after the lists
-- and the page that is shown to a blocked client are parameters; a phase may change a state of its
-- own.
use waf.Base.{Bool, not, String, Option, none, some, List, [], ◌∷◌, ◌++◌, if◌then◌else◌}
use waf.Base.Text.{is_empty}
use waf.Inspect.{
  Phase, DetectionResult, WafAction, allow_action, block_action, redirect, WafDecision, log_only,
  allow, block, is_allowed, whitelists, Libraries, RequestCtx, RuleStore, check_ip_whitelist,
  check_ip_blacklist, check_url_whitelist, check_url_blacklist,
}

-- A row of the table of attacks, without its id, its time and what GeoIP says; the phase stands for
-- its name.
pub record AttackLog : Type 0 where
  pub host_code : String
  pub host : String
  pub client_ip : String
  pub method : String
  pub path : String
  pub query : Option String
  pub rule_id : Option String
  pub rule_name : String
  pub action : String
  pub phase : Phase
  pub detail : Option String

-- A row of the table of security events, without what GeoIP says.
pub record CreateSecurityEvent : Type 0 where
  pub host_code : String
  pub client_ip : String
  pub method : String
  pub path : String
  pub rule_id : Option String
  pub rule_name : String
  pub action : String
  pub detail : Option String

-- What is handed on of a decision: a row to a new task that writes it to the database, and may fail
-- there, and a detection to the queues of the reporter and of the audit stream, which may drop it.
pub data Event : Type 0 where
  attack_row : AttackLog → Event
  security_row : CreateSecurityEvent → Event
  community_signal audit_event : String → DetectionResult → Event

-- The calls that follow a decision.
pub data Call : Type 0 where
  attack security community_call audit : Call

unfoldable pub action_str : WafAction → String
action_str (block_action status body) = "block"
action_str allow_action = "allow"
action_str log_only = "log_only"
action_str (redirect url) = "redirect"

-- What else `inspect` goes by: the page for a blocked client, and whether the reporter and the
-- audit stream are set up.
pub record Setup (lib : Libraries) : Type 0 where
  pub render_block_page : RequestCtx lib → String → String
  pub community_reporter : Bool
  pub audit_sender : Bool

module _ (lib : Libraries) (S : Type 0) (setup : Setup lib) where
  -- A phase that may detect something, and what it makes of the state.
  abbrev pub Check : Type 0
  Check = RequestCtx lib → S → S × Option DetectionResult

  -- The phases after the lists; none for a client that is not set up.
  pub record Checks : Type 0 where
    pub geoip : Option (String → lib.Geo)
    pub ddos_check : Check
    pub crowdsec_checker : Option Check
    pub community_checker : Option Check
    pub geo_check : Check
    pub checkers : List Check
    pub sqli_check : Check
    pub appsec_client : Option Check
    pub custom_rules : Check
    pub owasp : Check
    pub sensitive : Check
    pub hotlink : Check

  pub record Outcome : Type 0 where
    pub state : S
    pub events : List Event
    pub decision : WafDecision

  -- A detection is only logged on a host in log-only mode.
  unfoldable pub decide : RequestCtx lib → DetectionResult → WafDecision
  decide ctx r =
      if ctx.log_only_mode
      then record { action = log_only; result = some r }
      else block 403 (some (setup.render_block_page ctx r.rule_name)) r

  abbrev pub attack_log_of : RequestCtx lib → String → DetectionResult → AttackLog
  attack_log_of ctx action r = record {
    host_code = ctx.host_code;
    host = ctx.host;
    client_ip = ctx.client_ip;
    method = ctx.method;
    path = ctx.path;
    query = if is_empty ctx.query then none else some ctx.query;
    rule_id = r.rule_id;
    rule_name = r.rule_name;
    action = action;
    phase = r.phase;
    detail = some r.detail;
  }

  abbrev pub security_event_of : RequestCtx lib → String → DetectionResult → CreateSecurityEvent
  security_event_of ctx action r = record {
    host_code = ctx.host_code;
    client_ip = ctx.client_ip;
    method = ctx.method;
    path = ctx.path;
    rule_id = r.rule_id;
    rule_name = r.rule_name;
    action = action;
    detail = some r.detail;
  }

  -- The helpers that record a decision; one without a result is not recorded.
  unfoldable pub log_attack : RequestCtx lib → WafAction → Option DetectionResult → List Event
  unfolding action_str
  log_attack ctx action none = []
  log_attack ctx action (some r) = attack_row (attack_log_of ctx (action_str action) r) ∷ []

  unfoldable pub log_security_event :
      RequestCtx lib → WafAction → Option DetectionResult → List Event
  unfolding action_str
  log_security_event ctx action none = []
  log_security_event ctx action (some r) =
      security_row (security_event_of ctx (action_str action) r) ∷ []

  unfoldable pub report_community_signal : RequestCtx lib → Option DetectionResult → List Event
  report_community_signal ctx none = []
  report_community_signal ctx (some r) =
      if setup.community_reporter then community_signal ctx.client_ip r ∷ [] else []

  unfoldable pub send_audit_event : RequestCtx lib → Option DetectionResult → List Event
  send_audit_event ctx none = []
  send_audit_event ctx (some r) =
      if setup.audit_sender then audit_event ctx.client_ip r ∷ [] else []

  unfoldable pub perform : RequestCtx lib → WafDecision → Call → List Event
  unfolding log_attack log_security_event report_community_signal send_audit_event
  perform ctx d attack = log_attack ctx d.action d.result
  perform ctx d security = log_security_event ctx d.action d.result
  perform ctx d community_call = report_community_signal ctx d.result
  perform ctx d audit = send_audit_event ctx d.result

  unfoldable pub emit : RequestCtx lib → WafDecision → List Call → List Event
  unfolding perform
  emit ctx d [] = []
  emit ctx d (c ∷ cs) = perform ctx d c ++ emit ctx d cs

  -- The block of a phase: a detection ends the inspection.
  unfoldable pub conclude :
      RequestCtx lib → List Call → (S → Outcome) → S × Option DetectionResult → Outcome
  unfolding decide emit
  conclude ctx calls next (s, none) = next s
  conclude ctx calls next (s, some r) = record {
    state = s;
    events = emit ctx (decide ctx r) calls;
    decision = decide ctx r;
  }

  abbrev pub all_calls : List Call
  all_calls = security ∷ community_call ∷ audit ∷ []

  unfoldable pub phase : RequestCtx lib → List Call → Check → (S → Outcome) → S → Outcome
  unfolding conclude
  phase ctx calls check next s = conclude ctx calls next (check ctx s)

  -- A client that may not be set up.
  unfoldable pub phase_if : RequestCtx lib → List Call → Option Check → (S → Outcome) → S → Outcome
  unfolding phase
  phase_if ctx calls none next s = next s
  phase_if ctx calls (some check) next s = phase ctx calls check next s

  unfoldable pub run_checkers : RequestCtx lib → List Check → (S → Outcome) → S → Outcome
  unfolding phase
  run_checkers ctx [] next s = next s
  run_checkers ctx (c ∷ cs) next s = phase ctx all_calls c (λ t. run_checkers ctx cs next t) s

  abbrev pub passed : S → Outcome
  passed s = record { state = s; events = []; decision = allow }

  -- The phases after the lists, in their order.
  abbrev pub Step : Type 0
  Step = (S → Outcome) → S → Outcome

  unfoldable pub phases : Checks → RequestCtx lib → List Step
  unfolding phase phase_if run_checkers
  phases checks ctx =
      phase ctx (security ∷ community_call ∷ []) checks.ddos_check
      ∷ phase_if ctx all_calls checks.crowdsec_checker
      ∷ phase_if ctx (security ∷ []) checks.community_checker
      ∷ phase ctx all_calls checks.geo_check
      ∷ run_checkers ctx checks.checkers
      ∷ phase ctx all_calls checks.sqli_check
      ∷ phase_if ctx all_calls checks.appsec_client
      ∷ phase ctx all_calls checks.custom_rules
      ∷ phase ctx all_calls checks.owasp
      ∷ phase ctx all_calls checks.sensitive
      ∷ phase ctx all_calls checks.hotlink
      ∷ []

  -- One block after the other.
  unfoldable pub run_steps : List Step → S → Outcome
  run_steps [] s = passed s
  run_steps (f ∷ fs) s = f (λ t. run_steps fs t) s

  unfoldable pub run_phases : Checks → RequestCtx lib → S → Outcome
  unfolding phases run_steps
  run_phases checks ctx s = run_steps (phases checks ctx) s

  abbrev pub list_calls : List Call
  list_calls = attack ∷ community_call ∷ audit ∷ []

  -- A refusal by one of the lists, and a request that one of them lets through.
  unfoldable pub listed : RequestCtx lib → WafDecision → S → Outcome
  unfolding emit
  listed ctx d s = record { state = s; events = emit ctx d list_calls; decision = d }

  abbrev pub quiet : WafDecision → S → Outcome
  quiet d s = record { state = s; events = []; decision = d }

  -- The blacklist of paths and what is after it.
  unfoldable pub after_whitelists : Checks → RuleStore lib → RequestCtx lib → S → Outcome
  unfolding check_url_blacklist is_allowed run_phases listed
  after_whitelists checks store ctx s =
      let d = check_url_blacklist lib ctx store in
      if not (is_allowed d) then listed ctx d s else run_phases checks ctx s

  unfoldable pub after_url_whitelist :
      Checks → RuleStore lib → RequestCtx lib → S → Option WafDecision → Outcome
  unfolding after_whitelists
  after_url_whitelist checks store ctx s none = after_whitelists checks store ctx s
  after_url_whitelist checks store ctx s (some d) = quiet d s

  unfoldable pub after_ip_whitelist : Checks → RuleStore lib → RequestCtx lib → S → Outcome
  unfolding check_ip_blacklist is_allowed listed check_url_whitelist after_url_whitelist
  after_ip_whitelist checks store ctx s =
      let d = check_ip_blacklist lib ctx store in
      if not (is_allowed d)
      then listed ctx d s
      else after_url_whitelist checks store ctx s (check_url_whitelist lib ctx store)

  abbrev pub enrich : Option (String → lib.Geo) → RequestCtx lib → RequestCtx lib
  enrich none ctx = ctx
  enrich (some lookup) ctx = record ctx { geo = some (lookup ctx.client_ip) }

  unfoldable pub inspect : Checks → RuleStore lib → RequestCtx lib → S → Outcome
  unfolding check_ip_whitelist whitelists after_ip_whitelist
  inspect checks store ctx s =
      let c = enrich checks.geoip ctx in
      let d = check_ip_whitelist lib c store in
      if not ctx.guard_status
      then passed s
      else if whitelists d.action d.result
      then quiet d s
      else after_ip_whitelist checks store c s
