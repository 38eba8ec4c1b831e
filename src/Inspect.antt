-- ===== src/Inspect.antt =====
-- crates/waf-engine/src/checker.rs and rules.rs: the lists of addresses and paths that an inspection
-- starts with, and the decisions of crates/waf-common/src/types.rs. Networks are a parameter; an
-- address is its text. The phases of the inspection are in Phases.
pub mod Phases
pub mod Refused
pub mod Recorded
use Prim.Native.String.{◌++◌}
use waf.Base.{
  ℕ, Bool, true, false, ◌&&◌, ◌||◌, not, String, Option, none, some, List, [], ◌∷◌, any,
  if◌then◌else◌,
}
use waf.Base.Keys.{string_eq, ◌==◌}
use waf.Base.Map
use waf.Base.Map.{Map}
use waf.Base.Text.{starts_with, ends_with, has_text}

pub data Phase : Type 0 where
  ip_whitelist ip_blacklist url_whitelist url_blacklist sql_injection xss rce scanner : Phase
  dir_traversal bot rate_limit custom_rule owasp sensitive anti_hotlink crowd_sec geo_ip : Phase
  community ddos : Phase

pub record DetectionResult : Type 0 where
  pub rule_id : Option String
  pub rule_name : String
  pub phase : Phase
  pub detail : String

pub data WafAction : Type 0 where
  allow_action log_only : WafAction
  block_action : ℕ → Option String → WafAction
  redirect : String → WafAction

pub record WafDecision : Type 0 where
  pub action : WafAction
  pub result : Option DetectionResult

abbrev pub allow : WafDecision
allow = record { action = allow_action; result = none }

abbrev pub block : ℕ → Option String → DetectionResult → WafDecision
block status body result = record { action = block_action status body; result = some result }

unfoldable pub lets_through : WafAction → Bool
lets_through allow_action = true
lets_through log_only = true
lets_through (block_action status body) = false
lets_through (redirect url) = false

unfoldable pub is_allowed : WafDecision → Bool
unfolding lets_through
is_allowed d = lets_through d.action

unfoldable pub is_allow : WafAction → Bool
is_allow allow_action = true
is_allow log_only = false
is_allow (block_action status body) = false
is_allow (redirect url) = false

unfoldable pub is_ip_whitelist : Phase → Bool
is_ip_whitelist ip_whitelist = true
is_ip_whitelist _ = false

-- The condition on which the address list lets a request through.
unfoldable pub whitelists : WafAction → Option DetectionResult → Bool
unfolding is_allow is_ip_whitelist
whitelists action none = false
whitelists action (some r) = is_allow action && is_ip_whitelist r.phase

pub data UrlMatchType : Type 0 where
  exact prefix contains suffix : UrlMatchType

pub record UrlRule : Type 0 where
  pub id : String
  pub pattern : String
  pub match_type : UrlMatchType

unfoldable pub matches_as : UrlMatchType → String → String → Bool
matches_as exact pattern path = pattern == path
matches_as prefix pattern path = starts_with path pattern
matches_as contains pattern path = has_text path pattern
matches_as suffix pattern path = ends_with path pattern

abbrev or_else : Option String → Option String → Option String
or_else none next = next
or_else (some id) next = some id

-- The id of the first rule that matches.
unfoldable pub find_rule : List UrlRule → String → Option String
unfolding matches_as
find_rule [] path = none
find_rule (r ∷ rs) path =
    let rest = find_rule rs path in
    if matches_as r.match_type r.pattern path then some r.id else rest

abbrev rules_of : Option (List UrlRule) → List UrlRule
rules_of none = []
rules_of (some rs) = rs

-- `UrlRuleSet::matches`.
unfoldable pub url_matches : Map String (List UrlRule) → String → String → Option String
unfolding find_rule
url_matches entries host_code path =
    or_else (find_rule (rules_of (Map.get host_code entries)) path)
      (find_rule (rules_of (Map.get "*" entries)) path)

pub record Libraries : Type 1 where
  pub IpNet : Type 0
  pub contains_ip : IpNet → String → Bool
  pub Geo : Type 0

module _ (lib : Libraries) where
  pub record RequestCtx : Type 0 where
    pub client_ip : String
    pub method : String
    pub host : String
    pub path : String
    pub query : String
    pub host_code : String
    pub guard_status : Bool
    pub log_only_mode : Bool
    pub geo : Option lib.Geo

  pub record RuleStore : Type 0 where
    pub allow_ips : Map String (List lib.IpNet)
    pub block_ips : Map String (List lib.IpNet)
    pub allow_urls : Map String (List UrlRule)
    pub block_urls : Map String (List UrlRule)

  abbrev pub has_net : Option (List lib.IpNet) → String → Bool
  has_net none ip = false
  has_net (some nets) ip = any (λ n. lib.contains_ip n ip) nets

  -- `IpRuleSet::matches`.
  unfoldable pub ip_matches : Map String (List lib.IpNet) → String → String → Bool
  ip_matches entries host_code ip =
      has_net (Map.get host_code entries) ip || has_net (Map.get "*" entries) ip

  abbrev found : Option String → String → Phase → String → DetectionResult
  found id name phase detail = record {
    rule_id = id;
    rule_name = name;
    phase = phase;
    detail = detail;
  }

  unfoldable pub check_ip_whitelist : RequestCtx → RuleStore → WafDecision
  unfolding ip_matches
  check_ip_whitelist ctx store =
      if ip_matches store.allow_ips ctx.host_code ctx.client_ip
      then record {
        action = allow_action;
        result = some (
            found none "IP Whitelist" ip_whitelist
              ("IP " ++ ctx.client_ip ++ " matched whitelist"));
      }
      else allow

  unfoldable pub check_ip_blacklist : RequestCtx → RuleStore → WafDecision
  unfolding ip_matches
  check_ip_blacklist ctx store =
      if ip_matches store.block_ips ctx.host_code ctx.client_ip
      then block 403 (some "Access denied.")
          (found none "IP Blacklist" ip_blacklist ("IP " ++ ctx.client_ip ++ " matched blacklist"))
      else allow

  abbrev pub url_allowed : RequestCtx → Option String → Option WafDecision
  url_allowed ctx none = none
  url_allowed ctx (some id) = some (record {
    action = allow_action;
    result = some (
        found (some id) "URL Whitelist" url_whitelist
          ("Path " ++ ctx.path ++ " matched URL whitelist"));
  })

  unfoldable pub check_url_whitelist : RequestCtx → RuleStore → Option WafDecision
  unfolding url_matches
  check_url_whitelist ctx store =
      url_allowed ctx (url_matches store.allow_urls ctx.host_code ctx.path)

  abbrev pub url_blocked : RequestCtx → Option String → WafDecision
  url_blocked ctx none = allow
  url_blocked ctx (some id) = block 403 (some "Access denied.") (
      found (some id) "URL Blacklist" url_blacklist
        ("Path " ++ ctx.path ++ " matched URL blacklist"))

  unfoldable pub check_url_blacklist : RequestCtx → RuleStore → WafDecision
  unfolding url_matches
  check_url_blacklist ctx store =
      url_blocked ctx (url_matches store.block_urls ctx.host_code ctx.path)
