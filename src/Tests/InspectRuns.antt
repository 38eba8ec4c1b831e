-- ===== src/Tests/InspectRuns.antt =====
-- The inspection of requests at concrete lists and phases.
use waf.Base.{ℕ, ◌+◌, ◌≡◌, refl, Bool, true, false, String, none, some, [], ◌∷◌}
use waf.Base.Keys.{string_eq, ◌==◌}
use waf.Base.Map
use waf.Inspect.{
  DetectionResult, ddos, Libraries, ip_matches, url_matches, RequestCtx, RuleStore, is_allowed,
}
use waf.Inspect.Phases.{Setup, Check, Checks, inspect}
use waf.Inspect.Recorded.{HasRow, inspect-logged}
use waf.Inspect.Refused.{refused}

abbrev libs : Libraries
libs = record { IpNet = String; contains_ip = λ net ip. net == ip; Geo = String }

abbrev setup : Setup libs
setup = record {
  render_block_page = λ ctx rule_name. rule_name;
  community_reporter = false;
  audit_sender = true;
}

-- The state counts the phases that have run.
abbrev silent : Check libs ℕ setup
silent ctx s = (s + 1, none)

abbrev burst : DetectionResult
burst = record { rule_id = none; rule_name = "burst"; phase = ddos; detail = "" }

abbrev loud : Check libs ℕ setup
loud ctx s = (s + 1, some burst)

abbrev checks : Checks libs ℕ setup
checks = record {
  geoip = some (λ ip. "nowhere");
  ddos_check = silent;
  crowdsec_checker = none;
  community_checker = some silent;
  geo_check = silent;
  checkers = silent ∷ loud ∷ silent ∷ [];
  sqli_check = silent;
  appsec_client = none;
  custom_rules = silent;
  owasp = silent;
  sensitive = silent;
  hotlink = silent;
}

abbrev store : RuleStore libs
store = record {
  allow_ips = [];
  block_ips = ("*", "6.6.6.6" ∷ []) ∷ [];
  allow_urls = [];
  block_urls = [];
}

abbrev request : String → Bool → RequestCtx libs
request client_ip log_only_mode = record {
  client_ip = client_ip;
  method = "GET";
  host = "shop.example";
  path = "/";
  query = "";
  host_code = "shop";
  guard_status = true;
  log_only_mode = log_only_mode;
  geo = none;
}

refused_by_checker :
    is_allowed (inspect libs ℕ setup checks store (request "1.1.1.1" false) 0).decision ≡ false
unfolding inspect is_allowed Map.get
refused_by_checker = refl

-- The phases after the checker that detects something do not run.
phases_run : (inspect libs ℕ setup checks store (request "1.1.1.1" false) 0).state ≡ 5
unfolding inspect Map.get
phases_run = refl

inspect-logged_example :
    HasRow libs ℕ setup
      (request "1.1.1.1" false)
      (inspect libs ℕ setup checks store (request "1.1.1.1" false) 0)
inspect-logged_example =
    inspect-logged libs ℕ setup checks store (request "1.1.1.1" false) 0 refused_by_checker

on_blacklist : refused libs ℕ setup store (request "6.6.6.6" true) ≡ true
unfolding ip_matches url_matches Map.get
on_blacklist = refl
