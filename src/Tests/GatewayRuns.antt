-- ===== src/Tests/GatewayRuns.antt =====
-- Tiers, access lists and backends of a small configuration. The regular expressions of the tests
-- are texts that match themselves, and a header map is a list of pairs.
use waf.Base.{
  ◌%◌, ◌≡◌, ◌↔◌, ◌&&◌, ◌||◌, not, refl, true, false, String, none, some, List, [], ◌∷◌, arith,
  get_elem?, length,
}
use waf.Base.Keys.{string_eq, ◌==◌}
use waf.Base.Map
use waf.Tier.{
  critical, high, medium, catch_all, tier_eq, fail_close, no_cache, TierPolicy, TierConfig,
  TierClassifierRule, affix, thresholds_ok, validate, check_policies, check_rules,
}
use waf.Tier.Rule.{Libraries}
use waf.Tier.Classifier
use waf.Tier.Classifier.{
  CompiledTierRule, TierClassifier, RequestParts, with_affix, classify, tier_or, compile_all,
  compile_rule, compile_rules, sort_by_priority,
}
use waf.Tier.Classifier.Priority.{best, classify-best}
use waf.Tier.Snapshot.{TierSnapshot, try_from_config, classify_request, classify_request-policy}
use waf.Access.{AccessLists, full_bypass, is_allowed, tier_mode, evaluate_gate, refuse, bypass}
use waf.Access.Order.{evaluate_gate_lem}
use waf.Balancer
use waf.Balancer.{Backend, LoadBalancer, weighted_round_robin, weighted, tick}
use waf.Balancer.Picks.{expanded, weighted-expanded}

abbrev texts : Libraries
texts = record {
  Regex = String;
  compile = λ s. some s;
  is_match = λ r s. r == s;
  HeaderName = String;
  HeaderValue = String;
  name_from_bytes = λ s. some s;
  value_from_str = λ s. some s;
  HeaderMap = Map.Map String String;
  get_header = λ n m. Map.get n m;
  same_bytes = λ a b. a == b;
}

abbrev low : TierClassifierRule
low = record {
  priority = 1;
  tier = medium;
  host = none;
  path = some (affix "/api");
  method = none;
  headers = none;
}

abbrev top : TierClassifierRule
top = record {
  priority = 9;
  tier = critical;
  host = none;
  path = some (affix "/api/pay");
  method = none;
  headers = none;
}

abbrev compiled : List (CompiledTierRule texts)
compiled =
    record {
      priority = 1;
      tier = medium;
      host = none;
      path = some (with_affix "/api");
      method = none;
      headers = none;
    }
    ∷ record {
      priority = 9;
      tier = critical;
      host = none;
      path = some (with_affix "/api/pay");
      method = none;
      headers = none;
    }
    ∷ []

abbrev classifier : TierClassifier texts
classifier = record { rules = sort_by_priority compiled; default_tier = catch_all }

abbrev parts : RequestParts texts
parts = record { host = "shop"; path = "/api/pay/1"; method = "POST"; headers = [] }

classify-best_example : classify classifier parts ≡ tier_or catch_all (best compiled parts)
unfolding compile_all compile_rules Classifier.new
classify-best_example = classify-best (low ∷ top ∷ []) catch_all compiled classifier parts refl refl

abbrev policy : TierPolicy
policy = record {
  fail_mode = fail_close;
  ddos_threshold_rps = 100;
  cache_policy = no_cache;
  risk_thresholds = record { allow = 30; challenge = 70; block = 90 };
}

abbrev config : TierConfig
config = record {
  default_tier = catch_all;
  classifier_rules = low ∷ top ∷ [];
  policies = (critical, policy) ∷ (high, policy) ∷ (medium, policy) ∷ (catch_all, policy) ∷ [];
}

abbrev snap : TierSnapshot texts
snap = record { classifier = classifier; policies = config.policies }

classify_request-policy_example :
    (p : TierPolicy) × ((classify_request snap parts).1 ≡ some p)
    × (thresholds_ok p.risk_thresholds ≡ true)
unfolding try_from_config validate compile_all compile_rules Classifier.new check_policies
    check_rules Map.get
classify_request-policy_example = classify_request-policy config snap parts refl

abbrev lists : AccessLists
lists = record {
  dry_run = false;
  tier_whitelist_mode = (critical, full_bypass) ∷ [];
  ip_whitelist = λ ip. ip == "10.0.0.1";
  ip_blacklist = λ ip. ip == "10.0.0.1";
  host_gate = record { critical = "shop" ∷ []; high = []; medium = []; catch_all = [] };
}

evaluate_gate_lem_example :
    ((evaluate_gate lists "Shop:443" "10.0.0.1" critical ≡ refuse 403) ↔ (
      (not (is_allowed critical "Shop:443" lists.host_gate) || lists.ip_blacklist "10.0.0.1")
        && not lists.dry_run
      ≡ true))
    × ((evaluate_gate lists "Shop:443" "10.0.0.1" critical ≡ bypass) ↔ (
        (is_allowed critical "Shop:443" lists.host_gate
            && not (lists.ip_blacklist "10.0.0.1")
            && lists.ip_whitelist "10.0.0.1"
          ≡ true)
        × (tier_mode critical lists ≡ full_bypass)))
evaluate_gate_lem_example = evaluate_gate_lem lists "Shop:443" "10.0.0.1" critical

abbrev backends : List Backend
backends = Balancer.new_backend "x" "one" 80 3 ∷ Balancer.new_backend "y" "two" 80 0 ∷ []

abbrev balancer : LoadBalancer
balancer = record { backends = backends; strategy = weighted_round_robin; rr_counter = 7 }

weighted-expanded_example :
    ((weighted backends balancer).1
      ≡ get_elem? (expanded backends) (7 % length (expanded backends)))
    × ((weighted backends balancer).0 ≡ tick balancer)
unfolding Balancer.new_backend
weighted-expanded_example =
    weighted-expanded backends balancer (omega arith) (omega arith) (omega arith)
