-- ===== src/Access.antt =====
-- crates/waf-engine/src/access and crates/gateway/src/pipeline/access_phase.rs: the host gate, the
-- evaluator of the access lists and the gate of the gateway. The CIDR table (`ip_network_table`) is
-- a parameter: whether it holds an address. Its entry point is `evaluate_gate`.
pub mod Order
use waf.Base.{
  ℕ, ◌≡◌, Bool, true, false, not, String, Option, none, some, List, [], ◌∷◌, if◌then◌else◌,
}
use waf.Base.Keys.{string_eq}
use waf.Base.Text.{trim, to_ascii_lowercase, before}
use waf.Base.Map
use waf.Base.Map.{Map, contains, set_insert}
use waf.Tier.{Tier, critical, high, medium, catch_all, tier_eq}

pub record HostGate : Type 0 where
  pub critical : List String
  pub high : List String
  pub medium : List String
  pub catch_all : List String

unfoldable pub new : HostGate
new = record { critical = []; high = []; medium = []; catch_all = [] }

unfoldable pub set_of : Tier → HostGate → List String
set_of critical g = g.critical
set_of high g = g.high
set_of medium g = g.medium
set_of catch_all g = g.catch_all

unfoldable pub insert : Tier → String → HostGate → HostGate
insert critical host g = record g {
  critical = (set_insert (to_ascii_lowercase (trim host)) g.critical).0;
}
insert high host g = record g { high = (set_insert (to_ascii_lowercase (trim host)) g.high).0 }
insert medium host g = record g {
  medium = (set_insert (to_ascii_lowercase (trim host)) g.medium).0;
}
insert catch_all host g = record g {
  catch_all = (set_insert (to_ascii_lowercase (trim host)) g.catch_all).0;
}

-- The host header without what follows its first colon (code 58), trimmed and lowered.
unfoldable pub normal_host : String → String
normal_host host_header = to_ascii_lowercase (trim (before 58 host_header))

unfoldable pub allowed_by : List String → String → Bool
unfolding normal_host
allowed_by [] host_header = true
allowed_by (h ∷ hs) host_header = contains (normal_host host_header) (h ∷ hs)

unfoldable pub is_allowed : Tier → String → HostGate → Bool
unfolding set_of allowed_by
is_allowed tier host_header g = allowed_by (set_of tier g) host_header

pub data WhitelistMode : Type 0 where
  full_bypass blacklist_only : WhitelistMode

-- `AccessLists` with the tables as their membership tests; an address is its text.
pub record AccessLists : Type 0 where
  pub dry_run : Bool
  pub tier_whitelist_mode : Map Tier WhitelistMode
  pub ip_whitelist : String → Bool
  pub ip_blacklist : String → Bool
  pub host_gate : HostGate

pub data BlockReason : Type 0 where
  host_gate ip_blacklist : BlockReason

pub data AccessDecision : Type 0 where
  continue : AccessDecision
  bypass_all : String → AccessDecision
  block : BlockReason → String → Bool → ℕ → AccessDecision

pub record AccessRequestView : Type 0 where
  pub client_ip : String
  pub host : String
  pub tier : Tier

unfoldable pub mode_or_default : Option WhitelistMode → WhitelistMode
mode_or_default none = blacklist_only
mode_or_default (some m) = m

unfoldable pub tier_mode : Tier → AccessLists → WhitelistMode
unfolding mode_or_default
tier_mode tier lists = mode_or_default (Map.get tier lists.tier_whitelist_mode)

unfoldable pub on_whitelist : WhitelistMode → String → AccessDecision
on_whitelist full_bypass ip = bypass_all ip
on_whitelist blacklist_only ip = continue

unfoldable pub evaluate : AccessLists → AccessRequestView → AccessDecision
unfolding is_allowed tier_mode on_whitelist
evaluate lists view =
    if not (is_allowed view.tier view.host lists.host_gate)
    then block host_gate view.host lists.dry_run 403
    else if lists.ip_blacklist view.client_ip
    then block ip_blacklist view.client_ip lists.dry_run 403
    else if lists.ip_whitelist view.client_ip
    then on_whitelist (tier_mode view.tier lists) view.client_ip
    else continue

pub data AccessGateOutcome : Type 0 where
  proceed bypass : AccessGateOutcome
  refuse : ℕ → AccessGateOutcome

unfoldable pub translate : AccessDecision → AccessGateOutcome
translate continue = proceed
translate (bypass_all _) = bypass
translate (block _ _ dry_run status) = if dry_run then proceed else refuse status

-- `AccessPhaseGate::evaluate` on the snapshot that is live.
unfoldable pub evaluate_gate : AccessLists → String → String → Tier → AccessGateOutcome
unfolding evaluate translate
evaluate_gate lists host peer_ip tier =
    translate (evaluate lists (record { client_ip = peer_ip; host = host; tier = tier }))
