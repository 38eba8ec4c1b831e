-- ===== src/Access/Order.antt =====
-- The order of the access lists' stages.
use waf.Base.{◌≡◌, ◌↔◌, true, not, ◌&&◌, ◌||◌, String, arith}
use waf.Tier.{Tier}
use waf.Access.{
  AccessLists, full_bypass, is_allowed, tier_mode, on_whitelist, evaluate, translate, evaluate_gate,
  bypass, refuse,
}

-- The gate refuses exactly the requests whose host is not allowed or whose address is on the
-- blacklist, whatever the whitelist holds, and none in a dry run; it lets the engine be skipped
-- exactly for the others that are on the whitelist of a tier in full bypass.
pub evaluate_gate_lem :
    (lists : AccessLists) (host ip : String) (tier : Tier)
    → ((evaluate_gate lists host ip tier ≡ refuse 403) ↔ (
        (not (is_allowed tier host lists.host_gate) || lists.ip_blacklist ip) && not lists.dry_run
        ≡ true))
      × ((evaluate_gate lists host ip tier ≡ bypass) ↔ (
          (is_allowed tier host lists.host_gate
              && not (lists.ip_blacklist ip)
              && lists.ip_whitelist ip
            ≡ true)
          × (tier_mode tier lists ≡ full_bypass)))
unfolding evaluate_gate evaluate translate on_whitelist
evaluate_gate_lem lists host ip tier = ground arith
