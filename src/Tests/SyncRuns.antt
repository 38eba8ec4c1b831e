-- ===== src/Tests/SyncRuns.antt =====
-- A worker that follows a main through a delta and a snapshot.
use waf.Base.{◌≡◌, refl, true, none, some, List, [], ◌∷◌, arith, drop, take}
use waf.Base.Keys.{string_eq}
use waf.Base.Map
use waf.Rules.Registry
use waf.Rules.Registry.{Rule, RuleRegistry}
use waf.Cluster.Protocol.{upsert, delete, RuleChange, incremental, full, RuleSyncResponse}
use waf.Cluster.Sync
use waf.Cluster.Sync.{
  RuleChangelog, delta_since, handle_sync_request, apply_rule_changes, apply_sync_response,
}
use waf.Cluster.Sync.History.{append_all}
use waf.Cluster.Sync.Delta.{delta_since_complete, delta_since_near}
use waf.Cluster.Sync.Apply.{last_of, sync_incremental, sync_full}
use waf.Tests.{plain, plain_laws}

abbrev first_rule : Rule
first_rule = record { id = "r1"; category = "sqli"; source = "owasp"; enabled = true; text = "" }

abbrev second_rule : Rule
second_rule = record { id = "r2"; category = "xss"; source = "custom"; enabled = true; text = "" }

abbrev history : List (RuleChange Rule)
history =
    record { op = upsert; rule_id = "r1"; rule_json = some first_rule }
    ∷ record { op = upsert; rule_id = "r2"; rule_json = some second_rule }
    ∷ record { op = delete; rule_id = "r1"; rule_json = none }
    ∷ []

abbrev log : RuleChangelog Rule
log = append_all history (Sync.new 2)

delta_since_complete_example : drop 1 history ≡ drop 1 history
unfolding append_all delta_since Sync.new Sync.append Sync.push
delta_since_complete_example = delta_since_complete 3 1 history (drop 1 history) (omega arith) refl

delta_since_near_example : delta_since 2 log ≡ some (drop 2 history)
delta_since_near_example = delta_since_near 2 2 history (omega arith) (omega arith) (omega arith)

abbrev delta : RuleSyncResponse Rule (List Rule)
delta = record { version = 3; sync_type = incremental; changes = drop 1 history; snapshot_lz4 = [] }

sync_incremental_example :
    apply_sync_response plain delta (apply_rule_changes plain (take 1 history) Registry.new).0
    ≡ (record (apply_rule_changes plain history Registry.new).0 { version = 3 }, true)
unfolding append_all delta_since handle_sync_request apply_rule_changes Sync.new Sync.append
    Sync.push Sync.build_response Sync.apply_change
sync_incremental_example =
    sync_incremental plain 3 1 history [] Registry.new delta (omega arith) refl refl refl

abbrev rules : List Rule
rules = first_rule ∷ second_rule ∷ []

abbrev snapshot : RuleSyncResponse Rule (List Rule)
snapshot = record { version = 3; sync_type = full; changes = []; snapshot_lz4 = rules }

sync_full_example :
    (Map.get "r2" (apply_sync_response plain snapshot Registry.new).0.rules
      ≡ last_of plain "r2" rules none)
    × ((apply_sync_response plain snapshot Registry.new).0.version ≡ log.current_version)
    × ((apply_sync_response plain snapshot Registry.new).1 ≡ true)
unfolding append_all delta_since handle_sync_request Sync.new Sync.append Sync.push
    Sync.build_response
sync_full_example = sync_full plain plain_laws log 0 rules snapshot Registry.new "r2" refl refl
