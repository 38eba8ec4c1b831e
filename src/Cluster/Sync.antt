-- ===== src/Cluster/Sync.antt =====
-- crates/waf-cluster/src/sync/rules.rs: the changelog of the main, its answers to a worker, and
-- what the worker does with them. serde_json and lz4 are the parameter `Codec`.
pub mod History
pub mod Delta
pub mod Apply
use waf.Base.{
  ℕ, ◌+◌, ◌≡◌, Bool, true, false, String, Option, none, some, List, [], ◌∷◌, ◌++◌, map, ltb, leb,
  length, select, drop, if◌then◌else◌,
}
use waf.Base.Words.{wrap_u64}
use waf.Rules.Registry
use waf.Rules.Registry.{Rule, RuleRegistry}
use waf.Cluster.Protocol.{
  ChangeOp, upsert, delete, RuleChange, SyncType, incremental, full, RuleSyncResponse,
}

-- `serde_json::to_value` and `from_value` of a rule, and a rule list as compressed JSON: each may
-- fail. `no_bytes` is the empty vector.
pub record Codec : Type 1 where
  pub Json : Type 0
  pub Bytes : Type 0
  pub to_value : Rule → Option Json
  pub from_value : Json → Option Rule
  pub snapshot_rules : List Rule → Option Bytes
  pub restore_snapshot : Bytes → Option (List Rule)
  pub no_bytes : Bytes

-- What is written is read back.
pub record CodecLaws (c : Codec) : Type 0 where
  pub value_roundtrip : (r : Rule) (j : c.Json) → c.to_value r ≡ some j → c.from_value j ≡ some r
  pub snapshot_roundtrip :
      (rs : List Rule) (b : c.Bytes) → c.snapshot_rules rs ≡ some b → c.restore_snapshot b ≡ some rs

pub record RuleChangelog (Json : Type 0) : Type 0 where
  pub changes : List (ℕ × RuleChange Json)
  pub max_retained : ℕ
  pub current_version : ℕ

abbrev first_version {ℓ} : {A : Type ℓ} → List (ℕ × A) → ℕ
first_version [] = 0
first_version ((v, _) ∷ _) = v

module _ {Json : Type 0} where
  unfoldable pub new : ℕ → RuleChangelog Json
  new max_retained = record { changes = []; max_retained = max_retained; current_version = 0 }

  -- `pop_front` on an empty buffer does nothing.
  unfoldable pub push : ℕ → RuleChange Json → RuleChangelog Json → RuleChangelog Json
  push version change l =
      let kept = if leb l.max_retained (length l.changes) then drop 1 l.changes else l.changes in
      record l { changes = kept ++ (version, change) ∷ [] }

  -- `record_change` from the built change on.
  unfoldable pub append : RuleChange Json → RuleChangelog Json → RuleChangelog Json
  unfolding push
  append change l =
      let version = wrap_u64 (l.current_version + 1) in
      push version change (record l { current_version = version })

  unfoldable pub delta_since : ℕ → RuleChangelog Json → Option (List (RuleChange Json))
  delta_since from_version l = elim l.changes [
    | [] ↦ some []
    | c ∷ cs ↦
        if ltb from_version (first_version (c ∷ cs))
        then none
        else some (map (λ e. e.1) (select (λ e. ltb from_version e.0) (c ∷ cs)))
  ]

module _ (c : Codec) where
  unfoldable pub record_change :
      ChangeOp → String → Option Rule → RuleChangelog c.Json → RuleChangelog c.Json
  unfolding append
  record_change op rule_id rule l =
      let json : Option c.Json = elim rule [ none ↦ none | some r ↦ c.to_value r ] in
      append (record { op = op; rule_id = rule_id; rule_json = json }) l

  unfoldable pub build_response : ℕ → RuleChangelog c.Json → RuleSyncResponse c.Json c.Bytes
  build_response from_version l = elim (delta_since from_version l) [
    | none ↦ record {
      version = l.current_version;
      sync_type = full;
      changes = [];
      snapshot_lz4 = c.no_bytes;
    }
    | some cs ↦ record {
      version = l.current_version;
      sync_type = incremental;
      changes = cs;
      snapshot_lz4 = c.no_bytes;
    }
  ]

  fill_snapshot :
      SyncType
      → List Rule
      → RuleSyncResponse c.Json c.Bytes
      → Option (RuleSyncResponse c.Json c.Bytes)
  fill_snapshot incremental rules r = some r
  fill_snapshot full rules r = elim (c.snapshot_rules rules) [
    | none ↦ none
    | some b ↦ some (record r { snapshot_lz4 = b })
  ]

  unfoldable pub handle_sync_request :
      RuleChangelog c.Json → ℕ → List Rule → Option (RuleSyncResponse c.Json c.Bytes)
  unfolding build_response fill_snapshot
  handle_sync_request l current_version rules =
      let r = build_response current_version l in fill_snapshot r.sync_type rules r

  -- One change at the worker; `false` is a value that does not parse, which ends the loop and
  -- leaves the changes before it applied.
  unfoldable pub apply_change : RuleChange c.Json → RuleRegistry → RuleRegistry × Bool
  apply_change change g = elim change.op [
    | delete ↦ ((Registry.remove change.rule_id g).0, true)
    | upsert ↦ elim change.rule_json [
      | none ↦ (g, true)
      | some j ↦ elim (c.from_value j) [
        | none ↦ (g, false)
        | some rule ↦ (Registry.insert rule g, true)
      ]
    ]
  ]

  unfoldable pub apply_rule_changes : List (RuleChange c.Json) → RuleRegistry → RuleRegistry × Bool
  apply_rule_changes [] g = (g, true)
  apply_rule_changes (change ∷ cs) g =
      let (g', ok) = apply_change change g in
      let rest = apply_rule_changes cs g' in if ok then rest else (g', false)

  unfoldable pub insert_all : List Rule → RuleRegistry → RuleRegistry
  insert_all [] g = g
  insert_all (r ∷ rs) g = insert_all rs (Registry.insert r g)

  unfoldable pub apply_full_snapshot : c.Bytes → RuleRegistry → RuleRegistry × Bool
  unfolding insert_all
  apply_full_snapshot b g = elim (c.restore_snapshot b) [
    | none ↦ (g, false)
    | some rules ↦ (insert_all rules (Registry.clear g), true)
  ]

  apply_response : SyncType → RuleSyncResponse c.Json c.Bytes → RuleRegistry → RuleRegistry × Bool
  unfolding apply_full_snapshot
  apply_response incremental r g = apply_rule_changes r.changes g
  apply_response full r g = apply_full_snapshot r.snapshot_lz4 g

  -- `apply_sync_response`, before the reloader is told: the version is set only on success.
  unfoldable pub apply_sync_response :
      RuleSyncResponse c.Json c.Bytes → RuleRegistry → RuleRegistry × Bool
  unfolding apply_response
  apply_sync_response r g =
      let (g', ok) = apply_response r.sync_type r g in
      if ok then (record g' { version = r.version }, true) else (g', false)
