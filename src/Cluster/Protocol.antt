-- ===== src/Cluster/Protocol.antt =====
-- crates/waf-cluster/src/protocol.rs: the messages of the election, and the role of a node
-- (crates/waf-common/src/config.rs). The messages of joining, configuration, events and the
-- forwarded API are left out.
use waf.Base.{ℕ, String, Option, List}

pub data NodeRole : Type 0 where
  main worker candidate : NodeRole

pub record ElectionVote : Type 0 where
  pub term : ℕ
  pub candidate_id : String
  pub last_log_index : ℕ
  pub voter_id : Option String

pub record ElectionResult : Type 0 where
  pub term : ℕ
  pub elected_id : String
  pub voter_ids : List String

-- What the election and the failure detector read of a heartbeat.
pub record Heartbeat : Type 0 where
  pub node_id : String
  pub role : NodeRole

pub data ClusterMessage : Type 0 where
  heartbeat : Heartbeat → ClusterMessage
  vote : ElectionVote → ClusterMessage
  result : ElectionResult → ClusterMessage
  node_leave : String → ClusterMessage

-- The rule synchronisation. `Json` and `Bytes` are serde_json values and lz4 blobs.
pub data ChangeOp : Type 0 where
  upsert delete : ChangeOp

pub record RuleChange (Json : Type 0) : Type 0 where
  pub op : ChangeOp
  pub rule_id : String
  pub rule_json : Option Json

pub data SyncType : Type 0 where
  incremental full : SyncType

pub record RuleSyncResponse (Json Bytes : Type 0) : Type 0 where
  pub version : ℕ
  pub sync_type : SyncType
  pub changes : List (RuleChange Json)
  pub snapshot_lz4 : Bytes
