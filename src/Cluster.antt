-- ===== src/Cluster.antt =====
-- crates/waf-cluster: the leader election, the failure detector and the rule synchronisation of
-- a cluster of nodes.
pub mod Protocol
pub mod Election
pub mod Detector
pub mod Node
pub mod Safety
pub mod Sync
