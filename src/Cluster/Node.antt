-- ===== src/Cluster/Node.antt =====
-- crates/waf-cluster/src/node.rs, the heartbeat handler of transport/server.rs and
-- transport/client.rs, the eviction task of health/mod.rs and the election loop of
-- election/mod.rs: the state of one node and what its tasks do to it. Addresses, keys, channels
-- and the waits between the parts of a task are left out.
pub mod Peers
pub mod Rounds
use waf.Base.{
  ℕ, ◌+◌, ◌≤◌, ◌≡◌, Bool, true, false, not, String, Option, none, some, List, [], ◌∷◌, ◌++◌, map,
  ltb, leb, length, select, any, if◌then◌else◌,
}
use waf.Base.Keys.{◌==◌, string_eq}
use waf.Base.Float.{Float}
use waf.Base.Words.{wrap_u64}
use waf.Cluster.Protocol.{NodeRole, ClusterMessage, ElectionVote, ElectionResult, Heartbeat}
use waf.Cluster.Election.{
  ElectionManager, increment_term_and_vote_for_self, process_vote, process_result,
  record_vote_for_me, vote_count_for_term, voter_ids_for_term, is_majority, is_valid_term,
}
use waf.Cluster.Detector.{HeartbeatTracker, track, untrack, is_peer_dead}

pub record PeerInfo : Type 0 where
  pub node_id : String
  pub role : NodeRole
  pub last_seen_ms : ℕ

pub record NodeState (fl : Float) : Type 0 where
  pub node_id : String
  pub role : NodeRole
  pub peers : List PeerInfo
  pub rules_version : ℕ
  pub election : ElectionManager
  pub heartbeat_tracker : HeartbeatTracker fl

unfoldable pub is_main : NodeRole → Bool
is_main NodeRole.main = true
is_main NodeRole.worker = false
is_main NodeRole.candidate = false

unfoldable pub is_worker : NodeRole → Bool
is_worker NodeRole.main = false
is_worker NodeRole.worker = true
is_worker NodeRole.candidate = false

-- The first peer with the role of a main.
unfoldable pub find_main : List PeerInfo → Option String
unfolding is_main
find_main [] = none
find_main (p ∷ ps) = let rest = find_main ps in if is_main p.role then some p.node_id else rest

-- The first entry with the id takes the new values; without one the peer is added at the end.
unfoldable pub upsert : PeerInfo → List PeerInfo → List PeerInfo
upsert q [] = q ∷ []
upsert q (p ∷ ps) = let rest = upsert q ps in if p.node_id == q.node_id then q ∷ ps else p ∷ rest

unfoldable pub without : String → List PeerInfo → List PeerInfo
without id ps = select (λ p. not (p.node_id == id)) ps

module _ {fl : Float} where
  unfoldable pub transition_to : NodeRole → NodeState fl → NodeState fl
  transition_to role n = record n { role = role }

  unfoldable pub promote_to_main : NodeState fl → NodeState fl
  unfolding transition_to
  promote_to_main n = transition_to NodeRole.main n

  unfoldable pub demote_to_worker : NodeState fl → NodeState fl
  unfolding transition_to is_worker
  demote_to_worker n = if is_worker n.role then n else transition_to NodeRole.worker n

  unfoldable pub fencing_check : ℕ → NodeState fl → Bool
  fencing_check incoming n = is_valid_term incoming n.election

  unfoldable pub total_nodes : NodeState fl → ℕ
  total_nodes n = length n.peers + 1

  unfoldable pub add_or_update_peer : PeerInfo → NodeState fl → NodeState fl
  unfolding upsert
  add_or_update_peer p n = record n { peers = upsert p n.peers }

  unfoldable pub remove_peer : String → NodeState fl → NodeState fl × Bool
  unfolding without
  remove_peer id n =
      let peers = without id n.peers in
      (record n { peers = peers }, ltb (length peers) (length n.peers))

  -- `ClusterMessage::Heartbeat` at either end of a connection.
  unfoldable pub receive_heartbeat : Heartbeat → ℕ → NodeState fl → NodeState fl
  unfolding upsert
  receive_heartbeat hb now n = record n {
    peers = upsert (record { node_id = hb.node_id; role = hb.role; last_seen_ms = now }) n.peers;
    heartbeat_tracker = track fl hb.node_id now n.heartbeat_tracker;
  }

  -- `ClusterMessage::ElectionVote` and `ElectionResult` at a server, with the reply.
  unfoldable pub serve_vote : ElectionVote → NodeState fl → NodeState fl × Option ClusterMessage
  serve_vote v n = elim v.voter_id [
    | some _ ↦ (n, none)
    | none ↦
        let (e, granted) = process_vote v n.election in
        (
          record n { election = e },
          if granted
              then some (ClusterMessage.vote (record v { voter_id = some n.node_id }))
              else none,
        )
  ]

  unfoldable pub receive_result : ElectionResult → NodeState fl → NodeState fl
  unfolding transition_to
  receive_result r n =
      let (e, role) = process_result r n.election in transition_to role (record n { election = e })

  -- One tick of `run_peer_eviction`: the dead peers are chosen first, and then removed one by one.
  unfoldable pub evict : List String → NodeState fl → NodeState fl
  unfolding remove_peer
  evict [] n = n
  evict (id ∷ ids) n =
      let m = (remove_peer id n).0 in
      evict ids (record m { heartbeat_tracker = untrack fl id m.heartbeat_tracker })

  unfoldable pub dead_peers : ℕ → NodeState fl → List String
  dead_peers now n =
      select (λ id. is_peer_dead fl id now n.heartbeat_tracker) (map (λ p. p.node_id) n.peers)

  unfoldable pub eviction_tick : ℕ → NodeState fl → NodeState fl
  unfolding evict dead_peers
  eviction_tick now n = evict (dead_peers now n) n

  unfoldable pub check_main_is_dead : ℕ → NodeState fl → Bool
  unfolding find_main
  check_main_is_dead now n = elim (find_main n.peers) [
    | none ↦ ltb 0 (length n.peers)
    | some id ↦ is_peer_dead fl id now n.heartbeat_tracker
  ]

-- Where a round of `run_election_loop` stands when it next waits.
pub data Round (fl : Float) : Type 0 where
  idle : Round fl
  promoted : NodeState fl → Round fl
  campaign : NodeState fl → ℕ → ℕ → ClusterMessage → Round fl

module _ {fl : Float} where
  -- Up to the wait for the votes: nothing, a promotion without a vote, or a campaign with its
  -- term, the size of the cluster and the request that is broadcast.
  unfoldable pub begin_round : ℕ → NodeState fl → Round fl
  unfolding transition_to promote_to_main check_main_is_dead total_nodes is_main
  begin_round now n =
      if is_main n.role
      then idle
      else if not (check_main_is_dead now n)
      then idle
      else if leb (total_nodes n) 1
      then promoted (promote_to_main n)
      else let c = transition_to NodeRole.candidate n in
        let (e, new_term) = increment_term_and_vote_for_self c.election in
        campaign (record c { election = e }) new_term (total_nodes n)
          (ClusterMessage.vote (record {
            term = new_term;
            candidate_id = n.node_id;
            last_log_index = n.rules_version;
            voter_id = none;
          }))

  -- After the wait: the main with a majority tells its peers, and another steps back.
  unfoldable pub end_round : ℕ → ℕ → NodeState fl → NodeState fl × Option ClusterMessage
  unfolding promote_to_main demote_to_worker
  end_round new_term total n =
      if is_majority (vote_count_for_term new_term n.election) total
      then (
        promote_to_main n,
        some (
            ClusterMessage.result (record {
              term = new_term;
              elected_id = n.node_id;
              voter_ids = voter_ids_for_term new_term n.election;
            })),
      )
      else (demote_to_worker n, none)
