-- ===== src/Cluster/Node/Rounds.antt =====
-- One round of the election loop.
use waf.Base.{
  ℕ, ◌<◌, ◌≡◌, ◌≢◌, true, ◌&&◌, ◌*◌, none, some, List, [], ◌∷◌, arith, ltb, if◌then◌else◌,
}
use waf.Base.Float.{Float}
use waf.Cluster.Protocol.{NodeRole, ClusterMessage}
use waf.Cluster.Election.{is_majority, vote_count_for_term, voter_ids_for_term}
use waf.Cluster.Node.{
  PeerInfo, NodeState, promoted, check_main_is_dead, total_nodes, begin_round, end_round,
}

module _ {fl : Float} where
  check_main_is_dead-peers :
      (now : ℕ) (n : NodeState fl) (ps : List PeerInfo)
      → n.peers ≡ ps
      → check_main_is_dead now n ≡ true
      → 1 < total_nodes n
  unfolding check_main_is_dead total_nodes
  check_main_is_dead-peers now n [] e h = ground arith
  check_main_is_dead-peers now n (p ∷ ps) e h = ground arith

  -- No round of the loop promotes a node without a vote: a node that knows no peer finds no dead
  -- main either, so the case of a cluster of one node is never reached.
  pub begin_round-ne-promoted : (now : ℕ) (n m : NodeState fl) → begin_round now n ≢ promoted m
  unfolding begin_round
  begin_round-ne-promoted now n m e = ground (arith, check_main_is_dead-peers now n n.peers)

  -- At the end of its round a node is the main and announces the term with its voters, when more
  -- than half of a cluster that is not empty voted for it, and else it is a worker and says
  -- nothing.
  pub end_round_lem :
      (term total : ℕ) (n : NodeState fl)
      → ((end_round term total n).0.role ≡ (
          if ltb 0 total && ltb total (vote_count_for_term term n.election * 2)
          then NodeRole.main
          else NodeRole.worker))
        × ((end_round term total n).1 ≡ (
            if ltb 0 total && ltb total (vote_count_for_term term n.election * 2)
            then some (
                ClusterMessage.result (record {
                  term = term;
                  elected_id = n.node_id;
                  voter_ids = voter_ids_for_term term n.election;
                }))
            else none))
  unfolding end_round is_majority
  end_round_lem term total n = (ground arith, ground arith)
