-- ===== src/Tests/ClusterRuns.antt =====
-- An election among three nodes, and the peers of one node.
use waf.Base.{
  ℕ, ◌≡◌, ◌↔◌, refl, inl, inr, true, false, not, String, none, some, List, [], ◌∷◌, arith, In,
  length, select, drop, ◌-◌,
}
use waf.Base.Keys.{string_eq, nat_eq}
use waf.Base.Map
use waf.Base.Map.{contains, distinct}
use waf.Rules.Registry
use waf.Rules.Registry.{Rule, filter_by_category}
use waf.Rules.Registry.Filter.{Call, inserts, removes, run, filter_by_category_lem}
use waf.Cluster.Protocol.{NodeRole, ElectionVote, ElectionResult, Heartbeat}
use waf.Cluster.Election
use waf.Cluster.Election.{
  ElectionManager, increment_term_and_vote_for_self, process_vote, process_vote_after, voters_of,
}
use waf.Cluster.Election.Race.{process_vote_race}
use waf.Cluster.Detector
use waf.Cluster.Detector.{is_peer_dead}
use waf.Cluster.Detector.Window.{record_all, window-is_latest}
use waf.Cluster.Node.{NodeState, eviction_tick}
use waf.Cluster.Node.Peers.{peers-eviction_tick}
use waf.Cluster.Safety.{
  Cluster, init, start_election, Pending, read_term, serve_vote, receive_grant, announce, Reach,
  here, next, start, request, answer, grant, win, IsUndisturbed,
}
use waf.Cluster.Safety.Unique.{election_safety}
use waf.Tests.{natural}

abbrev members : List String
members = "a" ∷ "b" ∷ "c" ∷ []

abbrev ask : ElectionVote
ask = record { term = 1; candidate_id = "a"; last_log_index = 0; voter_id = none }

abbrev granted : ElectionVote
granted = record { term = 1; candidate_id = "a"; last_log_index = 0; voter_id = some "b" }

abbrev started : Cluster
started = start_election "a" 0 (init 150 300)

-- The handler at the node b.
abbrev handler : Pending
handler = record { node = "b"; vote = ask; current_term = 0 }

abbrev answered : Cluster
answered = serve_vote handler (read_term "b" ask started)

abbrev counted : Cluster
counted = receive_grant "a" granted "b" answered

abbrev elected : ElectionResult
elected = record { term = 1; elected_id = "a"; voter_ids = "b" ∷ "a" ∷ [] }

abbrev announced : Cluster
announced = announce "a" 1 (announce "a" 1 counted)

announced-Reach : Reach members (init 150 300) announced
unfolding init start_election read_term serve_vote receive_grant announce Election.is_majority
    Election.vote_count_for_term Election.record_vote_for_me increment_term_and_vote_for_self
    process_vote Map.contains Map.get Map.insert Map.retain Election.new Election.add_voter
    Map.set_insert
announced-Reach =
    next
      (next
        (next
          (next
            (next (next here (start "a" 0 refl (omega arith) refl))
              (request "b" ask refl (inl refl) refl refl))
            (answer handler refl (inl refl) refl))
          (grant "a" granted "b" refl (inl refl) refl refl))
        (win "a" 1 refl refl refl))
      (win "a" 1 refl refl refl)

announced-IsUndisturbed : IsUndisturbed announced-Reach
unfolding IsUndisturbed announced-Reach init start_election read_term Election.new
announced-IsUndisturbed = (tt, refl)

election_safety_example : elected.elected_id ≡ elected.elected_id
unfolding init start_election read_term serve_vote receive_grant announce
    Election.voter_ids_for_term Election.record_vote_for_me increment_term_and_vote_for_self
    process_vote Map.contains Map.get Map.insert Map.retain Election.new Election.add_voter
    Map.set_insert
election_safety_example =
    election_safety members 150 300 announced announced-Reach announced-IsUndisturbed elected
      elected (inl refl) (inr (inl refl)) refl

abbrev manager : ElectionManager
manager = Election.new "b" 150 300

process_vote_race_example :
    let n = (increment_term_and_vote_for_self manager).0 in
    (contains "b" (voters_of 1 n.votes_for_me) ≡ true)
    × ((process_vote_after 0 ask n).1 ≡ true)
    × ((process_vote_after 0 ask n).0.term ≡ 1)
    × ((process_vote ask n).1 ≡ false)
unfolding Election.new
process_vote_race_example =
    process_vote_race manager ask (omega arith) refl
      (λ e. ground (arith, (string_eq.beq_iff "a" "b").1 e))

abbrev node : NodeState natural
node = record {
  node_id = "b";
  role = NodeRole.worker;
  peers = record { node_id = "a"; role = NodeRole.main; last_seen_ms = 0 } ∷ [];
  rules_version = 0;
  election = manager;
  heartbeat_tracker = record {
    peers = ("a", Detector.new natural "a" 8 12) ∷ [];
    phi_suspect = 8;
    phi_dead = 12;
  };
}

abbrev beat : Heartbeat
beat = record { node_id = "c"; role = NodeRole.worker }

peers-eviction_tick_example :
    (eviction_tick 9 node).peers
    ≡ select (λ p. not (is_peer_dead natural p.node_id 9 node.heartbeat_tracker)) node.peers
peers-eviction_tick_example = peers-eviction_tick 9 node

abbrev times : List ℕ
times = 10 ∷ 20 ∷ 35 ∷ []

window-is_latest_example :
    (record_all natural times (Detector.new natural "a" 8 12)).window
    ≡ drop (length times - 100) times
window-is_latest_example = window-is_latest natural "a" 8 12 times

abbrev sqli : Rule
sqli = record { id = "r1"; category = "sqli"; source = "owasp"; enabled = true; text = "" }

abbrev xss : Rule
xss = record { id = "r1"; category = "xss"; source = "owasp"; enabled = true; text = "" }

abbrev calls : List Call
calls = inserts sqli ∷ inserts xss ∷ removes "r2" ∷ []

filter_by_category_lem_example :
    In xss (filter_by_category "xss" (run calls Registry.new))
    ↔ ((Map.get "r1" (run calls Registry.new).rules ≡ some xss) × (xss.category ≡ "xss"))
filter_by_category_lem_example = filter_by_category_lem calls "xss" xss
