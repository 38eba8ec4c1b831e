-- ===== src/Cluster/Election/Race.antt =====
-- `process_vote` and `increment_term_and_vote_for_self` interleaved on one node: the handler of
-- a vote request reads the term and gives its lock back before it writes.
use waf.Base.{ℕ, ◌+◌, ◌^◌, ◌<◌, ◌≡◌, ◌≢◌, sym, ◌∙◌, leb, true, false, String, arith}
use waf.Base.Keys.{string_eq, nat_eq, eq_refl}
use waf.Base.Map
use waf.Base.Map.{contains, set_insert, contains-set_insert}
use waf.Base.Words.{wrap_u64}
use waf.Cluster.Election.Terms.{increment_lem}
use waf.Cluster.Election.Buckets.{voters_of-add_voter}
use waf.Cluster.Protocol.{ElectionVote}
use waf.Cluster.Election.{
  ElectionManager, increment_term_and_vote_for_self, process_vote_after, process_vote, voters_of,
}

-- The node has counted its own vote for the term that it has just begun.
own_vote_counted :
    (m : ElectionManager)
    → contains m.node_id (
        voters_of
          (increment_term_and_vote_for_self m).1
          (increment_term_and_vote_for_self m).0.votes_for_me)
      ≡ true
unfolding increment_term_and_vote_for_self
own_vote_counted m =
    let n = wrap_u64 (m.term + 1) in
    let votes = Map.retain (λ t _. leb n t) m.votes_for_me in
    ground (
      arith,
      voters_of-add_voter n n m.node_id m.node_id votes,
      eq_refl {K = ℕ} n,
      eq_refl {K = String} m.node_id,
    )

-- A node whose election loop begins a term, after the handler of a request for that same term has
-- read the old one, votes twice in it: its own vote is counted, and the handler grants the vote
-- of the other candidate. Run one after the other, the same two calls refuse that vote.
pub process_vote_race :
    (m : ElectionManager) (v : ElectionVote)
    → m.term + 1 < 2 ^ 64
    → v.term ≡ m.term + 1
    → v.candidate_id ≢ m.node_id
    → let n = (increment_term_and_vote_for_self m).0 in
      (contains m.node_id (voters_of v.term n.votes_for_me) ≡ true)
      × ((process_vote_after m.term v n).1 ≡ true)
      × ((process_vote_after m.term v n).0.term ≡ v.term)
      × ((process_vote v n).1 ≡ false)
process_vote_race m v small e other = (
  rw (e ∙ sym (increment_lem m small).0) (own_vote_counted m),
  unfold process_vote_after in ground (arith, eq_refl {K = String} v.candidate_id),
  unfold process_vote_after in ground arith,
  unfold process_vote increment_term_and_vote_for_self in
      ground (arith, string_eq.beq_iff m.node_id v.candidate_id, other),
)
