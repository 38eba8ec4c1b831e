-- ===== src/Cluster/Election/Terms.antt =====
-- What the methods of `ElectionManager` do to its term, its vote and its vote buckets.
use waf.Base.{ℕ, ◌+◌, ◌^◌, ◌≤◌, ◌<◌, ◌≡◌, refl, true, String, some, arith}
use waf.Base.Keys.{string_eq, nat_eq}
use waf.Cluster.Protocol.{ElectionVote, ElectionResult}
use waf.Cluster.Election.{
  ElectionManager, can_vote, process_vote, process_result, record_vote_for_me,
  increment_term_and_vote_for_self,
}

-- A grant is for the term of the request, and the vote is then bound to that candidate.
pub process_vote_granted :
    (v : ElectionVote) (m : ElectionManager)
    → (process_vote v m).1 ≡ true
    → ((process_vote v m).0.term ≡ v.term)
      × ((process_vote v m).0.voted_for ≡ some v.candidate_id)
      × (m.term ≤ v.term)
unfolding process_vote can_vote
process_vote_granted v m h = ground arith

-- A vote that is cast stays while the term stays.
pub process_vote-voted_for :
    (v : ElectionVote) (m : ElectionManager) (c : String)
    → m.voted_for ≡ some c
    → (process_vote v m).0.term ≡ m.term
    → (process_vote v m).0.voted_for ≡ some c
unfolding process_vote can_vote
process_vote-voted_for v m c h e = ground (arith, string_eq.beq_iff c v.candidate_id)

pub term-process_vote :
    (v : ElectionVote) (m : ElectionManager) → m.term ≤ (process_vote v m).0.term
unfolding process_vote
term-process_vote v m = ground arith

-- How a manager may change its term and its vote: the term does not fall, and the vote of a term
-- is never exchanged for another.
pub record Keeps (m n : ElectionManager) : Type 0 where
  pub node_id : n.node_id ≡ m.node_id
  pub term : m.term ≤ n.term
  pub voted_for : (c : String) → n.term ≡ m.term → m.voted_for ≡ some c → n.voted_for ≡ some c

pub process_vote-Keeps : (v : ElectionVote) (m : ElectionManager) → Keeps m (process_vote v m).0
process_vote-Keeps v m = record {
  node_id = unfold process_vote in ground arith;
  term = term-process_vote v m;
  voted_for = λ c e h. process_vote-voted_for v m c h e;
}

pub process_result-Keeps :
    (r : ElectionResult) (m : ElectionManager) → Keeps m (process_result r m).0
unfolding process_result
process_result-Keeps r m = record {
  node_id = ground arith;
  term = ground arith;
  voted_for = λ c e h. ground arith;
}

pub record_vote_for_me-Keeps :
    (term : ℕ) (voter : String) (m : ElectionManager) → Keeps m (record_vote_for_me term voter m).0
unfolding record_vote_for_me
record_vote_for_me-Keeps term voter m = record {
  node_id = ground arith;
  term = ground arith;
  voted_for = λ c e h. ground arith;
}

pub increment-Keeps :
    (m : ElectionManager) → m.term + 1 < 2 ^ 64 → Keeps m (increment_term_and_vote_for_self m).0
unfolding increment_term_and_vote_for_self
increment-Keeps m h = record {
  node_id = refl;
  term = omega arith;
  voted_for = λ c e h'. absurd (omega arith);
}

pub increment_lem :
    (m : ElectionManager)
    → m.term + 1 < 2 ^ 64
    → ((increment_term_and_vote_for_self m).1 ≡ m.term + 1)
      × ((increment_term_and_vote_for_self m).0.term ≡ m.term + 1)
      × ((increment_term_and_vote_for_self m).0.voted_for ≡ some m.node_id)
unfolding increment_term_and_vote_for_self
increment_lem m h = (omega arith, omega arith, refl)
