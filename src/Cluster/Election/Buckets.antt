-- ===== src/Cluster/Election/Buckets.antt =====
-- The vote buckets of `ElectionManager`.
use waf.Base.{ℕ, ◌+◌, ◌≡◌, ◌⊎◌, true, String, List, [], arith, leb, if◌then◌else◌}
use waf.Base.Keys.{◌==◌, string_eq, nat_eq}
use waf.Base.Map
use waf.Base.Map.{Map, set_insert, contains, distinct, contains-set_insert, set_insert-distinct}
use waf.Base.Words.{wrap_u64}
use waf.Cluster.Protocol.{ElectionVote, ElectionResult}
use waf.Cluster.Election.{
  ElectionManager, voters_of, add_voter, process_vote, process_result, record_vote_for_me,
  increment_term_and_vote_for_self,
}

pub voters_of-add_voter :
    (t u : ℕ) (w x : String) (votes : Map ℕ (List String))
    → contains x (voters_of t (add_voter u w votes).0) ≡ (
        if u == t
        then if w == x then true else contains x (voters_of t votes)
        else contains x (voters_of t votes))
unfolding add_voter
voters_of-add_voter t u w x votes = ground (
  arith,
  nat_eq.beq_iff u t,
  Map.get-insert u t (set_insert w (voters_of u votes)).0 votes,
  contains-set_insert w x (voters_of u votes),
)

add_voter-distinct :
    (t u : ℕ) (w : String) (votes : Map ℕ (List String))
    → ((s : ℕ) → distinct (voters_of s votes) ≡ true)
    → distinct (voters_of t (add_voter u w votes).0) ≡ true
unfolding add_voter
add_voter-distinct t u w votes h = ground (
  arith,
  nat_eq.beq_iff u t,
  Map.get-insert u t (set_insert w (voters_of u votes)).0 votes,
  set_insert-distinct w (voters_of u votes),
  h u,
  h t,
)

voters_of-retain :
    (n t : ℕ) (votes : Map ℕ (List String))
    → voters_of t (Map.retain (λ s _. leb n s) votes) ≡ (if leb n t then voters_of t votes else [])
unfolding voters_of
voters_of-retain n t votes = ground (arith, Map.get-retain_key (λ s. leb n s) t votes)

-- A bucket of the new state holds what it held, and at most the one vote that was recorded.
abbrev pub Adds : ℕ → String → ElectionManager → ElectionManager → Type 0
Adds term voter m n =
    ((t : ℕ) (x : String)
      → contains x (voters_of t n.votes_for_me) ≡ true
      → ((t ≡ term) × (x ≡ voter)) ⊎ (contains x (voters_of t m.votes_for_me) ≡ true))
    × (((t : ℕ) → distinct (voters_of t m.votes_for_me) ≡ true)
        → (t : ℕ) → distinct (voters_of t n.votes_for_me) ≡ true)

pub record_vote_for_me-Adds :
    (term : ℕ) (voter : String) (m : ElectionManager)
    → Adds term voter m (record_vote_for_me term voter m).0
unfolding record_vote_for_me
record_vote_for_me-Adds term voter m = (
  λ t x h. ground (
    arith,
    h,
    nat_eq.beq_iff term t,
    string_eq.beq_iff voter x,
    voters_of-add_voter t term voter x m.votes_for_me,
  ),
  λ d t. ground (arith, d t, add_voter-distinct t term voter m.votes_for_me d),
)

increment_bucket :
    (n : ℕ) (m : ElectionManager) (t : ℕ) (x : String)
    → contains x
        (voters_of t (add_voter n m.node_id (Map.retain (λ s _. leb n s) m.votes_for_me)).0)
      ≡ true
    → ((t ≡ n) × (x ≡ m.node_id)) ⊎ (contains x (voters_of t m.votes_for_me) ≡ true)
unfolding contains
increment_bucket n m t x h = ground (
  arith,
  h,
  nat_eq.beq_iff n t,
  string_eq.beq_iff m.node_id x,
  voters_of-add_voter t n m.node_id x (Map.retain (λ s _. leb n s) m.votes_for_me),
  voters_of-retain n t m.votes_for_me,
)

retain-distinct :
    (n : ℕ) (votes : Map ℕ (List String))
    → ((s : ℕ) → distinct (voters_of s votes) ≡ true)
    → (t : ℕ) → distinct (voters_of t (Map.retain (λ s _. leb n s) votes)) ≡ true
unfolding distinct
retain-distinct n votes d t = ground (arith, voters_of-retain n t votes, d t)

pub increment-Adds :
    (m : ElectionManager)
    → Adds (increment_term_and_vote_for_self m).1 m.node_id m (increment_term_and_vote_for_self m).0
unfolding increment_term_and_vote_for_self
increment-Adds m = (
  increment_bucket (wrap_u64 (m.term + 1)) m,
  λ d t.
      add_voter-distinct t (wrap_u64 (m.term + 1)) m.node_id
        (Map.retain (λ s _. leb (wrap_u64 (m.term + 1)) s) m.votes_for_me)
        (retain-distinct (wrap_u64 (m.term + 1)) m.votes_for_me d),
)

pub process_vote-votes_for_me :
    (v : ElectionVote) (m : ElectionManager) → (process_vote v m).0.votes_for_me ≡ m.votes_for_me
unfolding process_vote
process_vote-votes_for_me v m = ground arith

pub process_result-votes_for_me :
    (r : ElectionResult) (m : ElectionManager)
    → (process_result r m).0.votes_for_me ≡ m.votes_for_me
unfolding process_result
process_result-votes_for_me r m = ground arith
