-- ===== src/Cluster/Election.antt =====
-- crates/waf-cluster/src/election/mod.rs: the methods of `ElectionManager`, each as one step on
-- the state behind its locks. `process_vote` takes its read lock on the term and gives it back
-- before it writes, so it is also stated as the part that runs after the read.
pub mod Terms
pub mod Buckets
pub mod Race
use waf.Base.{
  ℕ, suc, ◌+◌, ◌/◌, ◌≤◌, ◌<◌, ◌≡◌, Bool, true, false, ◌&&◌, ◌||◌, String, Option, none, some, List,
  [], ◌∷◌, ltb, leb, length, if◌then◌else◌, max,
}
use waf.Base.Keys.{◌==◌, string_eq, nat_eq}
use waf.Base.Map
use waf.Base.Map.{Map, set_insert}
use waf.Base.Words.{wrap_u64}
use waf.Cluster.Protocol.{ElectionVote, ElectionResult, NodeRole}

pub record ElectionManager : Type 0 where
  pub node_id : String
  pub term : ℕ
  pub voted_for : Option String
  pub timeout_min_ms : ℕ
  pub timeout_max_ms : ℕ
  pub votes_for_me : Map ℕ (List String)

unfoldable pub new : String → ℕ → ℕ → ElectionManager
new node_id min_ms max_ms = record {
  node_id = node_id;
  term = 0;
  voted_for = none;
  timeout_min_ms = min_ms;
  timeout_max_ms = max_ms;
  votes_for_me = [];
}

-- The bounds that the random generator is given, both included.
unfoldable pub election_timeout_range : ElectionManager → ℕ × ℕ
election_timeout_range m = (m.timeout_min_ms, max m.timeout_max_ms (m.timeout_min_ms + 1))

-- `votes.entry(term).or_default()`
unfoldable pub voters_of : ℕ → Map ℕ (List String) → List String
voters_of term votes = elim (Map.get term votes) [ none ↦ [] | some s ↦ s ]

unfoldable pub add_voter : ℕ → String → Map ℕ (List String) → Map ℕ (List String) × Bool
unfolding voters_of
add_voter term voter votes =
    let (s, fresh) = set_insert voter (voters_of term votes) in (Map.insert term s votes, fresh)

-- The term, `voted_for` and the own vote, in the order of the writes.
unfoldable pub increment_term_and_vote_for_self : ElectionManager → ElectionManager × ℕ
increment_term_and_vote_for_self m =
    let new_term = wrap_u64 (m.term + 1) in
    let votes = Map.retain (λ t _. leb new_term t) m.votes_for_me in
    (
      record m {
        term = new_term;
        voted_for = some m.node_id;
        votes_for_me = (add_voter new_term m.node_id votes).0;
      },
      new_term,
    )

unfoldable pub record_vote_for_me : ℕ → String → ElectionManager → ElectionManager × Bool
record_vote_for_me term voter_id m =
    if ltb term m.term
    then (m, false)
    else let (votes, fresh) = add_voter term voter_id m.votes_for_me in
      (record m { votes_for_me = votes }, fresh)

unfoldable pub vote_count_for_term : ℕ → ElectionManager → ℕ
unfolding voters_of
vote_count_for_term term m = length (voters_of term m.votes_for_me)

unfoldable pub voter_ids_for_term : ℕ → ElectionManager → List String
unfolding voters_of
voter_ids_for_term term m = voters_of term m.votes_for_me

unfoldable pub is_majority : ℕ → ℕ → Bool
is_majority votes total_nodes = ltb 0 total_nodes && ltb (total_nodes / 2) votes

unfoldable pub is_valid_term : ℕ → ElectionManager → Bool
is_valid_term incoming m = leb m.term incoming

unfoldable pub advance_term : ℕ → ElectionManager → ElectionManager
advance_term incoming m =
    if ltb m.term incoming then record m { term = incoming; voted_for = none } else m

unfoldable pub can_vote : Option String → String → Bool
can_vote none candidate = true
can_vote (some c) candidate = c == candidate

-- From the lock on `voted_for` on: grant the vote unless another candidate has it.
unfoldable pub grant_vote : ElectionVote → ElectionManager → ElectionManager × Bool
unfolding can_vote
grant_vote v m =
    if can_vote m.voted_for v.candidate_id
    then (record m { voted_for = some v.candidate_id }, true)
    else (m, false)

-- What `process_vote` does after it has read `current_term`.
unfoldable pub process_vote_after : ℕ → ElectionVote → ElectionManager → ElectionManager × Bool
unfolding grant_vote
process_vote_after current_term v m =
    if ltb v.term current_term
    then (m, false)
    else if ltb current_term v.term
    then grant_vote v (record m { term = v.term; voted_for = none })
    else grant_vote v m

unfoldable pub process_vote : ElectionVote → ElectionManager → ElectionManager × Bool
unfolding process_vote_after
process_vote v m = process_vote_after m.term v m

unfoldable pub process_result : ElectionResult → ElectionManager → ElectionManager × NodeRole
unfolding is_valid_term advance_term
process_result r m =
    if is_valid_term r.term m
    then (
      advance_term r.term m,
      if r.elected_id == m.node_id then NodeRole.main else NodeRole.worker,
    )
    else (m, NodeRole.worker)
