-- ===== src/Cluster/Safety.antt =====
-- The election protocol of a whole cluster: the election loop (election/mod.rs) and the message
-- handlers (transport/server.rs, transport/client.rs) of every node over one network, which may
-- lose, duplicate, delay and reorder messages. The membership is fixed. A call of the manager is one
-- step, but for `process_vote`, which gives its lock back after it has read the term: its read and
-- what comes after it are two steps, between which the node may make any others.
pub mod Quorum
pub mod Ballots
pub mod Invariant
pub mod Unique
use waf.Base.{
  ℕ, ◌+◌, ◌^◌, ◌<◌, ◌≡◌, refl, ◌⊎◌, Bool, true, false, String, Option, none, some, List, [], ◌∷◌,
  length, In, if◌then◌else◌,
}
use waf.Base.Keys.{◌==◌, string_eq}
use waf.Base.Map.{contains}
use waf.Cluster.Protocol.{ClusterMessage, ElectionVote, ElectionResult}
use waf.Cluster.Election.{
  ElectionManager, increment_term_and_vote_for_self, process_vote_after, record_vote_for_me,
  vote_count_for_term, voter_ids_for_term, is_majority, process_result,
}
use waf.Cluster.Election

-- A vote that a node has cast; kept as a history, which no node reads.
pub record Ballot : Type 0 where
  pub voter : String
  pub term : ℕ
  pub candidate : String

-- A handler of a vote request that has read the term of its node and not answered yet.
pub record Pending : Type 0 where
  pub node : String
  pub vote : ElectionVote
  pub current_term : ℕ

pub record Cluster : Type 0 where
  pub nodes : String → ElectionManager
  pub sent : List ClusterMessage
  pub ballots : List Ballot
  pub pending : List Pending

abbrev pub update {ℓ} : {A : Type ℓ} → String → A → (String → A) → String → A
update i a f j = if i == j then a else f j

unfoldable pub init : ℕ → ℕ → Cluster
init min_ms max_ms = record {
  nodes = λ i. Election.new i min_ms max_ms;
  sent = [];
  ballots = [];
  pending = [];
}

-- The loop of a worker: a new term, a vote for itself, a request to all peers.
unfoldable pub start_election : String → ℕ → Cluster → Cluster
start_election i log_index c =
    let (m, new_term) = increment_term_and_vote_for_self (c.nodes i) in
    record c {
      nodes = update i m c.nodes;
      sent =
          ClusterMessage.vote (record {
            term = new_term;
            candidate_id = i;
            last_log_index = log_index;
            voter_id = none;
          })
          ∷ c.sent;
      ballots = record { voter = i; term = new_term; candidate = i } ∷ c.ballots;
    }

-- A vote request arrives at a server, whose handler reads the term.
unfoldable pub read_term : String → ElectionVote → Cluster → Cluster
read_term j v c = record c {
  pending = record { node = j; vote = v; current_term = (c.nodes j).term } ∷ c.pending;
}

-- What the handler does with its answer: a granted vote is echoed with the node's id as the voter.
unfoldable pub served : String → ElectionVote → ElectionManager × Bool → Cluster → Cluster
served j v (m, granted) c =
    if granted
    then record c {
      nodes = update j m c.nodes;
      sent = ClusterMessage.vote (record v { voter_id = some j }) ∷ c.sent;
      ballots = record { voter = j; term = v.term; candidate = v.candidate_id } ∷ c.ballots;
    }
    else record c { nodes = update j m c.nodes }

-- The rest of `process_vote`, with the term that was read, and the answer.
unfoldable pub serve_vote : Pending → Cluster → Cluster
unfolding process_vote_after served
serve_vote p c = served p.node p.vote (process_vote_after p.current_term p.vote (c.nodes p.node)) c

-- A vote grant at a client: it counts only at the candidate that it names.
unfoldable pub receive_grant : String → ElectionVote → String → Cluster → Cluster
receive_grant i v voter c =
    if v.candidate_id == i
    then record c { nodes = update i (record_vote_for_me v.term voter (c.nodes i)).0 c.nodes }
    else c

-- The loop again, after the wait: with a majority the node is promoted and tells its peers.
unfoldable pub announce : String → ℕ → Cluster → Cluster
announce i term c = record c {
  sent =
      ClusterMessage.result
        (record { term = term; elected_id = i; voter_ids = voter_ids_for_term term (c.nodes i) })
      ∷ c.sent;
}

-- An election result at a node.
unfoldable pub receive_result : String → ElectionResult → Cluster → Cluster
receive_result j r c = record c { nodes = update j (process_result r (c.nodes j)).0 c.nodes }

-- One step of the cluster with these members. A message that was sent may arrive at any time,
-- any number of times, at any member.
pub data Step (members : List String) (c d : Cluster) : Type 0 where
  start :
      (i : String) (log_index : ℕ)
      → contains i members ≡ true
      → (c.nodes i).term + 1 < 2 ^ 64
      → d ≡ start_election i log_index c
      → Step members c d
  request :
      (j : String) (v : ElectionVote)
      → contains j members ≡ true
      → In (ClusterMessage.vote v) c.sent
      → v.voter_id ≡ none
      → d ≡ read_term j v c
      → Step members c d
  answer :
      (p : Pending)
      → contains p.node members ≡ true
      → In p c.pending
      → d ≡ serve_vote p c
      → Step members c d
  grant :
      (i : String) (v : ElectionVote) (voter : String)
      → contains i members ≡ true
      → In (ClusterMessage.vote v) c.sent
      → v.voter_id ≡ some voter
      → d ≡ receive_grant i v voter c
      → Step members c d
  win :
      (i : String) (term : ℕ)
      → contains i members ≡ true
      → is_majority (vote_count_for_term term (c.nodes i)) (length members) ≡ true
      → d ≡ announce i term c
      → Step members c d
  learn :
      (j : String) (r : ElectionResult)
      → contains j members ≡ true
      → In (ClusterMessage.result r) c.sent
      → d ≡ receive_result j r c
      → Step members c d

pub data Reach (members : List String) (c : Cluster) : Cluster → Type 0 where
  here : Reach members c c
  next : {d e : Cluster} → Reach members c d → Step members d e → Reach members c e

-- Whenever a handler answers a vote request, its node has the term that the handler read.
unfoldable pub IsUndisturbed : {members : List String} {c d : Cluster} → Reach members c d → Type 0
IsUndisturbed here = Unit {0}
IsUndisturbed (next {d = x} r (start i n member small e)) = IsUndisturbed r
IsUndisturbed (next {d = x} r (request j v member sent by e)) = IsUndisturbed r
IsUndisturbed (next {d = x} r (answer p member held e)) =
    IsUndisturbed r × ((x.nodes p.node).term ≡ p.current_term)
IsUndisturbed (next {d = x} r (grant i v voter member sent by e)) = IsUndisturbed r
IsUndisturbed (next {d = x} r (win i t member most e)) = IsUndisturbed r
IsUndisturbed (next {d = x} r (learn j v member sent e)) = IsUndisturbed r
