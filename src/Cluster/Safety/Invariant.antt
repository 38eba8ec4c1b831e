-- ===== src/Cluster/Safety/Invariant.antt =====
-- The invariant of the cluster, over the steps of its nodes.
use mathlib.Core.Path.{subst}
use waf.Base.{
  In, ℕ, ◌+◌, ◌^◌, ◌<◌, ◌≡◌, refl, sym, ap, ◌∙◌, inl, inr, true, String, some, List, ◌∷◌, arith,
  length, Bool-cases,
}
use waf.Base.Keys.{◌==◌, string_eq}
use waf.Base.Map.{contains, distinct}
use waf.Cluster.Protocol.{ClusterMessage, ElectionVote, ElectionResult}
use waf.Cluster.Election
use waf.Base.Map
use waf.Cluster.Election.{
  ElectionManager, increment_term_and_vote_for_self, process_vote, record_vote_for_me,
  vote_count_for_term, voter_ids_for_term, voters_of, is_majority, process_result,
}
use waf.Cluster.Election.Terms.{
  Keeps, process_vote-Keeps, process_result-Keeps, record_vote_for_me-Keeps, increment-Keeps,
  increment_lem, process_vote_granted,
}
use waf.Cluster.Election.Buckets.{
  record_vote_for_me-Adds, increment-Adds, process_vote-votes_for_me, process_result-votes_for_me,
}
use waf.Cluster.Safety.{
  Ballot, Cluster, Pending, update, init, start_election, read_term, served, serve_vote,
  receive_grant, announce, answer, IsUndisturbed, receive_result, start, request, grant, win, learn,
  Reach, here, next,
}
use waf.Cluster.Safety.Ballots.{AreSound, at_update, update-AreSound, cast-AreSound}

abbrev pub ballot : String → ℕ → String → Ballot
ballot v t i = record { voter = v; term = t; candidate = i }

-- What a message says is backed by ballots: a grant by one, a result by those of a majority.
abbrev pub Backed : List String → List Ballot → ClusterMessage → Type 0
Backed members ballots (ClusterMessage.vote v) =
    (j : String) → v.voter_id ≡ some j → In (ballot j v.term v.candidate_id) ballots
Backed members ballots (ClusterMessage.result r) =
    ((x : String) → contains x r.voter_ids ≡ true → In (ballot x r.term r.elected_id) ballots)
    × (distinct r.voter_ids ≡ true)
    × (length members < length r.voter_ids + length r.voter_ids)
Backed members ballots _ = Unit

pub record Inv (members : List String) (c : Cluster) : Type 0 where
  pub ids : (i : String) → (c.nodes i).node_id ≡ i
  pub ballots : AreSound members c.nodes c.ballots
  pub buckets :
      (i : String) (t : ℕ) (x : String)
      → contains x (voters_of t (c.nodes i).votes_for_me) ≡ true
      → In (ballot x t i) c.ballots
  pub buckets_distinct :
      (i : String) (t : ℕ) → distinct (voters_of t (c.nodes i).votes_for_me) ≡ true
  pub messages : (m : ClusterMessage) → In m c.sent → Backed members c.ballots m

pub init-Inv : (members : List String) (lo hi : ℕ) → Inv members (init lo hi)
unfolding init voters_of contains distinct Election.new Map.get
init-Inv members lo hi = record {
  ids = λ i. refl;
  ballots = record {
    member = λ b h. elim h [ ];
    bounded = λ b h. elim h [ ];
    bound = λ b h. elim h [ ];
    unique = λ a b h. elim h [ ];
  };
  buckets = λ i t x h. cc h;
  buckets_distinct = λ i t. refl;
  messages = λ m h. elim h [ ];
}

-- More ballots back a message as well.
Backed-more :
    (members : List String) (ballots : List Ballot) (b : Ballot) (m : ClusterMessage)
    → Backed members ballots m
    → Backed members (b ∷ ballots) m
Backed-more members ballots b (ClusterMessage.vote v) h = λ j e. inr (h j e)
Backed-more members ballots b (ClusterMessage.result r) h = (λ x e. inr (h.0 x e), h.1, h.2)
Backed-more members ballots b (ClusterMessage.heartbeat _) h = tt
Backed-more members ballots b (ClusterMessage.node_leave _) h = tt

module _ (members : List String) (c : Cluster) (v : Inv members c) where
  -- One node moves, and the ballots and the messages grow: what has to be shown.
  move_Inv :
      (j : String) (m : ElectionManager) (ballots : List Ballot) (sent : List ClusterMessage)
      → ((b : Ballot) → In b c.ballots → In b ballots)
      → m.node_id ≡ (c.nodes j).node_id
      → AreSound members (update j m c.nodes) ballots
      → ((t : ℕ) (x : String)
          → contains x (voters_of t m.votes_for_me) ≡ true
          → In (ballot x t j) ballots)
      → ((t : ℕ) → distinct (voters_of t m.votes_for_me) ≡ true)
      → ((w : ClusterMessage) → In w sent → Backed members ballots w)
      → Inv members (record c { nodes = update j m c.nodes; sent = sent; ballots = ballots })
  move_Inv j m ballots sent more same sound fits apart msgs = record {
    ids = at_update (λ i n. n.node_id ≡ i) c.nodes j m (same ∙ v.ids j) v.ids;
    ballots = sound;
    buckets =
        at_update
          (λ i n.
            (t : ℕ) (x : String)
            → contains x (voters_of t n.votes_for_me) ≡ true
            → In (ballot x t i) ballots)
          c.nodes j m fits (λ i t x h. more (ballot x t i) (v.buckets i t x h));
    buckets_distinct =
        at_update (λ i n. (t : ℕ) → distinct (voters_of t n.votes_for_me) ≡ true) c.nodes j m apart
          v.buckets_distinct;
    messages = msgs;
  }

  -- A node that moves and whose buckets stay.
  quiet_Inv :
      (j : String) (m : ElectionManager)
      → Keeps (c.nodes j) m
      → m.votes_for_me ≡ (c.nodes j).votes_for_me
      → Inv members (record c { nodes = update j m c.nodes })
  quiet_Inv j m k same =
      move_Inv j m c.ballots c.sent (λ b h. h) k.node_id
        (update-AreSound members c.nodes c.ballots j m k v.ballots)
        (λ t x. rw same (v.buckets j t x)) (λ t. rw same (v.buckets_distinct j t)) v.messages

  start-Inv :
      (i : String) (n : ℕ)
      → contains i members ≡ true
      → (c.nodes i).term + 1 < 2 ^ 64
      → Inv members (start_election i n c)
  unfolding start_election
  start-Inv i n member small =
      let k = increment-Keeps (c.nodes i) small in
      let a = increment-Adds (c.nodes i) in
      let lem = increment_lem (c.nodes i) small in
      let same : (increment_term_and_vote_for_self (c.nodes i)).1
          ≡ (increment_term_and_vote_for_self (c.nodes i)).0.term =
        lem.0 ∙ sym lem.1 in
      move_Inv i (increment_term_and_vote_for_self (c.nodes i)).0 _ _ (λ b h. inr h) k.node_id
        (rw same (
          cast-AreSound members c.nodes c.ballots i (increment_term_and_vote_for_self (c.nodes i)).0
            k v.ballots member i (lem.2 ∙ ap some (v.ids i))))
        (λ t x h. elim (a.0 t x h) [
          | inl (e, f) ↦ inl (cc (e, f, v.ids i))
          | inr old ↦ inr (v.buckets i t x old)
        ])
        (a.1 (v.buckets_distinct i))
        (λ w h. elim h [
          | inl e ↦ rw e (λ j q. cc q)
          | inr old ↦ Backed-more members c.ballots _ w (v.messages w old)
        ])

  request-Inv : (j : String) (w : ElectionVote) → Inv members (read_term j w c)
  unfolding read_term
  request-Inv j w = record {
    ids = v.ids;
    ballots = v.ballots;
    buckets = v.buckets;
    buckets_distinct = v.buckets_distinct;
    messages = v.messages;
  }

  served-Inv :
      (j : String) (w : ElectionVote)
      → contains j members ≡ true
      → Inv members (served j w (process_vote w (c.nodes j)) c)
  unfolding served
  served-Inv j w member = elim (Bool-cases (process_vote w (c.nodes j)).1) [
    | inl yea ↦
        let g = process_vote_granted w (c.nodes j) yea in
        let k = process_vote-Keeps w (c.nodes j) in
        let same = process_vote-votes_for_me w (c.nodes j) in
        rw yea (
          move_Inv j (process_vote w (c.nodes j)).0 _ _ (λ b h. inr h) k.node_id
            (subst
              (λ t.
                AreSound members (update j (process_vote w (c.nodes j)).0 c.nodes)
                  (ballot j t w.candidate_id ∷ c.ballots))
              g.0
              (cast-AreSound members c.nodes c.ballots j (process_vote w (c.nodes j)).0 k v.ballots
                member w.candidate_id g.1))
            (λ t x. rw same (λ h. inr (v.buckets j t x h))) (λ t. rw same (v.buckets_distinct j t))
            (λ u h. elim h [
              | inl e ↦ rw e (λ i q. inl (cc q))
              | inr old ↦ Backed-more members c.ballots _ u (v.messages u old)
            ]))
    | inr nay ↦ rw nay (
        quiet_Inv j (process_vote w (c.nodes j)).0 (process_vote-Keeps w (c.nodes j))
          (process_vote-votes_for_me w (c.nodes j)))
  ]

  answer-Inv :
      (p : Pending)
      → contains p.node members ≡ true
      → (c.nodes p.node).term ≡ p.current_term
      → Inv members (serve_vote p c)
  unfolding serve_vote process_vote
  answer-Inv p member still = rw (← still) (served-Inv p.node p.vote member)

  grant-Inv :
      (i : String) (w : ElectionVote) (voter : String)
      → In (ClusterMessage.vote w) c.sent
      → w.voter_id ≡ some voter
      → Inv members (receive_grant i w voter c)
  unfolding receive_grant
  grant-Inv i w voter sent by = elim (Bool-cases (w.candidate_id == i)) [
    | inl mine ↦
        let a = record_vote_for_me-Adds w.term voter (c.nodes i) in
        let k = record_vote_for_me-Keeps w.term voter (c.nodes i) in
        let b = v.messages (ClusterMessage.vote w) sent voter by in
        let e = (string_eq.beq_iff w.candidate_id i).0 mine in
        rw mine (
          move_Inv i (record_vote_for_me w.term voter (c.nodes i)).0 c.ballots c.sent (λ b h. h)
            k.node_id (update-AreSound members c.nodes c.ballots i _ k v.ballots)
            (λ t x h. elim (a.0 t x h) [
              | inl (p, q) ↦ rw (p, q, ← e) b
              | inr old ↦ v.buckets i t x old
            ])
            (a.1 (v.buckets_distinct i)) v.messages)
    | inr other ↦ rw other v
  ]

  win-Inv :
      (i : String) (t : ℕ)
      → is_majority (vote_count_for_term t (c.nodes i)) (length members) ≡ true
      → Inv members (announce i t c)
  unfolding announce vote_count_for_term voter_ids_for_term is_majority
  win-Inv i t most = record {
    ids = v.ids;
    ballots = v.ballots;
    buckets = v.buckets;
    buckets_distinct = v.buckets_distinct;
    messages = λ w h. elim h [
      | inl e ↦ rw e (v.buckets i t, v.buckets_distinct i t, ground arith)
      | inr old ↦ v.messages w old
    ];
  }

  learn-Inv : (j : String) (r : ElectionResult) → Inv members (receive_result j r c)
  unfolding receive_result
  learn-Inv j r =
      quiet_Inv j (process_result r (c.nodes j)).0 (process_result-Keeps r (c.nodes j))
        (process_result-votes_for_me r (c.nodes j))

-- Every run of the cluster in which the handlers are not disturbed keeps the invariant.
pub Reach-Inv :
    (members : List String) (c d : Cluster)
    → Inv members c
    → (r : Reach members c d) → IsUndisturbed r
    → Inv members d
unfolding IsUndisturbed
Reach-Inv members c d v here u = v
Reach-Inv members c d v (next {d = x} r (start i n member small e)) u =
    rw e (start-Inv members x (Reach-Inv members c x v r u) i n member small)
Reach-Inv members c d v (next {d = x} r (request j w member sent by e)) u =
    rw e (request-Inv members x (Reach-Inv members c x v r u) j w)
Reach-Inv members c d v (next {d = x} r (answer p member held e)) u =
    rw e (answer-Inv members x (Reach-Inv members c x v r u.0) p member u.1)
Reach-Inv members c d v (next {d = x} r (grant i w voter member sent by e)) u =
    rw e (grant-Inv members x (Reach-Inv members c x v r u) i w voter sent by)
Reach-Inv members c d v (next {d = x} r (win i t member most e)) u =
    rw e (win-Inv members x (Reach-Inv members c x v r u) i t most)
Reach-Inv members c d v (next {d = x} r (learn j w member sent e)) u =
    rw e (learn-Inv members x (Reach-Inv members c x v r u) j w)
