-- ===== src/Cluster/Safety/Unique.antt =====
-- The elected mains of one term, over every run of the cluster.
use waf.Base.{In, ℕ, ◌≡◌, refl, String, List, arith}
use waf.Base.Keys.{string_eq}
use waf.Cluster.Protocol.{ClusterMessage, ElectionResult}
use waf.Cluster.Safety.{Cluster, init, Reach, IsUndisturbed}
use waf.Cluster.Safety.Quorum.{overlap}
use waf.Cluster.Safety.Invariant.{ballot, Inv, init-Inv, Reach-Inv}

Inv-unique :
    (members : List String) (c : Cluster)
    → Inv members c
    → (r s : ElectionResult) → In (ClusterMessage.result r) c.sent
    → In (ClusterMessage.result s) c.sent
    → r.term ≡ s.term
    → r.elected_id ≡ s.elected_id
Inv-unique members c v r s hr hs e =
    let br = v.messages (ClusterMessage.result r) hr in
    let bs = v.messages (ClusterMessage.result s) hs in
    let (x, xr, xs) =
      overlap r.voter_ids s.voter_ids members br.1 bs.1
        (λ x h. v.ballots.member (ballot x r.term r.elected_id) (br.0 x h))
        (λ x h. v.ballots.member (ballot x s.term s.elected_id) (bs.0 x h))
        (omega (arith, br.2, bs.2)) in
    v.ballots.unique (ballot x r.term r.elected_id) (ballot x s.term s.elected_id) (br.0 x xr)
      (bs.0 x xs) refl e

-- In every state that a cluster of fixed members reaches from the start, over a network that loses,
-- repeats, delays and reorders messages, two election results of one term that were ever sent name
-- the same main, where the term of a node does not change between the read of the term in
-- `process_vote` and the writes after it. Those writes are one step, and so is each other call of
-- the manager.
pub election_safety :
    (members : List String) (lo hi : ℕ) (c : Cluster) (reach : Reach members (init lo hi) c)
    → IsUndisturbed reach
    → (r s : ElectionResult) → In (ClusterMessage.result r) c.sent
    → In (ClusterMessage.result s) c.sent
    → r.term ≡ s.term
    → r.elected_id ≡ s.elected_id
election_safety members lo hi c reach calm =
    Inv-unique members c (Reach-Inv members (init lo hi) c (init-Inv members lo hi) reach calm)
