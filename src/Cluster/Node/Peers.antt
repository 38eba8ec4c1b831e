-- ===== src/Cluster/Node/Peers.antt =====
-- The list of peers and the eviction.
use waf.Base.{
  ℕ, ◌+◌, ◌≡◌, refl, sym, ap, ◌∙◌, Bool, true, ◌&&◌, not, inl, inr, String, none, List, [], ◌∷◌,
  map, arith, length, select, In, select-select, select-true, select-agree, if◌then◌else◌,
  Bool-cases,
}
use waf.Base.Keys.{◌==◌, string_eq, eq_refl}
use waf.Base.Map
use waf.Base.Map.{contains, distinct}
use waf.Base.Float.{Float}
use waf.Cluster.Protocol.{Heartbeat}
use waf.Cluster.Detector.{is_peer_dead, untrack}
use waf.Cluster.Node.{
  PeerInfo, NodeState, upsert, remove_peer, evict, dead_peers, eviction_tick, receive_heartbeat,
  total_nodes,
}

abbrev pub ids : List PeerInfo → List String
ids ps = map (λ p. p.node_id) ps

contains-ids-upsert :
    (j : String) (q : PeerInfo) (ps : List PeerInfo)
    → contains j (ids (upsert q ps)) ≡ (if q.node_id == j then true else contains j (ids ps))
unfolding contains upsert
contains-ids-upsert j q [] = ground arith
contains-ids-upsert j q (p ∷ ps) = ground (
  arith,
  string_eq.beq_iff q.node_id j,
  string_eq.beq_iff p.node_id j,
  string_eq.beq_iff p.node_id q.node_id,
  contains-ids-upsert j q ps,
)

pub upsert-distinct :
    (q : PeerInfo) (ps : List PeerInfo)
    → distinct (ids ps) ≡ true
    → distinct (ids (upsert q ps)) ≡ true
unfolding distinct contains upsert
upsert-distinct q [] h = refl
upsert-distinct q (p ∷ ps) h = ground (
  arith,
  string_eq.beq_iff p.node_id q.node_id,
  string_eq.beq_iff q.node_id p.node_id,
  contains-ids-upsert p.node_id q ps,
  upsert-distinct q ps,
)

length-upsert :
    (q : PeerInfo) (ps : List PeerInfo)
    → length (upsert q ps) ≡ (if contains q.node_id (ids ps) then length ps else length ps + 1)
unfolding contains upsert
length-upsert q [] = omega arith
length-upsert q (p ∷ ps) = ground (arith, length-upsert q ps)

-- A heartbeat adds its sender to the cluster exactly when the sender is not known yet, and the
-- ids of the peers stay distinct.
pub receive_heartbeat_peers :
    {fl : Float} (hb : Heartbeat) (now : ℕ) (n : NodeState fl)
    → distinct (ids n.peers) ≡ true
    → (distinct (ids (receive_heartbeat hb now n).peers) ≡ true)
      × (contains hb.node_id (ids (receive_heartbeat hb now n).peers) ≡ true)
      × (total_nodes (receive_heartbeat hb now n)
          ≡ (if contains hb.node_id (ids n.peers) then total_nodes n else total_nodes n + 1))
unfolding receive_heartbeat total_nodes
receive_heartbeat_peers hb now n h =
    let q : PeerInfo = record { node_id = hb.node_id; role = hb.role; last_seen_ms = now } in
    (
      upsert-distinct q n.peers h,
      ground (arith, contains-ids-upsert hb.node_id q n.peers, eq_refl {K = String} hb.node_id),
      ground (arith, length-upsert q n.peers),
    )

contains-select :
    (f : String → Bool) (j : String) (js : List String)
    → contains j (select f js) ≡ (f j && contains j js)
unfolding contains
contains-select f j [] = ground arith
contains-select f j (i ∷ js) = elim (Bool-cases (i == j)) [
  | inl same ↦
      let e : f i ≡ f j = ap f ((string_eq.beq_iff i j).0 same) in
      ground (arith, same, e, contains-select f j js)
  | inr other ↦ ground (arith, other, contains-select f j js)
]

contains_own : (p : PeerInfo) (ps : List PeerInfo) → In p ps → contains p.node_id (ids ps) ≡ true
unfolding contains
contains_own p [] h = elim h [ ]
contains_own p (q ∷ ps) (inl e) = rw e (rw (eq_refl {K = String} q.node_id))
contains_own p (q ∷ ps) (inr h) = ground (arith, contains_own p ps h)

module _ {fl : Float} where
  peers-evict :
      (dead : List String) (n : NodeState fl)
      → (evict dead n).peers ≡ select (λ p. not (contains p.node_id dead)) n.peers
  unfolding evict contains
  peers-evict [] n = sym (select-true n.peers)
  peers-evict (d ∷ dead) n =
      peers-evict dead _
      ∙ select-select (λ p. not (contains p.node_id dead)) (λ p. not (p.node_id == d)) n.peers
      ∙ select-agree _ _ n.peers
          (λ p _. ground (arith, string_eq.beq_iff p.node_id d, string_eq.beq_iff d p.node_id))

  tracker-evict :
      (j : String) (dead : List String) (n : NodeState fl)
      → Map.get j (evict dead n).heartbeat_tracker.peers
        ≡ (if contains j dead then none else Map.get j n.heartbeat_tracker.peers)
  unfolding evict contains untrack
  tracker-evict j [] n = refl
  tracker-evict j (d ∷ dead) n =
      let m = record (remove_peer d n).0 { heartbeat_tracker = untrack fl d n.heartbeat_tracker } in
      ground (
        arith,
        tracker-evict j dead m,
        Map.get-remove d j n.heartbeat_tracker.peers,
        string_eq.beq_iff d j,
      )

  chosen :
      (now : ℕ) (n : NodeState fl) (p : PeerInfo)
      → In p n.peers
      → contains p.node_id (dead_peers now n) ≡ is_peer_dead fl p.node_id now n.heartbeat_tracker
  unfolding dead_peers
  chosen now n p h = ground (
    arith,
    contains-select (λ id. is_peer_dead fl id now n.heartbeat_tracker) p.node_id (ids n.peers),
    contains_own p n.peers h,
  )

  -- One tick of the eviction leaves exactly the peers whose detector does not call them dead.
  pub peers-eviction_tick :
      (now : ℕ) (n : NodeState fl)
      → (eviction_tick now n).peers
        ≡ select (λ p. not (is_peer_dead fl p.node_id now n.heartbeat_tracker)) n.peers
  unfolding eviction_tick
  peers-eviction_tick now n =
      peers-evict (dead_peers now n) n ∙ select-agree _ _ n.peers (λ p h. rw (chosen now n p h))

  -- It forgets the detectors of the peers that it removes, and keeps those of the others.
  pub tracker-eviction_tick :
      (now : ℕ) (n : NodeState fl) (p : PeerInfo)
      → In p n.peers
      → Map.get p.node_id (eviction_tick now n).heartbeat_tracker.peers ≡ (
          if is_peer_dead fl p.node_id now n.heartbeat_tracker
          then none
          else Map.get p.node_id n.heartbeat_tracker.peers)
  unfolding eviction_tick
  tracker-eviction_tick now n p h =
      rw (tracker-evict p.node_id (dead_peers now n) n, chosen now n p h)
