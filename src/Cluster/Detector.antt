-- ===== src/Cluster/Detector.antt =====
-- crates/waf-cluster/src/health/detector.rs: the phi-accrual failure detector of one peer, and
-- the tracker that holds one detector for each peer. The floats are the parameter `fl`.
pub mod Window
use waf.Base.{
  ℕ, ◌+◌, ◌-◌, ◌≤◌, ◌≡◌, Bool, true, false, String, Option, none, some, List, [], ◌∷◌, ◌++◌, map,
  ltb, leb, length, select, drop, if◌then◌else◌,
}
use waf.Base.Keys.{string_eq}
use waf.Base.Map
use waf.Base.Map.{Map}
use waf.Base.Float.{Float}

pub record PhiAccrualDetector (fl : Float) : Type 0 where
  pub node_id : String
  pub window : List ℕ
  pub max_window : ℕ
  pub phi_suspect : fl.F
  pub phi_dead : fl.F

pub record HeartbeatTracker (fl : Float) : Type 0 where
  pub peers : Map String (PhiAccrualDetector fl)
  pub phi_suspect : fl.F
  pub phi_dead : fl.F

-- `VecDeque::back`, and the gaps between neighbours: `b.saturating_sub(a)`.
unfoldable pub back : List ℕ → Option ℕ
back [] = none
back (t ∷ []) = some t
back (t ∷ u ∷ ts) = back (u ∷ ts)

unfoldable pub gaps : List ℕ → List ℕ
gaps [] = []
gaps (t ∷ []) = []
gaps (t ∷ u ∷ ts) = (u - t) ∷ gaps (u ∷ ts)

module _ (fl : Float) where
  unfoldable pub new : String → fl.F → fl.F → PhiAccrualDetector fl
  new node_id suspect dead = record {
    node_id = node_id;
    window = [];
    max_window = 100;
    phi_suspect = suspect;
    phi_dead = dead;
  }

  unfoldable pub record_heartbeat : ℕ → PhiAccrualDetector fl → PhiAccrualDetector fl
  record_heartbeat now d =
      let window = if leb d.max_window (length d.window) then drop 1 d.window else d.window in
      record d { window = window ++ now ∷ [] }

  sum : fl.F → List fl.F → fl.F
  sum acc [] = acc
  sum acc (x ∷ xs) = sum (fl.add acc x) xs

  -- From the last heartbeat on: `intervals` are the gaps that are not zero.
  phi_of : ℕ → ℕ → List ℕ → fl.F
  unfolding sum
  phi_of now last [] = fl.of_ℕ 0
  phi_of now last (i ∷ is) =
      let mean = fl.div (sum (fl.of_ℕ 0) (map fl.of_ℕ (i ∷ is))) (fl.of_ℕ (length (i ∷ is))) in
      let prob = fl.exp (fl.div (fl.neg (fl.of_ℕ (now - last))) mean) in
      if fl.le mean (fl.of_ℕ 0)
      then fl.infinity
      else if fl.le prob (fl.of_ℕ 0)
      then fl.infinity
      else fl.neg (fl.log10 prob)

  unfoldable pub phi : ℕ → PhiAccrualDetector fl → fl.F
  unfolding back gaps phi_of
  phi now d = if ltb (length d.window) 2 then fl.of_ℕ 0 else elim (back d.window) [
    | none ↦ fl.of_ℕ 0
    | some last ↦ phi_of now last (select (λ g. ltb 0 g) (gaps d.window))
  ]

  unfoldable pub is_suspected : ℕ → PhiAccrualDetector fl → Bool
  is_suspected now d = fl.lt d.phi_suspect (phi now d)

  unfoldable pub is_dead : ℕ → PhiAccrualDetector fl → Bool
  is_dead now d = fl.lt d.phi_dead (phi now d)

  unfoldable pub tracker_new : fl.F → fl.F → HeartbeatTracker fl
  tracker_new suspect dead = record { peers = []; phi_suspect = suspect; phi_dead = dead }

  -- `entry(id).or_insert_with(new).record_heartbeat(now)`
  unfoldable pub track : String → ℕ → HeartbeatTracker fl → HeartbeatTracker fl
  track node_id now t =
      let d : PhiAccrualDetector fl = elim (Map.get node_id t.peers) [
        | none ↦ new node_id t.phi_suspect t.phi_dead
        | some d ↦ d
      ] in
      record t { peers = Map.insert node_id (record_heartbeat now d) t.peers }

  unfoldable pub phi_for : String → ℕ → HeartbeatTracker fl → fl.F
  phi_for node_id now t = elim (Map.get node_id t.peers) [ none ↦ fl.of_ℕ 0 | some d ↦ phi now d ]

  unfoldable pub is_peer_dead : String → ℕ → HeartbeatTracker fl → Bool
  is_peer_dead node_id now t = elim (Map.get node_id t.peers) [
    | none ↦ false
    | some d ↦ is_dead now d
  ]

  unfoldable pub dead_nodes : ℕ → HeartbeatTracker fl → List String
  dead_nodes now t = map (λ e. e.0) (select (λ e. is_dead now e.1) t.peers)

  unfoldable pub untrack : String → HeartbeatTracker fl → HeartbeatTracker fl
  untrack node_id t = record t { peers = Map.remove node_id t.peers }
