-- ===== src/Cluster/Safety/Ballots.antt =====
-- What the ballots of a cluster say of its nodes: the terms of the ballots against the voters' terms,
-- and the candidates of the ballots of one voter in one term.
use mathlib.Core.Path.{subst}
use waf.Base.{
  In, ◌≤◌, ◌≡◌, refl, sym, ap, inl, inr, true, String, some, List, ◌∷◌, arith, Bool-cases,
}
use waf.Base.Keys.{◌==◌, string_eq, eq_refl}
use waf.Base.Map.{contains}
use waf.Cluster.Election.{ElectionManager}
use waf.Cluster.Election.Terms.{Keeps}
use waf.Cluster.Safety.{Ballot, update}

module _ (members : List String) where
  pub record AreSound (nodes : String → ElectionManager) (ballots : List Ballot) : Type 0 where
    pub member : (b : Ballot) → In b ballots → contains b.voter members ≡ true
    pub bounded : (b : Ballot) → In b ballots → b.term ≤ (nodes b.voter).term
    pub bound :
        (b : Ballot)
        → In b ballots
        → (nodes b.voter).term ≡ b.term
        → (nodes b.voter).voted_for ≡ some b.candidate
    pub unique :
        (a b : Ballot)
        → In a ballots
        → In b ballots
        → a.voter ≡ b.voter
        → a.term ≡ b.term
        → a.candidate ≡ b.candidate

-- What holds of the new state at `j`, and of the old ones elsewhere, holds after the update.
pub at_update :
    (P : String → ElectionManager → Type 0) (nodes : String → ElectionManager) (j : String)
    (m : ElectionManager)
    → P j m
    → ((v : String) → P v (nodes v))
    → (v : String) → P v (update j m nodes v)
at_update P nodes j m new old v = elim (Bool-cases (j == v)) [
  | inl same ↦ rw same (subst (λ u. P u m) ((string_eq.beq_iff j v).0 same) new)
  | inr other ↦ rw other (old v)
]

module _ (members : List String) (nodes : String → ElectionManager) (ballots : List Ballot)
    (j : String) (m : ElectionManager) (k : Keeps (nodes j) m)
    (s : AreSound members nodes ballots) where
  update_bounded :
      (v : String) (b : Ballot) → In b ballots → b.voter ≡ v → b.term ≤ (update j m nodes v).term
  update_bounded =
      at_update (λ v n. (b : Ballot) → In b ballots → b.voter ≡ v → b.term ≤ n.term) nodes j m
        (λ b h e. omega (arith, k.term, subst (λ v. b.term ≤ (nodes v).term) e (s.bounded b h)))
        (λ v b h e. subst (λ v. b.term ≤ (nodes v).term) e (s.bounded b h))

  -- At the voter itself: a ballot of the term that the node now has is its vote.
  own_bound :
      (b : Ballot) → In b ballots → b.voter ≡ j → m.term ≡ b.term → m.voted_for ≡ some b.candidate
  own_bound b h e t =
      let old : b.term ≤ (nodes j).term = subst (λ v. b.term ≤ (nodes v).term) e (s.bounded b h) in
      let still : (nodes j).term ≡ b.term = omega (arith, k.term) in
      k.voted_for b.candidate (omega (arith, k.term)) (
        subst (λ v. (nodes v).term ≡ b.term → (nodes v).voted_for ≡ some b.candidate) e
          (s.bound b h) still)

  update_bound :
      (v : String) (b : Ballot)
      → In b ballots
      → b.voter ≡ v
      → (update j m nodes v).term ≡ b.term
      → (update j m nodes v).voted_for ≡ some b.candidate
  update_bound =
      at_update
        (λ v n.
          (b : Ballot)
          → In b ballots
          → b.voter ≡ v
          → n.term ≡ b.term
          → n.voted_for ≡ some b.candidate)
        nodes j m own_bound
        (λ v b h e.
          subst (λ v. (nodes v).term ≡ b.term → (nodes v).voted_for ≡ some b.candidate) e
            (s.bound b h))

  -- A node that only moves on leaves the ballots sound.
  pub update-AreSound : AreSound members (update j m nodes) ballots
  update-AreSound = record {
    member = s.member;
    bounded = λ b h. update_bounded b.voter b h refl;
    bound = λ b h. update_bound b.voter b h refl;
    unique = s.unique;
  }

  module _ (here : contains j members ≡ true) (x : String) (voted : m.voted_for ≡ some x) where
    abbrev cast : Ballot
    cast = record { voter = j; term = m.term; candidate = x }

    cast_agrees : (b : Ballot) → In b ballots → b.voter ≡ j → b.term ≡ m.term → b.candidate ≡ x
    cast_agrees b h e t = cc (own_bound b h e (sym t), voted)

    cast_unique :
        (a b : Ballot)
        → In a (cast ∷ ballots)
        → In b (cast ∷ ballots)
        → a.voter ≡ b.voter
        → a.term ≡ b.term
        → a.candidate ≡ b.candidate
    cast_unique a b (inl p) (inl q) v t = cc
    cast_unique a b (inl p) (inr q) v t =
        cc (cast_agrees b q (cc) (cc), ap (λ (c : Ballot). c.candidate) p)
    cast_unique a b (inr p) (inl q) v t =
        cc (cast_agrees a p (cc) (cc), ap (λ (c : Ballot). c.candidate) q)
    cast_unique a b (inr p) (inr q) v t = s.unique a b p q v t

    -- So does a node that casts the vote which it is now bound to.
    pub cast-AreSound : AreSound members (update j m nodes) (cast ∷ ballots)
    cast-AreSound = record {
      member = λ b h. elim h [ inl e ↦ rw e here | inr old ↦ s.member b old ];
      bounded = λ b h. elim h [
        | inl e ↦ rw e (rw (eq_refl j) (omega arith))
        | inr old ↦ update_bounded b.voter b old refl
      ];
      bound = λ b h. elim h [
        | inl e ↦ rw e (rw (eq_refl j) (λ _. voted))
        | inr old ↦ update_bound b.voter b old refl
      ];
      unique = cast_unique;
    }
