-- ===== src/Cluster/Safety/Quorum.antt =====
-- Majorities of one set of members.
use waf.Base.{
  ◌+◌, ◌≤◌, ◌<◌, ◌≡◌, true, false, List, [], ◌∷◌, arith, length, if◌then◌else◌, Bool-cases, inl,
  inr,
}
use waf.Base.Keys.{Eq, ◌==◌, eq_refl}
use waf.Base.Map.{contains, distinct}

module _ {K : Type 0} ⦃e : Eq K⦄ where
  abbrev pub IsSubset : List K → List K → Type 0
  IsSubset a m = (x : K) → contains x a ≡ true → contains x m ≡ true

  erase : K → List K → List K
  erase k [] = []
  erase k (j ∷ s) = let rest = erase k s in if j == k then rest else j ∷ rest

  length-erase-le : (k : K) (s : List K) → length (erase k s) ≤ length s
  unfolding erase
  length-erase-le k [] = omega arith
  length-erase-le k (j ∷ s) = ground (arith, length-erase-le k s)

  length-erase-lt : (k : K) (s : List K) → contains k s ≡ true → length (erase k s) < length s
  unfolding erase contains
  length-erase-lt k [] h = cc
  length-erase-lt k (j ∷ s) h = ground (arith, length-erase-le k s, length-erase-lt k s)

  contains-erase :
      (k j : K) (s : List K) → contains j (erase k s) ≡ (if k == j then false else contains j s)
  unfolding contains erase
  contains-erase k j [] = ground arith
  contains-erase k j (i ∷ s) =
      ground (arith, e.beq_iff k j, e.beq_iff i k, e.beq_iff i j, contains-erase k j s)

  contains_tail : (x y : K) (a : List K) → contains y a ≡ true → contains y (x ∷ a) ≡ true
  unfolding contains
  contains_tail x y a h = ground arith

  contains_head : (x : K) (a : List K) → contains x (x ∷ a) ≡ true
  unfolding contains
  contains_head x a = ground (arith, eq_refl x)

  IsSubset-erase :
      (x : K) (a m : List K) → contains x a ≡ false → IsSubset a m → IsSubset a (erase x m)
  IsSubset-erase x a m h sub y hy = elim (Bool-cases (x == y)) [
    | inl same ↦ ground (arith, (e.beq_iff x y).0 same)
    | inr other ↦ ground (arith, contains-erase x y m, sub y hy, other)
  ]

  distinct_head : (x : K) (a : List K) → distinct (x ∷ a) ≡ true → contains x a ≡ false
  unfolding distinct
  distinct_head x a h = ground arith

  distinct_tail : (x : K) (a : List K) → distinct (x ∷ a) ≡ true → distinct a ≡ true
  unfolding distinct
  distinct_tail x a h = ground arith

  length-le_of_IsSubset : (a m : List K) → distinct a ≡ true → IsSubset a m → length a ≤ length m
  length-le_of_IsSubset [] m h sub = omega arith
  length-le_of_IsSubset (x ∷ a) m h sub = omega (
    arith,
    length-erase-lt x m (sub x (contains_head x a)),
    length-le_of_IsSubset a (erase x m) (distinct_tail x a h)
        (IsSubset-erase x a m (distinct_head x a h) (λ y hy. sub y (contains_tail x y a hy))),
  )

  -- More elements in two lists of members than there are members: one stands in both.
  pub overlap :
      (a b m : List K)
      → distinct a ≡ true
      → distinct b ≡ true
      → IsSubset a m
      → IsSubset b m
      → length m < length a + length b
      → (x : K) × (contains x a ≡ true) × (contains x b ≡ true)
  overlap [] b m da db sa sb h = absurd (omega (arith, length-le_of_IsSubset b m db sb))
  overlap (x ∷ a) b m da db sa sb h = elim (Bool-cases (contains x b)) [
    | inl both ↦ (x, contains_head x a, both)
    | inr out ↦
        let (y, ya, yb) =
          overlap a b (erase x m) (distinct_tail x a da) db
            (IsSubset-erase x a m (distinct_head x a da) (λ y hy. sa y (contains_tail x y a hy)))
            (IsSubset-erase x b m out sb)
            (omega (arith, length-erase-lt x m (sa x (contains_head x a)))) in
        (y, contains_tail x y a ya, yb)
  ]
