-- ===== src/Rules/Custom/Size.antt =====
-- The limits on the condition tree of a custom rule.
use waf.Base.{
  ℕ, suc, ◌+◌, ◌≤◌, max, ◌≡◌, ◌&&◌, Option, none, some, inl, inr, ltb, leb, arith, if◌then◌else◌,
  Bool-cases,
}
use waf.Rules.Custom.{ConditionNode, ConditionNodes, leaf, and_node, or_node, not_node, nil, cons}
use waf.Rules.Custom.Compiled.{
  max_tree_depth, max_tree_leaves, count_leaf, walk, walk_all, validate_tree,
}

abbrev mutual
  pub depth : ConditionNode → ℕ
  depth (leaf c) = 1
  depth (and_node ns) = suc (depth_all ns)
  depth (or_node ns) = suc (depth_all ns)
  depth (not_node n) = suc (depth n)

  pub depth_all : ConditionNodes → ℕ
  depth_all nil = 0
  depth_all (cons n ns) = max (depth n) (depth_all ns)

abbrev mutual
  pub leaves : ConditionNode → ℕ
  leaves (leaf c) = 1
  leaves (and_node ns) = leaves_all ns
  leaves (or_node ns) = leaves_all ns
  leaves (not_node n) = leaves n

  pub leaves_all : ConditionNodes → ℕ
  leaves_all nil = 0
  leaves_all (cons n ns) = leaves n + leaves_all ns

-- What the walk of a tree of that depth and number of leaves ends with.
abbrev counted : ℕ → ℕ → ℕ → ℕ → Option ℕ
counted d at n so_far =
    if leb (at + d) (max_tree_depth + 1) && leb (so_far + n) max_tree_leaves
    then some (so_far + n)
    else none

walk_cons :
    (n : ConditionNode) (ns : ConditionNodes) (at so_far : ℕ)
    → walk n at so_far ≡ counted (depth n) at (leaves n) so_far
    → (so_far + leaves n ≤ 256
        → walk_all ns at (so_far + leaves n)
          ≡ counted (depth_all ns) at (leaves_all ns) (so_far + leaves n))
    → walk_all (cons n ns) at so_far
      ≡ counted (depth_all (cons n ns)) at (leaves_all (cons n ns)) so_far
unfolding walk
walk_cons n ns at so_far one rest =
    elim (Bool-cases (leb (at + depth n) 17 && leb (so_far + leaves n) 256)) [
      | inl fits ↦ rw (one, fits, rest (ground (arith, fits))) (ground (arith, fits))
      | inr over ↦ rw (one, over) (ground (arith, over))
    ]

mutual
  unfolding walk count_leaf

  walk_lem :
      (n : ConditionNode) (at so_far : ℕ)
      → so_far ≤ 256
      → walk n at so_far ≡ counted (depth n) at (leaves n) so_far
  walk_lem (leaf c) at so_far h = ground arith
  walk_lem (and_node ns) at so_far h = elim (Bool-cases (ltb 16 at)) [
    | inl deep ↦ ground (arith, deep)
    | inr fits ↦ rw (fits, walk_all_lem ns (at + 1) so_far (ground (arith, fits)) h) (ground arith)
  ]
  walk_lem (or_node ns) at so_far h = elim (Bool-cases (ltb 16 at)) [
    | inl deep ↦ ground (arith, deep)
    | inr fits ↦ rw (fits, walk_all_lem ns (at + 1) so_far (ground (arith, fits)) h) (ground arith)
  ]
  walk_lem (not_node n) at so_far h = elim (Bool-cases (ltb 16 at)) [
    | inl deep ↦ ground (arith, deep)
    | inr fits ↦ rw (fits, walk_lem n (at + 1) so_far h) (ground arith)
  ]

  walk_all_lem :
      (ns : ConditionNodes) (at so_far : ℕ)
      → at ≤ 17
      → so_far ≤ 256
      → walk_all ns at so_far ≡ counted (depth_all ns) at (leaves_all ns) so_far
  walk_all_lem nil at so_far d h = ground arith
  walk_all_lem (cons n ns) at so_far d h =
      walk_cons n ns at so_far (walk_lem n at so_far h)
        (λ more. walk_all_lem ns at (so_far + leaves n) d more)

-- `validate_tree` accepts exactly the trees of at most `max_tree_depth` levels and at most
-- `max_tree_leaves` conditions.
pub validate_tree_lem :
    (n : ConditionNode)
    → validate_tree n ≡ (leb (depth n) max_tree_depth && leb (leaves n) max_tree_leaves)
unfolding validate_tree walk
validate_tree_lem n = rw (walk_lem n 1 0 (omega arith)) (ground arith)
