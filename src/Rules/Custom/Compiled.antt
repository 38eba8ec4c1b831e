-- ===== src/Rules/Custom/Compiled.antt =====
-- crates/waf-engine/src/rules/engine.rs: the compiled form of a custom rule, and its evaluation.
use waf.Base.{
  ℕ, ◌+◌, Bool, true, false, not, ◌&&◌, ◌||◌, String, Option, none, some, List, [], ◌∷◌, any, ltb,
  if◌then◌else◌,
}
use waf.Base.Int.{ℤ, ltb_ℤ, leb_ℤ}
use waf.Base.Keys.{string_eq, ◌==◌}
use waf.Base.Text.{
  starts_with, ends_with, has_text, eq_ignore_ascii_case, parse_i64, trim, is_empty,
}
use waf.Rules.Custom.{
  leaf, and_node, or_node, not_node, nil, cons, str, list, number, all_of, any_of, eq, ne, contains,
  not_contains, starts_with_op, ends_with_op, regex, wildcard, in_list, not_in_list, cidr_match, gt,
  lt, gte, lte, ConditionField, Operator, ConditionValue, Condition, ConditionOp, ConditionNode,
  ConditionNodes, CustomRule, RequestCtx, Libraries, str_or_empty, compare, field_value,
}

abbrev pub max_tree_depth : ℕ
max_tree_depth = 16

abbrev pub max_tree_leaves : ℕ
max_tree_leaves = 256

abbrev and_then : Option ℕ → (ℕ → Option ℕ) → Option ℕ
and_then none f = none
and_then (some n) f = f n

-- The walk of `validate_tree`: the leaves counted so far, none on an error.
unfoldable pub count_leaf : ℕ → Option ℕ
count_leaf leaves = if ltb max_tree_leaves (leaves + 1) then none else some (leaves + 1)

unfoldable mutual
  unfolding count_leaf

  pub walk : ConditionNode → ℕ → ℕ → Option ℕ
  walk (leaf c) depth leaves = if ltb max_tree_depth depth then none else count_leaf leaves
  walk (and_node ns) depth leaves =
      let rest = walk_all ns (depth + 1) leaves in if ltb max_tree_depth depth then none else rest
  walk (or_node ns) depth leaves =
      let rest = walk_all ns (depth + 1) leaves in if ltb max_tree_depth depth then none else rest
  walk (not_node n) depth leaves =
      let rest = walk n (depth + 1) leaves in if ltb max_tree_depth depth then none else rest

  pub walk_all : ConditionNodes → ℕ → ℕ → Option ℕ
  walk_all nil depth leaves = some leaves
  walk_all (cons n ns) depth leaves =
      and_then (walk n depth leaves) (λ counted. walk_all ns depth counted)

abbrev is_some : Option ℕ → Bool
is_some none = false
is_some (some n) = true

unfoldable pub validate_tree : ConditionNode → Bool
unfolding walk
validate_tree n = is_some (walk n 1 0)

module _ (lib : Libraries) where
  pub data Matcher : Type 0 where
    m_eq m_ne m_contains m_not_contains m_starts_with m_ends_with : String → Matcher
    m_regex : lib.Regex → Matcher
    m_glob : lib.GlobMatcher → Matcher
    m_in_list m_not_in_list : List String → Matcher
    m_cidr : lib.IpNet → Matcher
    m_gt m_lt m_gte m_lte : ℤ → Matcher

  pub record CompiledCondition : Type 0 where
    pub field : ConditionField
    pub matcher : Matcher

  mutual
    pub data CompiledNode : Type 0 where
      c_leaf : CompiledCondition → CompiledNode
      c_and c_or : CompiledNodes → CompiledNode
      c_not : CompiledNode → CompiledNode

    pub data CompiledNodes : Type 0 where
      c_nil : CompiledNodes
      c_cons : CompiledNode → CompiledNodes → CompiledNodes

  pub record CompiledRule : Type 0 where
    pub meta : CustomRule
    pub root : CompiledNode

  unfoldable pub of_glob : Option lib.GlobMatcher → Option Matcher
  of_glob none = none
  of_glob (some g) = some (m_glob g)

  unfoldable pub compile_wildcard : String → Option Matcher
  unfolding of_glob
  compile_wildcard trimmed =
      if is_empty trimmed
      then none
      else if trimmed == "**"
      then none
      else of_glob (lib.build_glob trimmed)

  unfoldable pub of_regex : Option lib.Regex → Option Matcher
  of_regex none = none
  of_regex (some r) = some (m_regex r)

  unfoldable pub of_net : Option lib.IpNet → Option Matcher
  of_net none = none
  of_net (some net) = some (m_cidr net)

  -- The match of `compile_condition`; the elements of a hash set are those of the list.
  unfoldable pub matcher_of : Operator → ConditionValue → Option Matcher
  unfolding of_regex of_net compile_wildcard
  matcher_of eq (str s) = some (m_eq s)
  matcher_of ne (str s) = some (m_ne s)
  matcher_of contains (str s) = some (m_contains s)
  matcher_of not_contains (str s) = some (m_not_contains s)
  matcher_of starts_with_op (str s) = some (m_starts_with s)
  matcher_of ends_with_op (str s) = some (m_ends_with s)
  matcher_of regex (str s) = of_regex (lib.regex_new s)
  matcher_of wildcard (str s) = compile_wildcard (trim s)
  matcher_of in_list (list l) = some (m_in_list l)
  matcher_of not_in_list (list l) = some (m_not_in_list l)
  matcher_of cidr_match (str s) = of_net (lib.parse_net s)
  matcher_of gt (number n) = some (m_gt n)
  matcher_of lt (number n) = some (m_lt n)
  matcher_of gte (number n) = some (m_gte n)
  matcher_of lte (number n) = some (m_lte n)
  matcher_of _ _ = none

  unfoldable pub of_field : ConditionField → Option Matcher → Option CompiledCondition
  of_field f none = none
  of_field f (some m) = some (record { field = f; matcher = m })

  unfoldable pub compile_condition : Condition → Option CompiledCondition
  unfolding matcher_of of_field
  compile_condition c = of_field c.field (matcher_of c.operator c.value)

  unfoldable pub matches : Matcher → String → String → Bool
  unfolding compare
  matches (m_eq s) fstr addr = eq_ignore_ascii_case fstr s
  matches (m_ne s) fstr addr = not (eq_ignore_ascii_case fstr s)
  matches (m_contains s) fstr addr = has_text fstr s
  matches (m_not_contains s) fstr addr = not (has_text fstr s)
  matches (m_starts_with s) fstr addr = starts_with fstr s
  matches (m_ends_with s) fstr addr = ends_with fstr s
  matches (m_regex r) fstr addr = lib.is_match r fstr
  matches (m_glob g) fstr addr = lib.glob_match g fstr
  matches (m_in_list l) fstr addr = any (λ v. v == fstr) l
  matches (m_not_in_list l) fstr addr = not (any (λ v. v == fstr) l)
  matches (m_cidr net) fstr addr = lib.net_contains net addr
  matches (m_gt n) fstr addr = compare (λ v. ltb_ℤ n v) (parse_i64 fstr)
  matches (m_lt n) fstr addr = compare (λ v. ltb_ℤ v n) (parse_i64 fstr)
  matches (m_gte n) fstr addr = compare (λ v. leb_ℤ n v) (parse_i64 fstr)
  matches (m_lte n) fstr addr = compare (λ v. leb_ℤ v n) (parse_i64 fstr)

  unfoldable pub eval_leaf : RequestCtx → CompiledCondition → Bool
  unfolding matches field_value
  eval_leaf ctx c = matches c.matcher (str_or_empty (field_value lib ctx c.field)) ctx.client_ip

  unfoldable mutual
    unfolding eval_leaf

    pub eval_compiled_node : RequestCtx → CompiledNode → Bool
    eval_compiled_node ctx (c_leaf c) = eval_leaf ctx c
    eval_compiled_node ctx (c_and ns) = eval_every ctx ns
    eval_compiled_node ctx (c_or ns) = eval_some ctx ns
    eval_compiled_node ctx (c_not n) = not (eval_compiled_node ctx n)

    pub eval_every : RequestCtx → CompiledNodes → Bool
    eval_every ctx c_nil = true
    eval_every ctx (c_cons n ns) = eval_compiled_node ctx n && eval_every ctx ns

    pub eval_some : RequestCtx → CompiledNodes → Bool
    eval_some ctx c_nil = false
    eval_some ctx (c_cons n ns) = eval_compiled_node ctx n || eval_some ctx ns

  abbrev pub map_node : (CompiledNode → CompiledNode) → Option CompiledNode → Option CompiledNode
  map_node f none = none
  map_node f (some k) = some (f k)

  abbrev pub map_nodes : (CompiledNodes → CompiledNode) → Option CompiledNodes → Option CompiledNode
  map_nodes f none = none
  map_nodes f (some ks) = some (f ks)

  abbrev pub cons_node : Option CompiledNode → Option CompiledNodes → Option CompiledNodes
  cons_node none ks = none
  cons_node (some k) none = none
  cons_node (some k) (some ks) = some (c_cons k ks)

  unfoldable pub leaf_of : Option CompiledCondition → Option CompiledNode
  leaf_of none = none
  leaf_of (some k) = some (c_leaf k)

  unfoldable pub compile_leaf : Condition → Option CompiledNode
  unfolding compile_condition leaf_of
  compile_leaf c = leaf_of (compile_condition c)

  unfoldable mutual
    unfolding compile_leaf

    pub compile_tree : ConditionNode → Option CompiledNode
    compile_tree (leaf c) = compile_leaf c
    compile_tree (and_node ns) = map_nodes (λ ks. c_and ks) (compile_trees ns)
    compile_tree (or_node ns) = map_nodes (λ ks. c_or ks) (compile_trees ns)
    compile_tree (not_node n) = map_node (λ k. c_not k) (compile_tree n)

    pub compile_trees : ConditionNodes → Option CompiledNodes
    compile_trees nil = some c_nil
    compile_trees (cons n ns) = cons_node (compile_tree n) (compile_trees ns)

  unfoldable pub compile_flat : List Condition → Option CompiledNodes
  unfolding compile_leaf
  compile_flat [] = some c_nil
  compile_flat (c ∷ cs) = cons_node (compile_leaf c) (compile_flat cs)

  unfoldable pub flat_root : ConditionOp → CompiledNodes → CompiledNode
  flat_root all_of ks = c_and ks
  flat_root any_of ks = c_or ks

  unfoldable pub root_of : CustomRule → Option ConditionNode → Option CompiledNode
  unfolding validate_tree compile_tree compile_flat flat_root
  root_of rule none = map_nodes (flat_root rule.condition_op) (compile_flat rule.conditions)
  root_of rule (some tree) =
      let root = compile_tree tree in if validate_tree tree then root else none

  abbrev pub rule_of : CustomRule → Option CompiledNode → Option CompiledRule
  rule_of rule none = none
  rule_of rule (some root) = some (record { meta = rule; root = root })

  unfoldable pub compile_rule : CustomRule → Option CompiledRule
  unfolding root_of
  compile_rule rule = rule_of rule (root_of rule rule.match_tree)
