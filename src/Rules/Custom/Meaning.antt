-- ===== src/Rules/Custom/Meaning.antt =====
-- The compiled form of a custom rule against the conditions as they are written.
use waf.Base.{
  ◌≡◌, ◌≢◌, refl, Bool, true, false, not, ◌&&◌, ◌||◌, String, Option, none, some, List, [], ◌∷◌,
  inl, inr, sym, ap, ◌∙◌, arith, Bool-cases, Option-cases,
}
use mathlib.Core.Path.{subst}
use waf.Base.Keys.{string_eq}
use waf.Rules.Custom.{
  Operator, ConditionValue, Condition, ConditionOp, ConditionNode, ConditionNodes, CustomRule,
  RequestCtx, Libraries, leaf, and_node, or_node, not_node, nil, cons, all_of, any_of, wildcard,
  str_or_empty, field_value, eval_op, eval_one, eval_all, eval_any, eval_conditions,
}
use waf.Rules.Custom.Compiled.{
  CompiledRule, CompiledNode, CompiledNodes, c_and, c_or, c_not, c_nil, matcher_of, of_field,
  compile_condition, eval_leaf, eval_compiled_node, eval_every, eval_some, map_node, map_nodes,
  cons_node, leaf_of, compile_leaf, compile_tree, compile_trees, compile_flat, flat_root, root_of,
  rule_of, compile_rule, validate_tree,
}
use waf.Rules.Custom.Truth.{op_holds, holds, tree_holds, every_holds, some_holds, matcher_of-Says}

module _ (lib : Libraries) where
  -- A compiled condition or tree, where there is one, says b of a request.
  abbrev SaysNode : RequestCtx → Option (CompiledNode lib) → Bool → Type 0
  SaysNode ctx none b = Unit {0}
  SaysNode ctx (some k) b = eval_compiled_node lib ctx k ≡ b

  -- Compiled branches, where there are some, say e for all of them and s for one of them.
  abbrev SaysNodes : RequestCtx → Option (CompiledNodes lib) → Bool → Bool → Type 0
  SaysNodes ctx none e s = Unit {0}
  SaysNodes ctx (some ks) e s = (eval_every lib ctx ks ≡ e) × (eval_some lib ctx ks ≡ s)

  leaf-SaysNode :
      (ctx : RequestCtx) (c : Condition) → SaysNode ctx (compile_leaf lib c) (holds lib ctx c)
  unfolding compile_leaf leaf_of compile_condition of_field eval_compiled_node eval_leaf
  leaf-SaysNode ctx c =
      let said =
        matcher_of-Says lib c.operator c.value (str_or_empty (field_value lib ctx c.field))
          ctx.client_ip in
      elim (Option-cases (matcher_of lib c.operator c.value)) [
        | inl e ↦ rw e tt
        | inr (m, e) ↦ rw e (rw e at said)
      ]

  cons-SaysNodes :
      (ctx : RequestCtx) (k : Option (CompiledNode lib)) (ks : Option (CompiledNodes lib))
      (b e s : Bool)
      → SaysNode ctx k b
      → SaysNodes ctx ks e s
      → SaysNodes ctx (cons_node lib k ks) (b && e) (b || s)
  unfolding eval_compiled_node
  cons-SaysNodes ctx none ks b e s h hs = tt
  cons-SaysNodes ctx (some k) none b e s h hs = tt
  cons-SaysNodes ctx (some k) (some ks) b e s h hs = rw (h, hs.0, hs.1) (ground arith, ground arith)

  every-SaysNode :
      (ctx : RequestCtx) (ks : Option (CompiledNodes lib)) (e s : Bool)
      → SaysNodes ctx ks e s
      → SaysNode ctx (map_nodes lib (λ k. c_and k) ks) e
        × SaysNode ctx (map_nodes lib (λ k. c_or k) ks) s
  unfolding eval_compiled_node
  every-SaysNode ctx none e s h = (tt, tt)
  every-SaysNode ctx (some ks) e s h = h

  not-SaysNode :
      (ctx : RequestCtx) (k : Option (CompiledNode lib)) (b : Bool)
      → SaysNode ctx k b
      → SaysNode ctx (map_node lib (λ j. c_not j) k) (not b)
  unfolding eval_compiled_node
  not-SaysNode ctx none b h = tt
  not-SaysNode ctx (some k) b h = ap not h

  nil-SaysNodes : (ctx : RequestCtx) → SaysNodes ctx (some c_nil) true false
  unfolding eval_compiled_node
  nil-SaysNodes ctx = (refl, refl)

  mutual
    unfolding compile_tree

    tree-SaysNode :
        (ctx : RequestCtx) (n : ConditionNode)
        → SaysNode ctx (compile_tree lib n) (tree_holds lib ctx n)
    tree-SaysNode ctx (leaf c) = leaf-SaysNode ctx c
    tree-SaysNode ctx (and_node ns) =
        (every-SaysNode ctx (compile_trees lib ns) (every_holds lib ctx ns) (some_holds lib ctx ns)
          (trees-SaysNodes ctx ns)).0
    tree-SaysNode ctx (or_node ns) =
        (every-SaysNode ctx (compile_trees lib ns) (every_holds lib ctx ns) (some_holds lib ctx ns)
          (trees-SaysNodes ctx ns)).1
    tree-SaysNode ctx (not_node n) =
        not-SaysNode ctx (compile_tree lib n) (tree_holds lib ctx n) (tree-SaysNode ctx n)

    trees-SaysNodes :
        (ctx : RequestCtx) (ns : ConditionNodes)
        → SaysNodes ctx (compile_trees lib ns) (every_holds lib ctx ns) (some_holds lib ctx ns)
    trees-SaysNodes ctx nil = nil-SaysNodes ctx
    trees-SaysNodes ctx (cons n ns) =
        cons-SaysNodes ctx (compile_tree lib n) (compile_trees lib ns) (tree_holds lib ctx n)
          (every_holds lib ctx ns) (some_holds lib ctx ns) (tree-SaysNode ctx n)
          (trees-SaysNodes ctx ns)

  -- No condition has a wildcard.
  abbrev pub AllPlain : List Condition → Type 0
  AllPlain [] = Unit {0}
  AllPlain (c ∷ cs) = (c.operator ≢ wildcard) × AllPlain cs

  op_plain :
      (op : Operator) (v : ConditionValue) (f a : String)
      → op ≢ wildcard
      → op_holds lib op v f a ≡ eval_op lib op v f a
  op_plain wildcard v f a n = absurd (n refl)
  op_plain _ v f a n = refl

  flat-SaysNodes :
      (ctx : RequestCtx) (cs : List Condition)
      → AllPlain cs
      → SaysNodes ctx (compile_flat lib cs) (eval_all lib ctx cs) (eval_any lib ctx cs)
  unfolding compile_flat eval_all eval_any
  flat-SaysNodes ctx [] p = nil-SaysNodes ctx
  flat-SaysNodes ctx (c ∷ cs) p =
      let same : holds lib ctx c ≡ eval_one lib ctx c =
        unfold eval_one in
        op_plain c.operator c.value (str_or_empty (field_value lib ctx c.field)) ctx.client_ip
          p.0 in
      cons-SaysNodes ctx (compile_leaf lib c) (compile_flat lib cs) (eval_one lib ctx c)
        (eval_all lib ctx cs) (eval_any lib ctx cs)
        (subst (λ b. SaysNode ctx (compile_leaf lib c) b) same (leaf-SaysNode ctx c))
        (flat-SaysNodes ctx cs p.1)

  -- A rule that compiles says b of a request.
  abbrev SaysRule : RequestCtx → Option (CompiledRule lib) → Bool → Type 0
  SaysRule ctx none b = Unit {0}
  SaysRule ctx (some k) b = eval_compiled_node lib ctx k.root ≡ b

  rule_of-SaysRule :
      (ctx : RequestCtx) (r : CustomRule) (o : Option (CompiledNode lib)) (b : Bool)
      → SaysNode ctx o b
      → SaysRule ctx (rule_of lib r o) b
  rule_of-SaysRule ctx r none b h = tt
  rule_of-SaysRule ctx r (some k) b h = h

  -- The meaning of the conditions of a rule, by the operator between them.
  abbrev flat_holds : ConditionOp → RequestCtx → List Condition → Bool
  flat_holds all_of ctx cs = eval_all lib ctx cs
  flat_holds any_of ctx cs = eval_any lib ctx cs

  flat-SaysNode :
      (ctx : RequestCtx) (op : ConditionOp) (cs : List Condition)
      → AllPlain cs
      → SaysNode ctx (map_nodes lib (flat_root lib op) (compile_flat lib cs)) (flat_holds op ctx cs)
  unfolding flat_root
  flat-SaysNode ctx all_of cs p =
      (every-SaysNode ctx (compile_flat lib cs) (eval_all lib ctx cs) (eval_any lib ctx cs)
        (flat-SaysNodes ctx cs p)).0
  flat-SaysNode ctx any_of cs p =
      (every-SaysNode ctx (compile_flat lib cs) (eval_all lib ctx cs) (eval_any lib ctx cs)
        (flat-SaysNodes ctx cs p)).1

  -- A rule whose conditions are none, all of which have to hold.
  abbrev pub is_vacuous : ConditionOp → List Condition → Bool
  is_vacuous all_of [] = true
  is_vacuous all_of (c ∷ cs) = false
  is_vacuous any_of cs = false

  flat_holds_lem :
      (ctx : RequestCtx) (op : ConditionOp) (cs : List Condition)
      → flat_holds op ctx cs ≡ is_vacuous op cs || eval_conditions lib ctx cs op
  unfolding eval_conditions eval_all eval_any
  flat_holds_lem ctx all_of [] = refl
  flat_holds_lem ctx all_of (c ∷ cs) = refl
  flat_holds_lem ctx any_of [] = refl
  flat_holds_lem ctx any_of (c ∷ cs) = refl

  -- The compiled form of a rule with a tree holds of a request exactly when the tree holds by its
  -- Boolean meaning, an operator that is no wildcard as in `eval_one`, a wildcard by its glob.
  pub compile_rule_tree :
      (ctx : RequestCtx) (r : CustomRule) (t : ConditionNode) (k : CompiledRule lib)
      → r.match_tree ≡ some t
      → compile_rule lib r ≡ some k
      → eval_compiled_node lib ctx k.root ≡ tree_holds lib ctx t
  unfolding compile_rule root_of
  compile_rule_tree ctx r t k tree h = elim (Bool-cases (validate_tree t)) [
    | inl fine ↦
        let made : compile_rule lib r ≡ rule_of lib r (compile_tree lib t) = rw (tree, fine) refl in
        subst (λ o. SaysRule ctx o (tree_holds lib ctx t)) (sym made ∙ h)
          (rule_of-SaysRule ctx r (compile_tree lib t) (tree_holds lib ctx t) (tree-SaysNode ctx t))
    | inr bad ↦
        let made : compile_rule lib r ≡ none = rw (tree, bad) refl in absurd (cc (sym made ∙ h))
  ]

  -- The compiled form of a rule without a tree, none of whose conditions has a wildcard, holds of a
  -- request exactly when `eval_conditions` does, or when the rule asks for all of no conditions.
  pub compile_rule_flat :
      (ctx : RequestCtx) (r : CustomRule) (k : CompiledRule lib)
      → r.match_tree ≡ none
      → AllPlain r.conditions
      → compile_rule lib r ≡ some k
      → eval_compiled_node lib ctx k.root
        ≡ is_vacuous r.condition_op r.conditions
          || eval_conditions lib ctx r.conditions r.condition_op
  unfolding compile_rule root_of
  compile_rule_flat ctx r k tree p h =
      let flat = map_nodes lib (flat_root lib r.condition_op) (compile_flat lib r.conditions) in
      let made : compile_rule lib r ≡ rule_of lib r flat = rw tree refl in
      subst (λ o. SaysRule ctx o (flat_holds r.condition_op ctx r.conditions)) (sym made ∙ h)
        (rule_of-SaysRule ctx r flat (flat_holds r.condition_op ctx r.conditions)
          (flat-SaysNode ctx r.condition_op r.conditions p))
      ∙ flat_holds_lem ctx r.condition_op r.conditions
