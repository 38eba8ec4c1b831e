-- ===== src/Rules/Custom/Truth.antt =====
-- What the conditions of a custom rule say as they are written, and the matchers for them.
use waf.Base.{
  ◌≡◌, refl, Bool, true, false, not, ◌&&◌, ◌||◌, String, Option, none, some, inl, inr, Bool-cases,
}
use waf.Base.Keys.{string_eq, ◌==◌}
use waf.Base.Text.{trim, is_empty}
use waf.Rules.Custom.{
  Operator, ConditionValue, Condition, ConditionNode, ConditionNodes, RequestCtx, Libraries, leaf,
  and_node, or_node, not_node, nil, cons, str, list, number, eq, ne, contains, not_contains,
  starts_with_op, ends_with_op, regex, wildcard, in_list, not_in_list, cidr_match, gt, lt, gte, lte,
  str_or_empty, field_value, eval_op, regex_matches, net_has,
}
use waf.Rules.Custom.Compiled.{
  Matcher, of_glob, compile_wildcard, of_regex, of_net, matcher_of, matches,
}

module _ (lib : Libraries) where
  -- A glob that is not built matches nothing.
  abbrev pub glob_holds : Option lib.GlobMatcher → String → Bool
  glob_holds none s = false
  glob_holds (some g) s = lib.glob_match g s

  -- What an operator and its value say of a text: `eval_op`, and a glob for a wildcard.
  abbrev pub op_holds : Operator → ConditionValue → String → String → Bool
  op_holds wildcard (str s) fstr addr = glob_holds (lib.build_glob (trim s)) fstr
  op_holds op v fstr addr = eval_op lib op v fstr addr

  abbrev pub holds : RequestCtx → Condition → Bool
  holds ctx c =
      op_holds c.operator c.value (str_or_empty (field_value lib ctx c.field)) ctx.client_ip

  -- The Boolean meaning of a tree.
  abbrev mutual
    pub tree_holds : RequestCtx → ConditionNode → Bool
    tree_holds ctx (leaf c) = holds ctx c
    tree_holds ctx (and_node ns) = every_holds ctx ns
    tree_holds ctx (or_node ns) = some_holds ctx ns
    tree_holds ctx (not_node n) = not (tree_holds ctx n)

    pub every_holds : RequestCtx → ConditionNodes → Bool
    every_holds ctx nil = true
    every_holds ctx (cons n ns) = tree_holds ctx n && every_holds ctx ns

    pub some_holds : RequestCtx → ConditionNodes → Bool
    some_holds ctx nil = false
    some_holds ctx (cons n ns) = tree_holds ctx n || some_holds ctx ns

  -- A matcher, where there is one, says b of a text.
  abbrev pub Says : Option (Matcher lib) → String → String → Bool → Type 0
  Says none fstr addr b = Unit {0}
  Says (some m) fstr addr b = matches lib m fstr addr ≡ b

  regex-Says :
      (r : Option lib.Regex) (f a : String) → Says (of_regex lib r) f a (regex_matches lib r f)
  unfolding of_regex matches regex_matches
  regex-Says none f a = tt
  regex-Says (some r) f a = refl

  net-Says : (n : Option lib.IpNet) (f a : String) → Says (of_net lib n) f a (net_has lib n a)
  unfolding of_net matches net_has
  net-Says none f a = tt
  net-Says (some n) f a = refl

  glob-Says :
      (g : Option lib.GlobMatcher) (f a : String) → Says (of_glob lib g) f a (glob_holds g f)
  unfolding of_glob matches
  glob-Says none f a = tt
  glob-Says (some g) f a = refl

  compile_wildcard-Says :
      (s f a : String) → Says (compile_wildcard lib s) f a (glob_holds (lib.build_glob s) f)
  unfolding compile_wildcard
  compile_wildcard-Says s f a = elim (Bool-cases (is_empty s)) [
    | inl e ↦ rw e tt
    | inr e ↦ elim (Bool-cases (s == "**")) [
      | inl all ↦ rw (e, all) tt
      | inr fine ↦ rw (e, fine) (glob-Says (lib.build_glob s) f a)
    ]
  ]

  pub matcher_of-Says :
      (op : Operator) (v : ConditionValue) (f a : String)
      → Says (matcher_of lib op v) f a (op_holds op v f a)
  unfolding matcher_of matches eval_op
  matcher_of-Says regex (str s) f a = regex-Says (lib.regex_new s) f a
  matcher_of-Says cidr_match (str s) f a = net-Says (lib.parse_net s) f a
  matcher_of-Says wildcard (str s) f a = compile_wildcard-Says (trim s) f a
  matcher_of-Says eq (str s) f a = refl
  matcher_of-Says ne (str s) f a = refl
  matcher_of-Says contains (str s) f a = refl
  matcher_of-Says not_contains (str s) f a = refl
  matcher_of-Says starts_with_op (str s) f a = refl
  matcher_of-Says ends_with_op (str s) f a = refl
  matcher_of-Says in_list (list l) f a = refl
  matcher_of-Says not_in_list (list l) f a = refl
  matcher_of-Says gt (number n) f a = refl
  matcher_of-Says lt (number n) f a = refl
  matcher_of-Says gte (number n) f a = refl
  matcher_of-Says lte (number n) f a = refl
  matcher_of-Says _ _ f a = tt
