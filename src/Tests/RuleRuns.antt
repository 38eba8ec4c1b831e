-- ===== src/Tests/RuleRuns.antt =====
-- The custom rules at concrete rules and requests.
use waf.Base.{ℕ, ◌≡◌, refl, true, ◌&&◌, ◌||◌, String, Option, none, some, List, [], ◌∷◌, leb}
use waf.Base.Int.{pos}
use waf.Base.Keys.{string_eq, ◌==◌}
use waf.Base.Map
use waf.Base.Map.{Map}
use waf.Base.Text.{has_text}
use waf.Rules.Custom.{
  Condition, ConditionNode, CustomRule, RequestCtx, Libraries, leaf, and_node, not_node, nil, cons,
  str, all_of, path, method, eq, starts_with_op, allow, eval_conditions,
}
use waf.Rules.Custom.Compiled.{
  CompiledRule, max_tree_depth, max_tree_leaves, validate_tree, c_and, c_not, c_leaf, c_nil, c_cons,
  m_eq, m_starts_with, compile_rule, eval_compiled_node,
}
use waf.Rules.Custom.Size.{depth, leaves, validate_tree_lem}
use waf.Rules.Custom.Truth.{tree_holds}
use waf.Rules.Custom.Meaning.{is_vacuous, compile_rule_tree, compile_rule_flat}
use waf.Rules.Custom.Engine.{load_host, add_file_rules, reload_rules, eval_list, check, or_else}
use waf.Rules.Custom.Order.{answer, best}
use waf.Rules.Custom.Answers.{
  load, clear_files, delete, run, bucket, entries, check-best, check-load_host,
}
use waf.Rules.Custom.Reload.{check-reload_rules}

abbrev libs : Libraries
libs = record {
  Regex = String;
  regex_new = λ s. some s;
  is_match = λ r s. has_text s r;
  IpNet = String;
  parse_net = λ s. some s;
  net_contains = λ net addr. net == addr;
  GlobMatcher = String;
  build_glob = λ s. some s;
  glob_match = λ g s. g == s;
  eval_expression = λ scope script. none;
  to_lowercase = λ s. s;
  from_utf8_lossy = λ bytes. "";
}

abbrev admin : Condition
admin = record { field = path; operator = starts_with_op; value = str "/admin" }

abbrev is_get : Condition
is_get = record { field = method; operator = eq; value = str "GET" }

abbrev tree : ConditionNode
tree = and_node (cons (leaf admin) (cons (not_node (leaf is_get)) nil))

abbrev rule : String → ℕ → List Condition → Option ConditionNode → CustomRule
rule id priority conditions match_tree = record {
  id = id;
  host_code = "shop";
  name = id;
  priority = pos priority;
  enabled = true;
  condition_op = all_of;
  conditions = conditions;
  action = allow;
  action_status = 403;
  action_msg = none;
  script = none;
  match_tree = match_tree;
}

abbrev request : RequestCtx
request = record {
  client_ip = "10.0.0.1";
  method = "POST";
  host = "shop.example";
  path = "/admin/users";
  query = "";
  headers = [];
  body_preview = [];
  content_length = 0;
  host_code = "shop";
  geo = none;
  cookies = [];
}

validate_tree_lem_example :
    validate_tree tree ≡ (leb (depth tree) max_tree_depth && leb (leaves tree) max_tree_leaves)
validate_tree_lem_example = validate_tree_lem tree

abbrev compiled_tree : CompiledRule libs
compiled_tree = record {
  meta = rule "t" 5 [] (some tree);
  root = c_and (
      c_cons (c_leaf (record { field = path; matcher = m_starts_with "/admin" }))
        (c_cons (c_not (c_leaf (record { field = method; matcher = m_eq "GET" }))) c_nil));
}

tree_compiles : compile_rule libs (rule "t" 5 [] (some tree)) ≡ some compiled_tree
unfolding compile_rule
tree_compiles = refl

compile_rule_tree_example :
    eval_compiled_node libs request compiled_tree.root ≡ tree_holds libs request tree
compile_rule_tree_example =
    compile_rule_tree libs request (rule "t" 5 [] (some tree)) tree compiled_tree refl tree_compiles

abbrev empty_rule : CompiledRule libs
empty_rule = record { meta = rule "e" 1 [] none; root = c_and c_nil }

empty_compiles : compile_rule libs (rule "e" 1 [] none) ≡ some empty_rule
unfolding compile_rule
empty_compiles = refl

-- A rule that has no conditions holds of a request.
compile_rule_flat_example :
    eval_compiled_node libs request empty_rule.root
    ≡ is_vacuous libs all_of [] || eval_conditions libs request [] all_of
compile_rule_flat_example =
    compile_rule_flat libs request (rule "e" 1 [] none) empty_rule refl tt empty_compiles

abbrev two : List CustomRule
two = rule "late" 9 (admin ∷ []) none ∷ rule "early" 3 (admin ∷ []) none ∷ []

-- Of two rules that apply, the one of the lower priority answers.
early_first :
    check libs request (load_host libs "shop" two [])
    ≡ some (record { rule_id = "early"; rule_name = "early" })
unfolding check load_host Map.get Map.insert
early_first = refl

check-load_host_example :
    check libs request (load_host libs "shop" two [])
    ≡ or_else
        (answer libs (best libs request (entries libs two)))
        (eval_list libs request (bucket libs "*" []))
check-load_host_example = check-load_host libs request two [] (λ e. absurd (cc e))

check-best_example :
    check libs request (run libs (load "shop" two ∷ delete "shop" "early" ∷ clear_files ∷ []) [])
    ≡ or_else
        (answer libs (
          best libs request (
            bucket libs "shop"
              (run libs (load "shop" two ∷ delete "shop" "early" ∷ clear_files ∷ []) []))))
        (answer libs (
          best libs request (
            bucket libs "*"
              (run libs (load "shop" two ∷ delete "shop" "early" ∷ clear_files ∷ []) []))))
check-best_example =
    check-best libs (load "shop" two ∷ delete "shop" "early" ∷ clear_files ∷ []) request

-- The rules of a host whose rows are all gone.
check-reload_rules_example :
    check libs request (reload_rules libs (("other", two) ∷ []) [] (load_host libs "shop" two []))
    ≡ check libs request (add_file_rules libs [] (load_host libs "shop" two []))
check-reload_rules_example =
    check-reload_rules libs request (("other", two) ∷ []) [] (load_host libs "shop" two [])
      (refl, tt) (refl, tt)
