-- ===== src/Rules/Custom/Engine.antt =====
-- crates/waf-engine/src/rules/engine.rs: `CustomRulesEngine`, the buckets of rules by host, and how
-- crates/waf-engine/src/engine.rs and rules/custom_file_loader.rs load them.
use waf.Base.{
  Bool, true, false, not, String, Option, none, some, List, [], ◌∷◌, ◌++◌, map, select,
  if◌then◌else◌,
}
use waf.Base.Int.{leb_ℤ}
use waf.Base.Keys.{string_eq, ◌==◌}
use waf.Base.Map
use waf.Base.Map.{Map}
use waf.Rules.Custom.{
  CustomRule, RequestCtx, Libraries, ScopeValue, text, int, as_i64, str_or_empty, eval_conditions,
}
use waf.Rules.Custom.Compiled.{CompiledRule, compile_rule, eval_compiled_node}

pub data RuleSource : Type 0 where
  db file : RuleSource

unfoldable pub is_file : RuleSource → Bool
is_file db = false
is_file file = true

-- What of a `DetectionResult` a custom rule decides: its phase is the same for all of them.
pub record DetectionResult : Type 0 where
  pub rule_id : String
  pub rule_name : String

unfoldable pub scope_of : RequestCtx → Map String ScopeValue
unfolding as_i64
scope_of ctx =
    ("ip", text ctx.client_ip)
    ∷ ("path", text ctx.path)
    ∷ ("method", text ctx.method)
    ∷ ("query", text ctx.query)
    ∷ ("host", text ctx.host)
    ∷ ("user_agent", text (str_or_empty (Map.get "user-agent" ctx.headers)))
    ∷ ("referer", text (str_or_empty (Map.get "referer" ctx.headers)))
    ∷ ("content_type", text (str_or_empty (Map.get "content-type" ctx.headers)))
    ∷ ("content_length", int (as_i64 ctx.content_length))
    ∷ []

unfoldable pub or_false : Option Bool → Bool
or_false none = false
or_false (some b) = b

abbrev pub or_else : Option DetectionResult → Option DetectionResult → Option DetectionResult
or_else none next = next
or_else (some r) next = some r

module _ (lib : Libraries) where
  pub record RuleEntry : Type 0 where
    pub raw : CustomRule
    pub compiled : Option (CompiledRule lib)
    pub source : RuleSource

  abbrev pub Engine : Type 0
  Engine = Map String (List RuleEntry)

  unfoldable pub from_rule_with_source : CustomRule → RuleSource → RuleEntry
  unfolding compile_rule
  from_rule_with_source rule source = record {
    raw = rule;
    compiled = compile_rule lib rule;
    source = source;
  }

  -- `sort_by_key`, which is stable.
  unfoldable pub insert_by : RuleEntry → List RuleEntry → List RuleEntry
  insert_by x [] = x ∷ []
  insert_by x (y ∷ ys) =
      let rest = insert_by x ys in
      if leb_ℤ x.raw.priority y.raw.priority then x ∷ y ∷ ys else y ∷ rest

  unfoldable pub sort_by_priority : List RuleEntry → List RuleEntry
  unfolding insert_by
  sort_by_priority [] = []
  sort_by_priority (x ∷ xs) = insert_by x (sort_by_priority xs)

  abbrev pub bucket_of : Option (List RuleEntry) → List RuleEntry
  bucket_of none = []
  bucket_of (some es) = es

  unfoldable pub load_host : String → List CustomRule → Engine → Engine
  unfolding from_rule_with_source sort_by_priority
  load_host host_code rules m =
      Map.insert host_code
        (sort_by_priority (map (λ r. from_rule_with_source r db) (select (λ r. r.enabled) rules))) m

  unfoldable pub insert_rule : CustomRule → RuleSource → Engine → Engine
  unfolding from_rule_with_source sort_by_priority
  insert_rule rule source m =
      Map.insert rule.host_code
        (sort_by_priority
          (bucket_of (Map.get rule.host_code m) ++ from_rule_with_source rule source ∷ []))
        m

  unfoldable pub add_rule : CustomRule → Engine → Engine
  unfolding insert_rule
  add_rule rule m = insert_rule rule db m

  unfoldable pub add_file_rule : CustomRule → Engine → Engine
  unfolding insert_rule
  add_file_rule rule m = insert_rule rule file m

  -- `for mut bucket in self.rules.iter_mut()`.
  unfoldable pub map_buckets : (List RuleEntry → List RuleEntry) → Engine → Engine
  map_buckets f [] = []
  map_buckets f ((h, es) ∷ m) = (h, f es) ∷ map_buckets f m

  unfoldable pub clear_file_rules : Engine → Engine
  unfolding map_buckets is_file
  clear_file_rules m = map_buckets (select (λ e. not (is_file e.source))) m

  unfoldable pub remove_from : String → String → Option (List RuleEntry) → Engine → Engine
  remove_from host_code rule_id none m = m
  remove_from host_code rule_id (some es) m =
      Map.insert host_code (select (λ e. not (e.raw.id == rule_id)) es) m

  unfoldable pub remove_rule : String → String → Engine → Engine
  unfolding remove_from
  remove_rule host_code rule_id m = remove_from host_code rule_id (Map.get host_code m) m

  unfoldable pub eval_script : RequestCtx → String → Bool
  unfolding scope_of or_false
  eval_script ctx script = or_false (lib.eval_expression (scope_of ctx) script)

  -- The tree that the rule was compiled to; the conditions where it was not.
  unfoldable pub eval_entry : RequestCtx → CustomRule → Option (CompiledRule lib) → Bool
  unfolding eval_compiled_node eval_conditions
  eval_entry ctx rule none = eval_conditions lib ctx rule.conditions rule.condition_op
  eval_entry ctx rule (some compiled) = eval_compiled_node lib ctx compiled.root

  unfoldable pub matched_by : RequestCtx → RuleEntry → Option String → Bool
  unfolding eval_script eval_entry
  matched_by ctx entry none = eval_entry ctx entry.raw entry.compiled
  matched_by ctx entry (some script) = eval_script ctx script

  unfoldable pub matched : RequestCtx → RuleEntry → Bool
  unfolding matched_by
  matched ctx entry = matched_by ctx entry entry.raw.script

  abbrev pub detection : CustomRule → DetectionResult
  detection rule = record { rule_id = rule.id; rule_name = rule.name }

  unfoldable pub eval_list : RequestCtx → List RuleEntry → Option DetectionResult
  unfolding matched
  eval_list ctx [] = none
  eval_list ctx (entry ∷ es) =
      let rest = eval_list ctx es in
      if not entry.raw.enabled
      then rest
      else if matched ctx entry
      then some (detection entry.raw)
      else rest

  unfoldable pub check : RequestCtx → Engine → Option DetectionResult
  unfolding eval_list
  check ctx m =
      or_else (eval_list ctx (bucket_of (Map.get ctx.host_code m)))
        (eval_list ctx (bucket_of (Map.get "*" m)))

  -- `reload_rules` of the engine: the rows of the database, grouped by host, and the file rules.
  unfoldable pub load_groups : Map String (List CustomRule) → Engine → Engine
  unfolding load_host
  load_groups [] m = m
  load_groups ((host_code, rules) ∷ groups) m = load_groups groups (load_host host_code rules m)

  unfoldable pub add_file_rules : List CustomRule → Engine → Engine
  unfolding add_file_rule
  add_file_rules [] m = m
  add_file_rules (r ∷ rs) m = add_file_rules rs (add_file_rule r m)

  unfoldable pub reload_rules : Map String (List CustomRule) → List CustomRule → Engine → Engine
  unfolding load_groups add_file_rules
  reload_rules by_host file_rules m = add_file_rules file_rules (load_groups by_host m)

  -- `reload_now` of the watcher of files.
  unfoldable pub reload_now : Option (List CustomRule) → Engine → Engine
  unfolding clear_file_rules add_file_rules
  reload_now none m = clear_file_rules m
  reload_now (some rules) m = add_file_rules rules (clear_file_rules m)
