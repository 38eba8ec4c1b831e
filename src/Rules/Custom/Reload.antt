-- ===== src/Rules/Custom/Reload.antt =====
-- Rules that a reload leaves, and rules that fail to compile.
use waf.Base.{◌≡◌, refl, ◌∙◌, false, String, List, [], ◌∷◌, inl, inr, Bool-cases}
use waf.Base.Keys.{string_eq, ◌==◌}
use waf.Base.Map
use waf.Base.Map.{Map, get-insert}
use waf.Rules.Custom.{CustomRule, RequestCtx, Libraries}
use waf.Rules.Custom.Engine.{
  Engine, RuleSource, file, load_host, insert_rule, add_file_rule, load_groups, add_file_rules,
  reload_rules, check,
}

module _ (lib : Libraries) where
  -- No row of the database is of that host.
  abbrev pub NoRows : String → Map String (List CustomRule) → Type 0
  NoRows h [] = Unit {0}
  NoRows h ((j, rules) ∷ groups) = ((j == h) ≡ false) × NoRows h groups

  get-load_groups :
      (h : String) (groups : Map String (List CustomRule)) (m : Engine lib)
      → NoRows h groups
      → Map.get h (load_groups lib groups m) ≡ Map.get h m
  unfolding load_groups load_host
  get-load_groups h [] m n = refl
  get-load_groups h ((j, rules) ∷ groups) m n =
      get-load_groups h groups (load_host lib j rules m) n.1 ∙ rw (get-insert j h _ m, n.0) refl

  -- Two engines that agree on a host still do when a rule is added to both.
  insert_rule-agree :
      (h : String) (r : CustomRule) (source : RuleSource) (m k : Engine lib)
      → Map.get h m ≡ Map.get h k
      → Map.get h (insert_rule lib r source m) ≡ Map.get h (insert_rule lib r source k)
  unfolding insert_rule
  insert_rule-agree h r source m k e = elim (Bool-cases (r.host_code == h)) [
    | inl same ↦
        let i : r.host_code ≡ h = (string_eq.beq_iff r.host_code h).0 same in
        rw (get-insert r.host_code h _ m, get-insert r.host_code h _ k, same, i, e) refl
    | inr other ↦ rw (get-insert r.host_code h _ m, get-insert r.host_code h _ k, other) e
  ]

  add_file_rules-agree :
      (h : String) (rs : List CustomRule) (m k : Engine lib)
      → Map.get h m ≡ Map.get h k
      → Map.get h (add_file_rules lib rs m) ≡ Map.get h (add_file_rules lib rs k)
  unfolding add_file_rules add_file_rule
  add_file_rules-agree h [] m k e = e
  add_file_rules-agree h (r ∷ rs) m k e =
      add_file_rules-agree h rs (insert_rule lib r file m) (insert_rule lib r file k)
        (insert_rule-agree h r file m k e)

  -- A reload of the rules in whose rows there is none of the host of a request and none for all
  -- hosts answers the request as if the rules from files were added to all rules held before: none
  -- of those is dropped.
  pub check-reload_rules :
      (ctx : RequestCtx) (by_host : Map String (List CustomRule)) (file_rules : List CustomRule)
      (m : Engine lib)
      → NoRows ctx.host_code by_host
      → NoRows "*" by_host
      → check lib ctx (reload_rules lib by_host file_rules m)
        ≡ check lib ctx (add_file_rules lib file_rules m)
  unfolding check reload_rules
  check-reload_rules ctx by_host file_rules m host all =
      let loaded = load_groups lib by_host m in
      rw
        (
          add_file_rules-agree ctx.host_code file_rules loaded m
              (get-load_groups ctx.host_code by_host m host),
          add_file_rules-agree "*" file_rules loaded m (get-load_groups "*" by_host m all),
        )
        refl
