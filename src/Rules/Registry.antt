-- ===== src/Rules/Registry.antt =====
-- crates/waf-engine/src/rules/registry.rs: the rules by id, and their ids by category and by
-- source. Of a rule the fields that the registry reads are kept; `text` stands for the others.
-- The time of loading is left out.
pub mod Index
pub mod Filter
use waf.Base.{
  ℕ, ◌+◌, ◌-◌, ◌≡◌, Bool, true, false, not, String, Option, none, some, List, [], ◌∷◌, ◌++◌, length,
  select, if◌then◌else◌,
}
use waf.Base.Keys.{◌==◌, string_eq}
use waf.Base.Map
use waf.Base.Map.{Map}
use waf.Base.Words.{wrap_u64}

pub record Rule : Type 0 where
  pub id : String
  pub category : String
  pub source : String
  pub enabled : Bool
  pub text : String

pub record RuleRegistry : Type 0 where
  pub rules : Map String Rule
  pub by_category : Map String (List String)
  pub by_source : Map String (List String)
  pub version : ℕ

abbrev pub new : RuleRegistry
new = record { rules = []; by_category = []; by_source = []; version = 0 }

-- The ids under a key of an index; `get(key).unwrap_or_default()`.
unfoldable pub bucket : String → Map String (List String) → List String
bucket key m = elim (Map.get key m) [ none ↦ [] | some ids ↦ ids ]

-- `entry(key).or_default().push(id)`
unfoldable pub push_index : String → String → Map String (List String) → Map String (List String)
unfolding bucket
push_index key id m = Map.insert key (bucket key m ++ id ∷ []) m

-- `for ids in values_mut() { ids.retain(|x| x != id) }`
unfoldable pub clear_index : String → Map String (List String) → Map String (List String)
clear_index id [] = []
clear_index id ((key, ids) ∷ m) = (key, select (λ x. not (x == id)) ids) ∷ clear_index id m

unfoldable pub remove_index : String → RuleRegistry → RuleRegistry
unfolding clear_index
remove_index id g = record g {
  by_category = clear_index id g.by_category;
  by_source = clear_index id g.by_source;
}

unfoldable pub insert : Rule → RuleRegistry → RuleRegistry
unfolding remove_index push_index
insert rule g =
    let g' : RuleRegistry = elim (Map.get rule.id g.rules) [
      | none ↦ g
      | some _ ↦ remove_index rule.id g
    ] in
    record {
      rules = Map.insert rule.id rule g'.rules;
      by_category = push_index rule.category rule.id g'.by_category;
      by_source = push_index rule.source rule.id g'.by_source;
      version = wrap_u64 (g'.version + 1);
    }

unfoldable pub remove : String → RuleRegistry → RuleRegistry × Option Rule
unfolding remove_index
remove id g = elim (Map.get id g.rules) [
  | none ↦ (g, none)
  | some rule ↦
      let g' = remove_index id (record g { rules = Map.remove id g.rules }) in
      (record g' { version = wrap_u64 (g'.version + 1) }, some rule)
]

unfoldable pub lookup_all : List String → Map String Rule → List Rule
lookup_all [] m = []
lookup_all (id ∷ ids) m =
    let rest = lookup_all ids m in elim (Map.get id m) [ none ↦ rest | some r ↦ r ∷ rest ]

unfoldable pub filter_by_category : String → RuleRegistry → List Rule
unfolding bucket lookup_all
filter_by_category category g = lookup_all (bucket category g.by_category) g.rules

unfoldable pub filter_by_source : String → RuleRegistry → List Rule
unfolding bucket lookup_all
filter_by_source source g = lookup_all (bucket source g.by_source) g.rules

unfoldable pub clear : RuleRegistry → RuleRegistry
clear g = new

-- `stats`: how many rules there are, and how many of them are enabled.
unfoldable pub stats : RuleRegistry → ℕ × ℕ × ℕ
stats g =
    let total = length g.rules in
    let enabled = length (select (λ e. e.1.enabled) g.rules) in (total, enabled, total - enabled)
