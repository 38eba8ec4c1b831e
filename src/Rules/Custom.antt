-- ===== src/Rules/Custom.antt =====
-- crates/waf-engine/src/rules/engine.rs: the custom rules, the fields of a request and the
-- conditions on them as they are written. Regular expressions, globs, networks and Unicode's lower
-- case are parameters; an address is its text.
pub mod Compiled
pub mod Truth
pub mod Meaning
pub mod Size
pub mod Engine
pub mod Order
pub mod Answers
pub mod Reload
use waf.Base.{
  ℕ, suc, ◌+◌, ◌-◌, ◌^◌, Bool, true, false, not, ◌&&◌, ◌||◌, String, Option, none, some, List, [],
  ◌∷◌, any, ltb, if◌then◌else◌,
}
use waf.Base.Keys.{string_eq, ◌==◌}
use waf.Base.Int.{ℤ, pos, negsuc, ltb_ℤ, leb_ℤ}
use waf.Base.Map
use waf.Base.Map.{Map}
use waf.Base.Text.{starts_with, ends_with, has_text, eq_ignore_ascii_case, parse_i64, show_u64}

pub data ConditionField : Type 0 where
  ip path query method body user_agent content_type content_length host : ConditionField
  geo_country geo_iso geo_province geo_city geo_isp : ConditionField
  cookie : Option String → ConditionField
  header : String → ConditionField

pub data Operator : Type 0 where
  eq ne contains not_contains starts_with_op ends_with_op regex wildcard in_list : Operator
  not_in_list cidr_match gt lt gte lte : Operator

pub data ConditionValue : Type 0 where
  str : String → ConditionValue
  list : List String → ConditionValue
  number : ℤ → ConditionValue

pub record Condition : Type 0 where
  pub field : ConditionField
  pub operator : Operator
  pub value : ConditionValue

pub data ConditionOp : Type 0 where
  all_of any_of : ConditionOp

pub data RuleAction : Type 0 where
  block allow log challenge : RuleAction

-- `ConditionNode`, with the lists of its branches.
mutual
  pub data ConditionNode : Type 0 where
    and_node or_node : ConditionNodes → ConditionNode
    not_node : ConditionNode → ConditionNode
    leaf : Condition → ConditionNode

  pub data ConditionNodes : Type 0 where
    nil : ConditionNodes
    cons : ConditionNode → ConditionNodes → ConditionNodes

pub record CustomRule : Type 0 where
  pub id : String
  pub host_code : String
  pub name : String
  pub priority : ℤ
  pub enabled : Bool
  pub condition_op : ConditionOp
  pub conditions : List Condition
  pub action : RuleAction
  pub action_status : ℕ
  pub action_msg : Option String
  pub script : Option String
  pub match_tree : Option ConditionNode

pub record GeoIpInfo : Type 0 where
  pub country : String
  pub province : String
  pub city : String
  pub isp : String
  pub iso_code : String

-- What the custom rules read of a `RequestCtx`.
pub record RequestCtx : Type 0 where
  pub client_ip : String
  pub method : String
  pub host : String
  pub path : String
  pub query : String
  pub headers : Map String String
  pub body_preview : List ℕ
  pub content_length : ℕ
  pub host_code : String
  pub geo : Option GeoIpInfo
  pub cookies : Map String String

-- What a script sees of a request.
pub data ScopeValue : Type 0 where
  text : String → ScopeValue
  int : ℤ → ScopeValue

pub record Libraries : Type 1 where
  pub Regex : Type 0
  pub regex_new : String → Option Regex
  pub is_match : Regex → String → Bool
  pub IpNet : Type 0
  pub parse_net : String → Option IpNet
  pub net_contains : IpNet → String → Bool
  pub GlobMatcher : Type 0
  pub build_glob : String → Option GlobMatcher
  pub glob_match : GlobMatcher → String → Bool
  pub eval_expression : Map String ScopeValue → String → Option Bool
  pub to_lowercase : String → String
  pub from_utf8_lossy : List ℕ → String

abbrev pub str_or_empty : Option String → String
str_or_empty none = ""
str_or_empty (some s) = s

abbrev geo_part : (GeoIpInfo → String) → Option GeoIpInfo → Option String
geo_part f none = none
geo_part f (some g) = some (f g)

-- The comparison of a field that is a number.
unfoldable pub compare : (ℤ → Bool) → Option ℤ → Bool
compare test none = false
compare test (some v) = test v

-- `len as i64`.
unfoldable pub as_i64 : ℕ → ℤ
as_i64 n = if ltb n (2 ^ 63) then pos n else negsuc (2 ^ 64 - n - 1)

module _ (lib : Libraries) where
  unfoldable pub field_value : RequestCtx → ConditionField → Option String
  field_value ctx ip = some ctx.client_ip
  field_value ctx path = some ctx.path
  field_value ctx query = some ctx.query
  field_value ctx method = some ctx.method
  field_value ctx host = some ctx.host
  field_value ctx content_length = some (show_u64 ctx.content_length)
  field_value ctx body = some (lib.from_utf8_lossy ctx.body_preview)
  field_value ctx (cookie none) = Map.get "cookie" ctx.headers
  field_value ctx (cookie (some name)) = Map.get name ctx.cookies
  field_value ctx user_agent = Map.get "user-agent" ctx.headers
  field_value ctx content_type = Map.get "content-type" ctx.headers
  field_value ctx (header name) = Map.get (lib.to_lowercase name) ctx.headers
  field_value ctx geo_country = geo_part (λ g. g.country) ctx.geo
  field_value ctx geo_iso = geo_part (λ g. g.iso_code) ctx.geo
  field_value ctx geo_province = geo_part (λ g. g.province) ctx.geo
  field_value ctx geo_city = geo_part (λ g. g.city) ctx.geo
  field_value ctx geo_isp = geo_part (λ g. g.isp) ctx.geo

  unfoldable pub regex_matches : Option lib.Regex → String → Bool
  regex_matches none s = false
  regex_matches (some r) s = lib.is_match r s

  unfoldable pub net_has : Option lib.IpNet → String → Bool
  net_has none addr = false
  net_has (some net) addr = lib.net_contains net addr

  -- The match of `eval_one` on the operator and the value.
  unfoldable pub eval_op : Operator → ConditionValue → String → String → Bool
  unfolding compare regex_matches net_has
  eval_op eq (str v) fstr addr = eq_ignore_ascii_case fstr v
  eval_op ne (str v) fstr addr = not (eq_ignore_ascii_case fstr v)
  eval_op contains (str v) fstr addr = has_text fstr v
  eval_op not_contains (str v) fstr addr = not (has_text fstr v)
  eval_op starts_with_op (str v) fstr addr = starts_with fstr v
  eval_op ends_with_op (str v) fstr addr = ends_with fstr v
  eval_op regex (str v) fstr addr = regex_matches (lib.regex_new v) fstr
  eval_op in_list (list l) fstr addr = any (λ v. v == fstr) l
  eval_op not_in_list (list l) fstr addr = not (any (λ v. v == fstr) l)
  eval_op cidr_match (str cidr) fstr addr = net_has (lib.parse_net cidr) addr
  eval_op gt (number n) fstr addr = compare (λ v. ltb_ℤ n v) (parse_i64 fstr)
  eval_op lt (number n) fstr addr = compare (λ v. ltb_ℤ v n) (parse_i64 fstr)
  eval_op gte (number n) fstr addr = compare (λ v. leb_ℤ n v) (parse_i64 fstr)
  eval_op lte (number n) fstr addr = compare (λ v. leb_ℤ v n) (parse_i64 fstr)
  eval_op _ _ fstr addr = false

  unfoldable pub eval_one : RequestCtx → Condition → Bool
  unfolding eval_op field_value
  eval_one ctx c = eval_op c.operator c.value (str_or_empty (field_value ctx c.field)) ctx.client_ip

  unfoldable pub eval_all : RequestCtx → List Condition → Bool
  unfolding eval_one
  eval_all ctx [] = true
  eval_all ctx (c ∷ cs) = eval_one ctx c && eval_all ctx cs

  unfoldable pub eval_any : RequestCtx → List Condition → Bool
  unfolding eval_one
  eval_any ctx [] = false
  eval_any ctx (c ∷ cs) = eval_one ctx c || eval_any ctx cs

  unfoldable pub eval_conditions : RequestCtx → List Condition → ConditionOp → Bool
  unfolding eval_all eval_any
  eval_conditions ctx [] op = false
  eval_conditions ctx (c ∷ cs) all_of = eval_all ctx (c ∷ cs)
  eval_conditions ctx (c ∷ cs) any_of = eval_any ctx (c ∷ cs)
