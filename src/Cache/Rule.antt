-- ===== src/Cache/Rule.antt =====
-- crates/gateway/src/cache/rule.rs and rule_set.rs: the route rules of `rules/cache.yaml`, compiled
-- and matched. The regular expressions and `http::Method` are parameters.
use Prim.Native.String.{◌++◌, len}
use waf.Base.{
  ℕ, ◌*◌, ◌+◌, Bool, true, false, ◌&&◌, ◌||◌, String, Option, none, some, List, [], ◌∷◌, ltb,
  if◌then◌else◌,
}
use waf.Base.Keys.{string_eq, nat_eq, ◌==◌}
use waf.Base.Map.{contains}
use waf.Base.Text.{
  starts_with, ends_with, to_ascii_lowercase, trim, is_empty, has_char, strip_prefix,
}
use waf.Tier.{HttpMethod}
use waf.Tier.Rule.{MethodSet, contains_http, compile_methods}

-- What the code uses of the `regex` crate, under the limit on the size of an expression, and
-- whether a text is a method of the `http` crate.
pub record Libraries : Type 1 where
  pub Regex : Type 0
  pub build : String → Option Regex
  pub is_match : Regex → String → Bool
  pub is_method : String → Bool

pub data PathSpec : Type 0 where
  prefix regex : String → PathSpec

pub record MatchDoc : Type 0 where
  pub host : Option String
  pub path : PathSpec
  pub methods : Option (List HttpMethod)

pub record RuleDoc : Type 0 where
  pub id : String
  pub match_ : MatchDoc
  pub ttl_seconds : ℕ
  pub tags : List String
  pub allow_authenticated : Bool

pub record Defaults : Type 0 where
  pub max_body_bytes : Option ℕ
  pub respect_upstream_cache_control : Bool
  pub cacheable_status_codes : List ℕ

pub record CacheConfigDoc : Type 0 where
  pub version : ℕ
  pub defaults : Defaults
  pub rules : List RuleDoc

pub data RuleSetError : Type 0 where
  unsupported_version : ℕ → RuleSetError
  duplicate_id empty_tags bad_path_regex bad_host_regex : String → RuleSetError
  regex_budget_exceeded : RuleSetError

pub data Result (A : Type 0) : Type 0 where
  ok : A → Result A
  err : RuleSetError → Result A

infixl 5 ◌>>=◌
abbrev pub ◌>>=◌ : {A B : Type 0} → Result A → (A → Result B) → Result B
ok a >>= f = f a
err e >>= f = err e

abbrev pub ok_or : {A : Type 0} → RuleSetError → Option A → Result A
ok_or e none = err e
ok_or e (some a) = ok a

-- `^ $ | ( ) [ ] + ? \`, which make a host a regular expression.
abbrev any_char : List ℕ → String → Bool
any_char [] s = false
any_char (n ∷ ns) s = has_char n s || any_char ns s

unfoldable pub has_meta : String → Bool
has_meta s = any_char (94 ∷ 36 ∷ 124 ∷ 40 ∷ 41 ∷ 91 ∷ 93 ∷ 43 ∷ 63 ∷ 92 ∷ []) s

-- `total_regex` counts a host that has one of `^ $ | ( \`.
unfoldable pub is_costly : String → Bool
is_costly s = any_char (94 ∷ 36 ∷ 124 ∷ 40 ∷ 92 ∷ []) s

unfoldable pub path_cost : PathSpec → ℕ
path_cost (prefix _) = 0
path_cost (regex r) = len r * 4

unfoldable pub host_cost : Option String → ℕ
unfolding is_costly
host_cost none = 0
host_cost (some h) = if is_costly h then len h * 4 else 0

unfoldable pub approx_regex_cost : RuleDoc → ℕ
unfolding path_cost host_cost
approx_regex_cost r = path_cost r.match_.path + host_cost r.match_.host

unfoldable pub no_tags : List String → Bool
no_tags [] = true
no_tags (_ ∷ _) = false

unfoldable pub method_set : Option (List HttpMethod) → Option MethodSet
method_set none = none
method_set (some ms) = some (compile_methods ms)

abbrev pub total_regex_budget_bytes : ℕ
total_regex_budget_bytes = 1024 * 1024

module _ (lib : Libraries) where
  pub data HostMatcher : Type 0 where
    any : HostMatcher
    exact suffix : String → HostMatcher
    by_regex : lib.Regex → HostMatcher

  pub data PathMatcher : Type 0 where
    with_prefix : String → PathMatcher
    path_regex : lib.Regex → PathMatcher

  pub record CompiledRule : Type 0 where
    pub id : String
    pub host : HostMatcher
    pub path : PathMatcher
    pub methods : Option MethodSet
    pub ttl : ℕ
    pub tags : List String
    pub allow_authenticated : Bool

  pub record CompiledRuleSet : Type 0 where
    pub rules : List CompiledRule
    pub defaults : Defaults

  unfoldable pub host_matches : HostMatcher → String → Bool
  host_matches any host = true
  host_matches (exact v) host = host == v
  host_matches (suffix v) host = ends_with host v
  host_matches (by_regex r) host = lib.is_match r host

  unfoldable pub path_matches : PathMatcher → String → Bool
  path_matches (with_prefix v) path = starts_with path v
  path_matches (path_regex r) path = lib.is_match r path

  unfoldable pub method_matches : Option MethodSet → String → Bool
  method_matches none method = true
  method_matches (some set) method = contains_http method set

  -- `matches` of a text that is a method, and false for any other text.
  unfoldable pub matches_str : CompiledRule → String → String → String → Bool
  unfolding host_matches path_matches method_matches
  matches_str r host path method =
      lib.is_method method
      && (host_matches r.host host && (path_matches r.path path && method_matches r.methods method))

  -- The host of a rule that is no wildcard: a regular expression, or a text without its case.
  unfoldable pub compile_plain : String → String → Result HostMatcher
  unfolding has_meta
  compile_plain id trimmed =
      if has_meta trimmed
      then (do r ← ok_or (bad_host_regex id) (lib.build trimmed); ok (by_regex r))
      else ok (exact (to_ascii_lowercase trimmed))

  unfoldable pub compile_wildcard : String → String → Option String → Result HostMatcher
  unfolding compile_plain
  compile_wildcard id trimmed none = compile_plain id trimmed
  compile_wildcard id trimmed (some rest) = ok (suffix ("." ++ to_ascii_lowercase rest))

  unfoldable pub compile_host : String → Option String → Result HostMatcher
  unfolding compile_wildcard
  compile_host id none = ok any
  compile_host id (some raw) =
      let trimmed = trim raw in
      if is_empty trimmed || trimmed == "*"
      then ok any
      else compile_wildcard id trimmed (strip_prefix trimmed "*.")

  unfoldable pub compile_path : String → PathSpec → Result PathMatcher
  compile_path id (prefix p) = ok (with_prefix p)
  compile_path id (regex s) = do r ← ok_or (bad_path_regex id) (lib.build s); ok (path_regex r)

  unfoldable pub compile_rule : RuleDoc → Result CompiledRule
  unfolding compile_host compile_path method_set
  compile_rule doc = do
    host ← compile_host doc.id doc.match_.host
    path ← compile_path doc.id doc.match_.path
    ok (record {
      id = doc.id;
      host = host;
      path = path;
      methods = method_set doc.match_.methods;
      ttl = doc.ttl_seconds;
      tags = doc.tags;
      allow_authenticated = doc.allow_authenticated;
    })

  -- The loop of `try_from_doc`, with the ids seen and the cost of the expressions so far.
  unfoldable pub compile_all : List String → ℕ → List RuleDoc → Result (List CompiledRule)
  unfolding compile_rule approx_regex_cost no_tags
  compile_all seen total [] = ok []
  compile_all seen total (doc ∷ docs) =
      let cost = total + approx_regex_cost doc in
      let rest = compile_all (doc.id ∷ seen) cost docs in
      if contains doc.id seen
      then err (duplicate_id doc.id)
      else if no_tags doc.tags
      then err (empty_tags doc.id)
      else (do
        rule ← compile_rule doc
        if ltb total_regex_budget_bytes cost
            then err regex_budget_exceeded
            else (do rules ← rest; ok (rule ∷ rules)))

  unfoldable pub try_from_doc : CacheConfigDoc → Result CompiledRuleSet
  unfolding compile_all
  try_from_doc doc =
      if doc.version == 1
      then (do
        rules ← compile_all [] 0 doc.rules
        ok (record { rules = rules; defaults = doc.defaults }))
      else err (unsupported_version doc.version)

  -- The first rule that matches.
  unfoldable pub first_match : List CompiledRule → String → String → String → Option CompiledRule
  first_match [] host path method = none
  first_match (r ∷ rs) host path method =
      let rest = first_match rs host path method in
      if matches_str r host path method then some r else rest

  unfoldable pub label_of : Option CompiledRule → Option String
  label_of none = some "_default"
  label_of (some r) = if r.ttl == 0 then none else some r.id

  unfoldable pub first_cacheable_rule_id :
      CompiledRuleSet → String → String → String → Option String
  unfolding first_match label_of
  first_cacheable_rule_id set host path method =
      label_of (first_match set.rules (to_ascii_lowercase host) path method)
