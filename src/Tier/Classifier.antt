-- ===== src/Tier/Classifier.antt =====
-- crates/gateway/src/tiered: rules compiled and matched (compiled_rule.rs), and the classifier over
-- them (tier_classifier.rs).
pub mod Priority
use waf.Base.{
  ℕ, zero, suc, Bool, true, false, ◌&&◌, not, String, Option, none, some, List, [], ◌∷◌, leb,
  if◌then◌else◌,
}
use waf.Base.Keys.{string_eq, ◌==◌}
use waf.Base.Text.{starts_with, ends_with, to_ascii_lowercase}
use waf.Tier.{Tier, TextMatch, exact, affix, regex, HeaderMatch, TierClassifierRule}
use waf.Tier.Rule.{
  Libraries, CompileError, bad_regex, bad_header_name, bad_header_value, Result, ok, err, and_then,
  ok_or, transpose, MethodSet, contains_http, compile_methods,
}

-- A condition that a rule does not have holds.
unfoldable pub holds : {A : Type 0} → (A → Bool) → Option A → Bool
holds test none = true
holds test (some a) = test a

module _ (lib : Libraries) where
  pub data CompiledMatch : Type 0 where
    exactly with_affix : String → CompiledMatch
    by_regex : lib.Regex → CompiledMatch

  pub record CompiledTierRule : Type 0 where
    pub priority : ℕ
    pub tier : Tier
    pub host : Option CompiledMatch
    pub path : Option CompiledMatch
    pub method : Option MethodSet
    pub headers : Option (List (lib.HeaderName × lib.HeaderValue))

  pub record RequestParts : Type 0 where
    pub host : String
    pub path : String
    pub method : String
    pub headers : lib.HeaderMap

  pub record TierClassifier : Type 0 where
    pub rules : List CompiledTierRule
    pub default_tier : Tier

  unfoldable pub same_header : Option lib.HeaderValue → lib.HeaderValue → Bool
  same_header none expected = false
  same_header (some v) expected = lib.same_bytes v expected

  unfoldable pub headers_match : List (lib.HeaderName × lib.HeaderValue) → lib.HeaderMap → Bool
  unfolding same_header
  headers_match [] headers = true
  headers_match (h ∷ hs) headers =
      same_header (lib.get_header h.0 headers) h.1 && headers_match hs headers

  unfoldable pub compile_headers :
      ℕ → List HeaderMatch → Result (List (lib.HeaderName × lib.HeaderValue))
  unfolding and_then ok_or
  compile_headers idx [] = ok []
  compile_headers idx (h ∷ hs) =
      and_then
        (ok_or (bad_header_name idx h.name) (lib.name_from_bytes (to_ascii_lowercase h.name)))
        (λ name.
          and_then (ok_or (bad_header_value idx h.name) (lib.value_from_str h.value))
            (λ value. and_then (compile_headers idx hs) (λ rest. ok ((name, value) ∷ rest))))

module _ {lib : Libraries} where
  unfoldable pub path_matches : CompiledMatch lib → String → Bool
  path_matches (exactly v) path = path == v
  path_matches (with_affix v) path = starts_with path v
  path_matches (by_regex r) path = lib.is_match r path

  unfoldable pub host_matches : CompiledMatch lib → String → Bool
  host_matches (exactly v) host = host == v
  host_matches (with_affix v) host = ends_with host v
  host_matches (by_regex r) host = lib.is_match r host

  unfoldable pub matches : CompiledTierRule lib → RequestParts lib → Bool
  unfolding holds host_matches path_matches headers_match
  matches r req =
      holds (λ m. host_matches m req.host) r.host
      && holds (λ m. path_matches m req.path) r.path
      && holds (λ m. contains_http req.method m) r.method
      && holds (λ hs. headers_match lib hs req.headers) r.headers

  unfoldable pub compile_path : ℕ → TextMatch → Result (CompiledMatch lib)
  unfolding and_then ok_or
  compile_path idx (exact v) = ok (exactly v)
  compile_path idx (affix v) = ok (with_affix v)
  compile_path idx (regex v) =
      and_then (ok_or (bad_regex idx) (lib.compile v)) (λ r. ok (by_regex r))

  unfoldable pub compile_host : ℕ → TextMatch → Result (CompiledMatch lib)
  unfolding and_then ok_or
  compile_host idx (exact v) = ok (exactly (to_ascii_lowercase v))
  compile_host idx (affix v) = ok (with_affix (to_ascii_lowercase v))
  compile_host idx (regex v) =
      and_then (ok_or (bad_regex idx) (lib.compile v)) (λ r. ok (by_regex r))

  unfoldable pub compile_rule : ℕ → TierClassifierRule → Result (CompiledTierRule lib)
  unfolding and_then transpose compile_host compile_path compile_headers compile_methods
  compile_rule idx rule = and_then (transpose (compile_host idx) rule.host) (λ host.
      and_then (transpose (compile_path idx) rule.path) (λ path.
        and_then (transpose (compile_headers lib idx) rule.headers) (λ headers.
          and_then (transpose (λ ms. ok (compile_methods ms)) rule.method) (λ method. ok (record {
            priority = rule.priority;
            tier = rule.tier;
            host = host;
            path = path;
            method = method;
            headers = headers;
          })))))

  -- Every rule compiled, with its index, or the first error.
  unfoldable pub compile_all : ℕ → List TierClassifierRule → Result (List (CompiledTierRule lib))
  unfolding and_then compile_rule
  compile_all idx [] = ok []
  compile_all idx (r ∷ rs) =
      and_then (compile_rule idx r) (λ c. and_then (compile_all (suc idx) rs) (λ cs. ok (c ∷ cs)))

  -- `sort_by_key(|r| Reverse(r.priority))`: stable, by insertion.
  unfoldable pub insert_by :
      CompiledTierRule lib → List (CompiledTierRule lib) → List (CompiledTierRule lib)
  insert_by x [] = x ∷ []
  insert_by x (y ∷ ys) =
      let rest = insert_by x ys in if leb y.priority x.priority then x ∷ y ∷ ys else y ∷ rest

  unfoldable pub sort_by_priority : List (CompiledTierRule lib) → List (CompiledTierRule lib)
  unfolding insert_by
  sort_by_priority [] = []
  sort_by_priority (x ∷ xs) = insert_by x (sort_by_priority xs)

  unfoldable pub compile_rules : List TierClassifierRule → Result (List (CompiledTierRule lib))
  unfolding and_then compile_all sort_by_priority
  compile_rules rules = and_then (compile_all 0 rules) (λ cs. ok (sort_by_priority cs))

  unfoldable pub new : List TierClassifierRule → Tier → Result (TierClassifier lib)
  unfolding and_then compile_rules
  new rules default_tier =
      and_then (compile_rules rules) (λ cs. ok (record { rules = cs; default_tier = default_tier }))

  -- The first rule that matches.
  unfoldable pub first_match :
      List (CompiledTierRule lib) → RequestParts lib → Option (CompiledTierRule lib)
  unfolding matches
  first_match [] req = none
  first_match (r ∷ rs) req = let rest = first_match rs req in if matches r req then some r else rest

  unfoldable pub tier_or : Tier → Option (CompiledTierRule lib) → Tier
  tier_or default_tier none = default_tier
  tier_or default_tier (some r) = r.tier

  unfoldable pub classify : TierClassifier lib → RequestParts lib → Tier
  unfolding first_match tier_or
  classify c req = tier_or c.default_tier (first_match c.rules req)
