-- ===== src/Tests/CacheRuns.antt =====
-- Runs of the response cache, over a store that keeps every entry until it is told to drop it.
use waf.Base.{
  ◌≤◌, ◌<◌, ◌≡◌, ◌≢◌, refl, ap, inl, inr, true, false, String, none, some, List, [], ◌∷◌, ◌++◌, In,
  arith, min, take,
}
use waf.Base.Keys.{string_eq, ◌==◌, nat_eq}
use waf.Base.Map
use waf.Base.Map.{Map, contains}
use waf.Tier.{medium, aggressive}
use waf.Cache.Key.{make_key, parse_cache_key}
use waf.Cache.Key.Parts.{IsPlain, parse_cache_key-make_key}
use waf.Cache.Rule.{Libraries, CompiledRule, any, with_prefix, first_match, matches_str}
use waf.Cache.Policy.{CacheCtx, cached, gates, resolve, is_cacheable_method}
use waf.Cache.Policy.Decision.{IsEligible}
use waf.Cache.Store.{
  CachedResponse, RemovalCause, replaced, explicit, is_replaced, Moka, purge_by_tag, get,
}
use waf.Cache.Store
use waf.Cache.Store.Covered.{Call, puts, expires, tags_after, run}
use waf.Cache.Store.Purge.{purge_by_tag_lem}
use waf.Cache.Facade
use waf.Cache.Facade.{Response, ResponseCache, moka_backend}
use waf.Cache.Facade.Origin
use waf.Cache.Facade.Origin.{Origin}
use waf.Cache.Stats
use waf.Cache.Capture.{
  ResponseCachePending, UpstreamResponse, response_cache_body_limit, cache_store_on_body_chunk,
  begin_upstream_cache_capture, response_content_encoding_allows_cache,
}
use waf.Cache.Capture.Ruled.{capture-route_rule}
use waf.Cache.Capture.Body.{bytes, sent, feed, capture_lem}

IsPlain-get : IsPlain "GET"
IsPlain-get = record { colons = refl; marks = refl }

IsPlain-host : IsPlain "h.example"
IsPlain-host = record { colons = refl; marks = refl }

parse_cache_key-make_key_example :
    parse_cache_key (make_key "GET" "h.example" "/a:b" "q=1") ≡ some ("GET", "h.example", "/a:b")
parse_cache_key-make_key_example =
    parse_cache_key-make_key "GET" "h.example" "/a:b" "q=1" IsPlain-get IsPlain-host refl

-- Expressions are texts that match themselves, and every text is a method.
abbrev texts : Libraries
texts = record {
  Regex = String;
  build = λ s. some s;
  is_match = λ r s. r == s;
  is_method = λ _. true;
}

-- Entries stay until they are removed; the listener is told of those that `remove` is asked for.
told_removed :
    (j k : String) (c : Map String CachedResponse) (cause : RemovalCause)
    → In {A = String × RemovalCause} (j, cause) ((k, explicit) ∷ [])
    → is_replaced cause ≡ false
    → Map.get j (Map.remove k c) ≡ none
told_removed j k c cause (inl e) _ =
    ground (arith, Map.get-remove k j c, ap (λ p. p.0) e, string_eq.beq_iff k j)
told_removed j k c cause (inr i) _ = absurd i

kept_insert :
    (j k : String) (v w : CachedResponse) (c : Map String CachedResponse)
    → j ≢ k
    → Map.get j (Map.insert k v c) ≡ some w
    → Map.get j c ≡ some w
kept_insert j k v w c n e = ground (arith, Map.get-insert k j v c, string_eq.beq_iff k j)

same_insert :
    (k : String) (v w : CachedResponse) (c : Map String CachedResponse)
    → Map.get k (Map.insert k v c) ≡ some w
    → w ≡ v
same_insert k v w c e = ground (arith, Map.get-insert_self k v c)

gone_remove : (k : String) (c : Map String CachedResponse) → Map.get k (Map.remove k c) ≡ none
gone_remove k c = ground (arith, Map.get-remove k k c, string_eq.beq_iff k k)

kept_remove :
    (j k : String) (w : CachedResponse) (c : Map String CachedResponse)
    → Map.get j (Map.remove k c) ≡ some w
    → Map.get j c ≡ some w
kept_remove j k w c e = ground (arith, Map.get-remove k j c)

abbrev keys_of : Map String CachedResponse → List String
keys_of [] = []
keys_of ((k, _) ∷ m) = k ∷ keys_of m

get_nothing : (k : String) → Map.get {V = CachedResponse} k [] ≡ none
unfolding Map.get
get_nothing k = refl

abbrev plain_moka : Moka
plain_moka = record {
  Cache = Map String CachedResponse;
  empty = [];
  get = λ k c. Map.get k c;
  keys = keys_of;
  insert = λ k v c. (Map.insert k v c, []);
  remove = λ k c. (Map.remove k c, (k, explicit) ∷ []);
  invalidate_all = λ c. ([], []);
  expire = λ c. (c, []);
  get-empty = get_nothing;
  get-insert_self = same_insert;
  get-insert_ne = kept_insert;
  get-remove_self = gone_remove;
  get-remove = kept_remove;
  get-invalidate_all = λ k c. get_nothing k;
  get-expire = λ k w c h. h;
  told-insert = λ j k v c cause ne i. absurd i;
  told-remove = told_removed;
  told-expire = λ j c cause i. absurd i;
}

abbrev page : CachedResponse
page = record { status = 200; headers = []; body = 1 ∷ 2 ∷ []; max_age = 60 }

-- A page under two tags, put again under one other tag.
abbrev calls : List Call
calls =
    puts "GET:h:/a" page 60 ("old" ∷ "site" ∷ [])
    ∷ puts "GET:h:/a" page 60 ("new" ∷ [])
    ∷ expires
    ∷ []

purge_by_tag_lem_example :
    plain_moka.get "GET:h:/a"
      (purge_by_tag plain_moka "new" (run plain_moka calls (Store.new plain_moka))).0.inner
    ≡ none
purge_by_tag_lem_example = purge_by_tag_lem plain_moka calls "GET:h:/a" "new" tagged
  where
    tagged : contains "new" (tags_after "GET:h:/a" [] calls) ≡ true
    tagged = unfold tags_after in unfold contains in refl

-- A rule for `/static`, and requests and responses.
abbrev static : CompiledRule texts
static = record {
  id = "static";
  host = any;
  path = with_prefix "/static";
  methods = none;
  ttl = 600;
  tags = "assets" ∷ [];
  allow_authenticated = false;
}

abbrev ctx : CacheCtx
ctx = record {
  tier = medium;
  method = "GET";
  host = "h";
  path = "/static/a";
  status = 200;
  headers = [];
  cache_control = none;
  policy = aggressive 300;
  max_ttl_secs = 3600;
  default_ttl_secs = 60;
  has_authorization = false;
  has_cookie = false;
}

ctx-IsEligible : IsEligible ctx
unfolding is_cacheable_method
ctx-IsEligible = record {
  tier = λ e. cc e;
  policy = λ e. cc e;
  method = refl;
  authorization = refl;
  cookie = refl;
}

static_matches : first_match texts (static ∷ []) "h" "/static/a" "GET" ≡ some static
unfolding first_match matches_str
static_matches = refl

-- A response to a part of a request, with a cookie, that the upstream does not want stored.
abbrev partial : UpstreamResponse
partial = record {
  status = 206;
  headers = ("Set-Cookie", "s=1") ∷ [];
  has_vary = false;
  content_encoding = none;
  cache_control = some "private, no-store";
}

abbrev nothing_captured : ResponseCachePending
nothing_captured = record {
  status = 0;
  headers = [];
  cache_control = none;
  body = [];
  capture_started = false;
}

partial_captured : (begin_upstream_cache_capture partial false nothing_captured).1 ≡ true
unfolding begin_upstream_cache_capture response_content_encoding_allows_cache
partial_captured = refl

capture-route_rule_example :
    let q = (begin_upstream_cache_capture partial false nothing_captured).0 in
    (200 ≤ 206)
    × (206 < 300)
    × (resolve
          (gates texts (λ s. s) (static ∷ []))
          (record ctx { status = q.status; headers = q.headers; cache_control = q.cache_control })
        ≡ cached (min 600 3600) ("static" ∷ "assets" ∷ []))
capture-route_rule_example =
    capture-route_rule texts (λ s. s) (static ∷ []) ctx static partial false nothing_captured
      ctx-IsEligible static_matches (λ e. absurd (omega (arith, e))) partial_captured

-- A response put into an empty cache.
abbrev cache : ResponseCache texts (λ s. s) (moka_backend plain_moka)
cache = record {
  backend = Store.new plain_moka;
  stats = Stats.new;
  rules = record {
    rules = static ∷ [];
    defaults = record {
      max_body_bytes = none;
      respect_upstream_cache_control = true;
      cacheable_status_codes = [];
    };
  };
  default_ttl = 60;
  max_ttl = 3600;
}

abbrev response : Response
response = record {
  key = "GET:h:/static/a";
  host = "h";
  path = "/static/a";
  status = 200;
  headers = [];
  body = 7 ∷ 8 ∷ [];
  cache_control = none;
  tier = medium;
  policy = aggressive 300;
  has_authorization = false;
  has_cookie = false;
}

abbrev cache_calls : List (Origin.Call texts (λ s. s) plain_moka)
cache_calls = Origin.puts response ∷ []

abbrev entry : CachedResponse
entry = record { status = 200; headers = []; body = 7 ∷ 8 ∷ []; max_age = 600 }

-- A body in two chunks.
abbrev pending : ResponseCachePending
pending = record {
  status = 200;
  headers = [];
  cache_control = none;
  body = [];
  capture_started = true;
}

capture_lem_example :
    cache_store_on_body_chunk none true
      (feed (some (1 ∷ 2 ∷ []) ∷ some (3 ∷ []) ∷ []) (some pending))
    ≡ (
      none,
      some (record pending {
        body =
            take response_cache_body_limit
              (sent (some (1 ∷ 2 ∷ []) ∷ some (3 ∷ []) ∷ []) ++ bytes none);
      }),
    )
capture_lem_example = capture_lem (some (1 ∷ 2 ∷ []) ∷ some (3 ∷ []) ∷ []) none pending refl refl
