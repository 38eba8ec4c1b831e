-- ===== src/Cache/Capture.antt =====
-- crates/gateway/src/response_cache_integration.rs: a response on its way to the client, captured
-- for the cache.
pub mod Body
pub mod Ruled
use waf.Base.{
  ℕ, ◌*◌, ◌-◌, Bool, true, false, ◌&&◌, ◌||◌, not, String, Option, none, some, List, [], ◌∷◌, ◌++◌,
  length, take, ltb, leb, if◌then◌else◌,
}
use waf.Base.Text.{trim, is_empty, eq_ignore_ascii_case}
use waf.Cache.Policy.{is_success}

-- The parts of `ResponseCachePending` that the capture changes.
pub record ResponseCachePending : Type 0 where
  pub status : ℕ
  pub headers : List (String × String)
  pub cache_control : Option String
  pub body : List ℕ
  pub capture_started : Bool

-- The head of an upstream response: its headers with a value of visible ASCII, whether it has a
-- `Vary` header, and the texts of two others.
pub record UpstreamResponse : Type 0 where
  pub status : ℕ
  pub headers : List (String × String)
  pub has_vary : Bool
  pub content_encoding : Option String
  pub cache_control : Option String

unfoldable pub response_cache_body_limit : ℕ
response_cache_body_limit = 2 * 1024 * 1024

unfoldable pub response_content_encoding_allows_cache : Option String → Bool
response_content_encoding_allows_cache none = true
response_content_encoding_allows_cache (some v) =
    let v' = trim v in is_empty v' || eq_ignore_ascii_case v' "identity"

unfoldable pub begin_upstream_cache_capture :
    UpstreamResponse → Bool → ResponseCachePending → ResponseCachePending × Bool
unfolding is_success
begin_upstream_cache_capture up body_mask_enabled p =
    if body_mask_enabled || not (response_content_encoding_allows_cache up.content_encoding)
    then (p, false)
    else if not (is_success up.status)
    then (p, false)
    else if up.has_vary
    then (p, false)
    else (
      record p {
        status = up.status;
        headers = up.headers;
        cache_control = up.cache_control;
        capture_started = true;
      },
      true,
    )

-- The bytes of a chunk that there is room for.
unfoldable pub append_chunk : Option (List ℕ) → ResponseCachePending → ResponseCachePending
append_chunk none p = p
append_chunk (some chunk) p = record p {
  body = p.body ++ take (response_cache_body_limit - length p.body) chunk;
}

-- What is left pending, and what is handed to `ResponseCache::put`.
unfoldable pub cache_store_on_body_chunk :
    Option (List ℕ)
    → Bool
    → Option ResponseCachePending
    → Option ResponseCachePending × Option ResponseCachePending
unfolding append_chunk
cache_store_on_body_chunk body end_of_stream none = (none, none)
cache_store_on_body_chunk body end_of_stream (some p) =
    let p' = append_chunk body p in
    if not p.capture_started
    then (some p, none)
    else if end_of_stream
    then (none, some p')
    else (some p', none)
