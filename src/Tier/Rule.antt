-- ===== src/Tier/Rule.antt =====
-- crates/gateway/src/tiered/compiled_rule.rs: rules compiled and matched. The regular expressions
-- and the header names and values of the `http` crate are parameters.
use waf.Base.{
  ℕ, ◌+◌, ◌/◌, ◌%◌, ◌^◌, Bool, false, String, Option, none, some, List, [], ◌∷◌, ltb, if◌then◌else◌,
}
use waf.Base.Keys.{string_eq, ◌==◌}
use waf.Tier.{HttpMethod, get, head, post, put, delete, connect, options, trace, patch}

-- What the code uses of the `regex` and `http` crates.
pub record Libraries : Type 1 where
  pub Regex : Type 0
  pub compile : String → Option Regex
  pub is_match : Regex → String → Bool
  pub HeaderName : Type 0
  pub HeaderValue : Type 0
  pub name_from_bytes : String → Option HeaderName
  pub value_from_str : String → Option HeaderValue
  pub HeaderMap : Type 0
  pub get_header : HeaderName → HeaderMap → Option HeaderValue
  pub same_bytes : HeaderValue → HeaderValue → Bool

pub data CompileError : Type 0 where
  bad_regex : ℕ → CompileError
  bad_header_name bad_header_value : ℕ → String → CompileError

pub data Result (A : Type 0) : Type 0 where
  ok : A → Result A
  err : CompileError → Result A

-- `?` in the source.
unfoldable pub and_then : {A B : Type 0} → Result A → (A → Result B) → Result B
and_then (ok a) f = f a
and_then (err e) f = err e

unfoldable pub ok_or : {A : Type 0} → CompileError → Option A → Result A
ok_or e (some a) = ok a
ok_or e none = err e

-- `MethodSet(u16)`: bit b of a number n is set when n / 2 ^ b is odd.
abbrev pub MethodSet : Type 0
MethodSet = ℕ

unfoldable pub method_bit : HttpMethod → ℕ
method_bit get = 0
method_bit head = 1
method_bit post = 2
method_bit put = 3
method_bit delete = 4
method_bit connect = 5
method_bit options = 6
method_bit trace = 7
method_bit patch = 8

unfoldable pub has_bit : ℕ → MethodSet → Bool
has_bit b n = ltb 0 (n / 2 ^ b % 2)

unfoldable pub insert : HttpMethod → MethodSet → MethodSet
unfolding has_bit method_bit
insert m n = if has_bit (method_bit m) n then n else n + 2 ^ method_bit m

unfoldable pub contains : HttpMethod → MethodSet → Bool
unfolding has_bit method_bit
contains m n = has_bit (method_bit m) n

-- The bit of a method's name; an extension method has none.
unfoldable pub http_bit : String → Option ℕ
http_bit m =
    if m == "GET"
    then some 0
    else if m == "HEAD"
    then some 1
    else if m == "POST"
    then some 2
    else if m == "PUT"
    then some 3
    else if m == "DELETE"
    then some 4
    else if m == "CONNECT"
    then some 5
    else if m == "OPTIONS"
    then some 6
    else if m == "TRACE"
    then some 7
    else if m == "PATCH"
    then some 8
    else none

unfoldable pub has_some_bit : Option ℕ → MethodSet → Bool
unfolding has_bit
has_some_bit none n = false
has_some_bit (some b) n = has_bit b n

unfoldable pub contains_http : String → MethodSet → Bool
unfolding http_bit has_some_bit
contains_http m n = has_some_bit (http_bit m) n

unfoldable pub compile_methods_from : MethodSet → List HttpMethod → MethodSet
unfolding insert
compile_methods_from n [] = n
compile_methods_from n (m ∷ ms) = compile_methods_from (insert m n) ms

unfoldable pub compile_methods : List HttpMethod → MethodSet
unfolding compile_methods_from
compile_methods ms = compile_methods_from 0 ms

-- `Option::map(..).transpose()`.
unfoldable pub transpose : {A B : Type 0} → (A → Result B) → Option A → Result (Option B)
unfolding and_then
transpose f none = ok none
transpose f (some a) = and_then (f a) (λ b. ok (some b))
