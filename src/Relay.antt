-- ===== src/Relay.antt =====
-- crates/waf-engine/src/relay: the chain of `X-Forwarded-For` (providers/parse.rs), the address of
-- the client that is derived from it (signal.rs), and the signals of two providers. Header maps,
-- networks of the ipnet crate and the reading of an address from its text are parameters.
pub mod Real
use Prim.Native.Char.{code}
use Prim.Native.String
use waf.Base.{
  ℕ, suc, ◌+◌, ◌-◌, ◌*◌, ◌/◌, ◌^◌, Bool, true, false, ◌&&◌, ◌||◌, not, String, Option, none, some,
  List, [], ◌∷◌, ◌++◌, length, take, select, any, map, min, ltb, leb, if◌then◌else◌,
}
use waf.Base.Keys.{nat_eq, string_eq, ◌==◌}
use waf.Base.Text.{trim, is_empty, split, split_once, before, strip_prefix}

-- `IpAddr`: four octets, or eight segments, the first one apart.
pub data IpAddr : Type 0 where
  v4 : ℕ → ℕ → ℕ → ℕ → IpAddr
  v6 : ℕ → List ℕ → IpAddr

-- A header value: its bytes, and its text where it has one.
pub record HeaderValue : Type 0 where
  pub len : ℕ
  pub to_str : Option String

pub record Libraries : Type 1 where
  pub HeaderMap : Type 0
  pub HeaderName : Type 0
  pub get_all : HeaderName → HeaderMap → List HeaderValue
  pub from_str : String → Option IpAddr
  pub IpNet : Type 0
  pub contains : IpNet → IpAddr → Bool

pub record ParsedChain : Type 0 where
  pub entries : List IpAddr
  pub too_long_bytes : Bool
  pub too_long_count : Bool
  pub malformed : Bool

abbrev pub no_chain : ParsedChain
no_chain = record {
  entries = [];
  too_long_bytes = false;
  too_long_count = false;
  malformed = false;
}

unfoldable pub has_error : ParsedChain → Bool
has_error p = p.too_long_bytes || (p.too_long_count || p.malformed)

abbrev pub max_header_bytes : ℕ
max_header_bytes = 8192

abbrev pub max_chain_entries : ℕ
max_chain_entries = 32

-- What the loop over the headers ends with: the text, or the chain that it returns early.
pub data Combined : Type 0 where
  text : String → Combined
  failed : ParsedChain → Combined

unfoldable pub join : String → String → String
join combined s = if is_empty combined then s else String.◌++◌ combined (String.◌++◌ "," s)

-- The loop over the values of the headers, with the bytes so far.
unfoldable pub combine : String → ℕ → List HeaderValue → Combined
unfolding join
combine combined total [] = text combined
combine combined total (v ∷ vs) =
    let total' = total + v.len in
    if ltb max_header_bytes total'
    then failed (record no_chain { too_long_bytes = true })
    else elim v.to_str [
      | none ↦ failed (record no_chain { malformed = true })
      | some s ↦ combine (join combined s) total' vs
    ]

-- `trim_matches(c)` of a character.
unfoldable pub trim_start_matches : ℕ → String → String
trim_start_matches n String.[] = ""
trim_start_matches n (String.◌∷◌ c s) =
    let rest = trim_start_matches n s in if code c == n then rest else String.◌∷◌ c s

unfoldable pub trim_end_matches : ℕ → String → String
trim_end_matches n String.[] = ""
trim_end_matches n (String.◌∷◌ c s) =
    let rest = trim_end_matches n s in
    if is_empty rest && code c == n then "" else String.◌∷◌ c rest

unfoldable pub count_char : ℕ → String → ℕ
count_char n String.[] = 0
count_char n (String.◌∷◌ c s) = let rest = count_char n s in if code c == n then suc rest else rest

unfoldable pub strip_zone : String → String
strip_zone s = before 37 s

-- The text between the bracket that was stripped and the next one.
unfoldable pub bracketed : Option (String × String) → Option String
bracketed none = none
bracketed (some (addr, _)) = some addr

unfoldable pub candidate_of : String → Option String → Option String
unfolding bracketed count_char
candidate_of s (some rest) = bracketed (split_once 93 rest)
candidate_of s none = some (if count_char 58 s == 1 then before 58 s else s)

-- The text of a token that is read as an address.
unfoldable pub address_text : String → Option String
unfolding candidate_of trim_start_matches trim_end_matches
address_text raw =
    let s = trim_end_matches 34 (trim_start_matches 34 (trim raw)) in
    candidate_of s (strip_prefix s "[")

unfoldable pub is_private_v4 : ℕ → ℕ → ℕ → ℕ → Bool
is_private_v4 a b c d =
    a == 10
    || (a == 172 && (leb 16 b && leb b 31))
    || (a == 192 && b == 168)
    || a == 127
    || (a == 169 && b == 254)
    || (a == 0 && (b == 0 && (c == 0 && d == 0)))

abbrev all_zero : List ℕ → Bool
all_zero [] = true
all_zero (s ∷ ss) = s == 0 && all_zero ss

-- Zeros, and a one at the end.
abbrev zeros_one : List ℕ → Bool
zeros_one [] = false
zeros_one (s ∷ []) = s == 1
zeros_one (s ∷ t ∷ ss) = s == 0 && zeros_one (t ∷ ss)

-- The masks 0xfe00 and 0xffc0 keep the bits above the ninth and the sixth.
unfoldable pub is_private_like : IpAddr → Bool
unfolding is_private_v4
is_private_like (v4 a b c d) = is_private_v4 a b c d
is_private_like (v6 s0 ss) =
    (s0 == 0 && (zeros_one ss || all_zero ss)) || s0 / 512 == 126 || s0 / 64 == 1018

pub record DeriveOutcome : Type 0 where
  pub real_ip : IpAddr
  pub stripped_count : ℕ
  pub spoof_private_mid_chain : Bool

pub record Derived : Type 0 where
  pub parsed : ParsedChain
  pub real_ip : IpAddr
  pub stripped_count : ℕ
  pub spoof_private_mid_chain : Bool
  pub effective_depth : ℕ

pub data Signal : Type 0 where
  xff_spoof_private xff_malformed xff_too_long : Signal
  excessive_hop_depth : ℕ → Signal

abbrev pub last_or : IpAddr → List IpAddr → IpAddr
last_or d [] = d
last_or d (x ∷ xs) = last_or x xs

-- `u8::saturating_add(1)`.
abbrev count_u8 : ℕ → ℕ
count_u8 n = min (n + 1) 255

-- What the walk over the chain gives, with the chain up to the index that it found.
unfoldable pub outcome_of : List IpAddr → IpAddr → ℕ × Option ℕ → DeriveOutcome
outcome_of chain peer_ip (stripped, none) = record {
  real_ip = peer_ip;
  stripped_count = stripped;
  spoof_private_mid_chain = false;
}
outcome_of chain peer_ip (stripped, some i) =
    let head = take (suc i) chain in
    record {
      real_ip = last_or peer_ip head;
      stripped_count = stripped;
      spoof_private_mid_chain = any is_private_like head;
    }

module _ (lib : Libraries) where
  unfoldable pub read_address : Option String → Option IpAddr
  unfolding strip_zone
  read_address none = none
  read_address (some a) = lib.from_str (strip_zone a)

  unfoldable pub parse_token : String → Option IpAddr
  unfolding read_address address_text
  parse_token raw = read_address (address_text raw)

  abbrev add : Option IpAddr → Option (List IpAddr) → Option (List IpAddr)
  add none rest = none
  add (some ip) none = none
  add (some ip) (some ips) = some (ip ∷ ips)

  -- The addresses of the tokens; none where one of them is no address.
  unfoldable pub parse_tokens : List String → Option (List IpAddr)
  parse_tokens [] = some []
  parse_tokens (t ∷ ts) = add (parse_token t) (parse_tokens ts)

  unfoldable pub chain_of : Option (List IpAddr) → ParsedChain
  chain_of none = record no_chain { malformed = true }
  chain_of (some entries) = record no_chain { entries = entries }

  unfoldable pub parse_combined : Combined → ParsedChain
  unfolding parse_tokens chain_of
  parse_combined (failed p) = p
  parse_combined (text combined) =
      let raw = select (λ t. not (is_empty t)) (map trim (split 44 combined)) in
      if is_empty combined
      then no_chain
      else if ltb max_chain_entries (length raw)
      then record no_chain { too_long_count = true }
      else chain_of (parse_tokens raw)

  abbrev values : List lib.HeaderName → lib.HeaderMap → List HeaderValue
  values [] headers = []
  values (n ∷ ns) headers = lib.get_all n headers ++ values ns headers

  unfoldable pub parse_xff_chain : lib.HeaderMap → List lib.HeaderName → ParsedChain
  unfolding combine parse_combined
  parse_xff_chain headers names = parse_combined (combine "" 0 (values names headers))

  unfoldable pub is_trusted : List lib.IpNet → IpAddr → Bool
  is_trusted trusted ip = any (λ n. lib.contains n ip) trusted

  abbrev go_on : List lib.IpNet → ℕ → IpAddr → ℕ × Option ℕ → ℕ × Option ℕ
  go_on trusted i ip (stripped, some j) = (stripped, some j)
  go_on trusted i ip (stripped, none) =
      if is_trusted trusted ip then (count_u8 stripped, none) else (stripped, some i)

  -- The walk from the right, of the addresses from index i on: how many were stripped, and the
  -- index of the first address from the right that no network has.
  unfoldable pub walk : List lib.IpNet → ℕ → List IpAddr → ℕ × Option ℕ
  walk trusted i [] = (0, none)
  walk trusted i (ip ∷ ips) = go_on trusted i ip (walk trusted (suc i) ips)

  unfoldable pub derive_real_ip : List IpAddr → List lib.IpNet → IpAddr → DeriveOutcome
  unfolding outcome_of
  derive_real_ip chain trusted peer_ip = outcome_of chain peer_ip (walk trusted 0 chain)

  unfoldable pub populate_derived :
      lib.HeaderMap → IpAddr → List lib.HeaderName → List lib.IpNet → Derived
  populate_derived headers peer_ip names trusted =
      let parsed = parse_xff_chain headers names in
      let chain = if has_error parsed then [] else parsed.entries in
      let outcome = derive_real_ip chain trusted peer_ip in
      record {
        parsed = parsed;
        real_ip = outcome.real_ip;
        stripped_count = outcome.stripped_count;
        spoof_private_mid_chain = outcome.spoof_private_mid_chain;
        effective_depth = min (length chain - outcome.stripped_count) 255;
      }

-- `XffValidator::evaluate`, of what is derived.
unfoldable pub xff_validator : Derived → List Signal
xff_validator d =
    (if d.parsed.too_long_bytes || d.parsed.too_long_count then xff_too_long ∷ [] else [])
    ++ ((if d.parsed.malformed then xff_malformed ∷ [] else [])
        ++ (if d.spoof_private_mid_chain then xff_spoof_private ∷ [] else []))

-- `ProxyChainAnalyzer::evaluate`.
unfoldable pub proxy_chain : ℕ → Derived → List Signal
proxy_chain max_depth d =
    if ltb max_depth d.effective_depth then excessive_hop_depth d.effective_depth ∷ [] else []
