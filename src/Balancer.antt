-- ===== src/Balancer.antt =====
-- crates/gateway/src/lb.rs: the load balancer of a host. An address is its octets, and the address
-- of a backend is its host and port before they are printed. Health checks and connection counts
-- write the fields of a backend from outside.
pub mod Picks
use waf.Base.{
  ℕ, zero, suc, ◌+◌, ◌-◌, ◌*◌, ◌/◌, ◌%◌, ◌^◌, max, Bool, true, false, not, String, Option, none,
  some, List, [], ◌∷◌, ltb, leb, length, select, get_elem?, if◌then◌else◌,
}
use waf.Base.Keys.{string_eq, ◌==◌}
use waf.Base.Words.{wrap_u32, wrap_u64}

pub record Backend : Type 0 where
  pub id : String
  pub host : String
  pub port : ℕ
  pub weight : ℕ
  pub is_healthy : Bool
  pub active_connections : ℕ

abbrev pub Addr : Type 0
Addr = String × ℕ

unfoldable pub addr : Backend → Addr
addr b = (b.host, b.port)

unfoldable pub new_backend : String → String → ℕ → ℕ → Backend
new_backend id host port weight = record {
  id = id;
  host = host;
  port = port;
  weight = weight;
  is_healthy = true;
  active_connections = 0;
}

unfoldable pub acquire_connection : Backend → Backend
acquire_connection b = record b { active_connections = wrap_u64 (b.active_connections + 1) }

-- The subtraction and the store that undoes its wrap below zero, as one step.
unfoldable pub release_connection : Backend → Backend
release_connection b = record b { active_connections = b.active_connections - 1 }

pub data LoadBalanceStrategy : Type 0 where
  round_robin ip_hash weighted_round_robin least_connections : LoadBalanceStrategy

pub record LoadBalancer : Type 0 where
  pub backends : List Backend
  pub strategy : LoadBalanceStrategy
  pub rr_counter : ℕ

unfoldable pub new : LoadBalanceStrategy → LoadBalancer
new strategy = record { backends = []; strategy = strategy; rr_counter = 0 }

-- The first backend of the id is replaced, or the backend goes to the end.
unfoldable pub replace_or_push : Backend → List Backend → List Backend
replace_or_push b [] = b ∷ []
replace_or_push b (c ∷ cs) = if c.id == b.id then b ∷ cs else c ∷ replace_or_push b cs

unfoldable pub add_backend : Backend → LoadBalancer → LoadBalancer
unfolding replace_or_push
add_backend b lb = record lb { backends = replace_or_push b lb.backends }

unfoldable pub remove_backend : String → LoadBalancer → LoadBalancer
remove_backend id lb = record lb {
  backends = select (λ (b : Backend). not (b.id == id)) lb.backends;
}

unfoldable pub set_backends : List Backend → LoadBalancer → LoadBalancer
set_backends bs lb = record lb { backends = bs }

unfoldable pub healthy_backends : LoadBalancer → List Backend
healthy_backends lb = select (λ (b : Backend). b.is_healthy) lb.backends

-- `fetch_add(1)` on the counter.
unfoldable pub tick : LoadBalancer → LoadBalancer
tick lb = record lb { rr_counter = wrap_u64 (lb.rr_counter + 1) }

-- `backends[i].addr()`; none where the index is out of range and the code would panic.
unfoldable pub at : List Backend → ℕ → Option Addr
at [] i = none
at (b ∷ bs) zero = some (b.host, b.port)
at (b ∷ bs) (suc i) = at bs i

-- The exclusive or of the lowest n bits.
unfoldable pub xor : ℕ → ℕ → ℕ → ℕ
xor zero a b = 0
xor (suc n) a b = (a % 2 + b % 2) % 2 + 2 * xor n (a / 2) (b / 2)

unfoldable pub fnv_from : ℕ → List ℕ → ℕ
unfolding xor
fnv_from hash [] = hash
fnv_from hash (byte ∷ bytes) = fnv_from (wrap_u64 (xor 64 hash byte * 1099511628211)) bytes

unfoldable pub fnv_hash_ip : List ℕ → ℕ
unfolding fnv_from
fnv_hash_ip octets = fnv_from 14695981039346656037 octets

abbrev pub weight_of : Backend → ℕ
weight_of b = max b.weight 1

-- The sum in `u32`.
unfoldable pub total_weight : List Backend → ℕ
total_weight [] = 0
total_weight (b ∷ bs) = wrap_u32 (weight_of b + total_weight bs)

-- The walk over the backends with the weight so far; none where it ends.
unfoldable pub walk : ℕ → ℕ → List Backend → Option Addr
walk pos cumulative [] = none
walk pos cumulative (b ∷ bs) =
    let rest = walk pos (wrap_u32 (cumulative + weight_of b)) bs in
    if ltb pos (wrap_u32 (cumulative + weight_of b)) then some (b.host, b.port) else rest

unfoldable pub or_first : Option Addr → List Backend → Option Addr
unfolding at
or_first (some a) bs = some a
or_first none bs = at bs 0

unfoldable pub weighted : List Backend → LoadBalancer → LoadBalancer × Option Addr
unfolding total_weight walk or_first tick at
weighted bs lb =
    let total = total_weight bs in
    if ltb 0 total
    then (tick lb, or_first (walk (wrap_u32 lb.rr_counter % total) 0 bs) bs)
    else (tick lb, at bs (lb.rr_counter % length bs))

-- `min_by_key`: the first backend with the fewest connections.
unfoldable pub fewest : Backend → List Backend → Backend
fewest b [] = b
fewest b (c ∷ cs) = fewest (if ltb c.active_connections b.active_connections then c else b) cs

unfoldable pub least : List Backend → Option Addr
unfolding fewest addr
least [] = none
least (b ∷ bs) = some (addr (fewest b bs))

unfoldable pub by_strategy :
    LoadBalanceStrategy → List ℕ → List Backend → LoadBalancer → LoadBalancer × Option Addr
unfolding at tick fnv_hash_ip weighted least
by_strategy round_robin ip bs lb = (tick lb, at bs (lb.rr_counter % length bs))
by_strategy ip_hash ip bs lb = (lb, at bs (fnv_hash_ip ip % length bs))
by_strategy weighted_round_robin ip bs lb = weighted bs lb
by_strategy least_connections ip bs lb = (lb, least bs)

-- What the healthy backends decide: where there are none, all of them take turns.
unfoldable pub next_of : List ℕ → List Backend → LoadBalancer → LoadBalancer × Option Addr
unfolding at tick by_strategy
next_of ip [] lb =
    if ltb 0 (length lb.backends)
    then (tick lb, at lb.backends (lb.rr_counter % length lb.backends))
    else (lb, none)
next_of ip (b ∷ bs) lb = by_strategy lb.strategy ip (b ∷ bs) lb

unfoldable pub next_backend : List ℕ → LoadBalancer → LoadBalancer × Option Addr
unfolding next_of healthy_backends
next_backend ip lb = next_of ip (healthy_backends lb) lb
