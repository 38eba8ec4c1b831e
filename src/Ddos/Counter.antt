-- ===== src/Ddos/Counter.antt =====
-- crates/waf-engine/src/checks/ddos/store/memory.rs: the in-memory counter store. Each call is one
-- step; the loss of a count between two threads that meet a new key at once is left out.
pub mod Runs
use waf.Base.{
  ℕ, ◌+◌, ◌-◌, ◌≡◌, Bool, true, false, String, Option, none, some, List, [], ◌∷◌, map, ltb, leb,
  length, take, if◌then◌else◌,
}
use waf.Base.Keys.{string_eq}
use waf.Base.Int.{ℤ, ltb_ℤ, leb_ℤ, saturating_add}
use waf.Base.Map
use waf.Base.Map.{Map}
use waf.Base.Words.{wrap_u64}

pub record Entry : Type 0 where
  pub count : ℕ
  pub expires_ms : ℤ

pub record MemoryCounterStore : Type 0 where
  pub map : Map String Entry
  pub max_keys : ℕ

unfoldable pub new : ℕ → MemoryCounterStore
new max_keys = record { map = []; max_keys = max_keys }

-- The entry after a hit: counted on while it lives, and begun again once it has expired.
unfoldable pub hit : Option Entry → ℤ → ℤ → Entry
hit none expires now = record { count = 1; expires_ms = expires }
hit (some e) expires now =
    if ltb_ℤ now e.expires_ms
    then record { count = wrap_u64 (e.count + 1); expires_ms = expires }
    else record { count = 1; expires_ms = expires }

unfoldable pub incr_get : String → ℤ → ℤ → MemoryCounterStore → MemoryCounterStore × ℕ
unfolding hit
incr_get key ttl now s =
    let e = hit (Map.get key s.map) (saturating_add now ttl) now in
    (record s { map = Map.insert key e s.map }, e.count)

-- `entries.sort_by_key(|(_, exp)| exp)`: stable, by insertion.
unfoldable pub insert_by : String × ℤ → List (String × ℤ) → List (String × ℤ)
insert_by x [] = x ∷ []
insert_by x (y ∷ ys) = let rest = insert_by x ys in if leb_ℤ x.1 y.1 then x ∷ y ∷ ys else y ∷ rest

unfoldable pub sort_by_expiry : List (String × ℤ) → List (String × ℤ)
unfolding insert_by
sort_by_expiry [] = []
sort_by_expiry (x ∷ xs) = insert_by x (sort_by_expiry xs)

unfoldable pub remove_all : List (String × ℤ) → Map String Entry → Map String Entry
remove_all [] m = m
remove_all (x ∷ xs) m = remove_all xs (Map.remove x.0 m)

-- `gc`: the expired entries go, and then the ones that expire first, down to `max_keys`.
unfoldable pub gc : ℤ → ℕ → Map String Entry → Map String Entry
unfolding sort_by_expiry remove_all
gc now max_keys m =
    let live = Map.retain (λ _ e. ltb_ℤ now e.expires_ms) m in
    if ltb max_keys (length live)
    then remove_all
        (take (length live - max_keys) (sort_by_expiry (map (λ e. (e.0, e.1.expires_ms)) live)))
        live
    else live

unfoldable pub purge_expired : ℤ → MemoryCounterStore → MemoryCounterStore × ℕ
purge_expired now s =
    let m = gc now s.max_keys s.map in (record s { map = m }, length s.map - length m)
