-- ===== src/Ddos/Counter/Runs.antt =====
-- What a counter shows after a run of hits of one key.
use waf.Base.{
  ℕ, suc, ◌+◌, ◌^◌, ◌<◌, ◌≡◌, refl, ap, ◌∙◌, String, none, some, List, [], ◌∷◌, arith, length,
  if◌then◌else◌,
}
use waf.Base.Keys.{string_eq, ◌==◌, eq_refl}
use waf.Base.Int.{ℤ, ◌<ℤ◌, saturating_add}
use waf.Base.Map
use waf.Ddos.Counter.{Entry, MemoryCounterStore, hit, incr_get}

-- Hits of one key at these times, and the counts that they return.
unfoldable pub hits : String → ℤ → List ℤ → MemoryCounterStore → MemoryCounterStore × List ℕ
hits key ttl [] s = (s, [])
hits key ttl (t ∷ ts) s =
    let (s', n) = incr_get key ttl t s in let (s'', ns) = hits key ttl ts s' in (s'', n ∷ ns)

-- The entry of the key after a hit, and of the others.
pub get-incr_get :
    (key j : String) (ttl now : ℤ) (s : MemoryCounterStore)
    → Map.get j (incr_get key ttl now s).0.map ≡ (
        if key == j
        then some (hit (Map.get key s.map) (saturating_add now ttl) now)
        else Map.get j s.map)
unfolding incr_get
get-incr_get key j ttl now s =
    Map.get-insert key j (hit (Map.get key s.map) (saturating_add now ttl) now) s.map

-- A hit leaves the entry and returns its count.
pub incr_get-record :
    (key : String) (ttl now : ℤ) (s : MemoryCounterStore) (r : Entry)
    → hit (Map.get key s.map) (saturating_add now ttl) now ≡ r
    → (Map.get key (incr_get key ttl now s).0.map ≡ some r) × ((incr_get key ttl now s).1 ≡ r.count)
incr_get-record key ttl now s r h = (
  ground (arith, get-incr_get key key ttl now s, eq_refl key, h),
  unfold incr_get in ap Entry.count h,
)

-- Each hit comes before the entry of the one before it has expired.
abbrev pub Dense : ℤ → ℤ → List ℤ → Type 0
Dense ttl last [] = Unit {0}
Dense ttl last (t ∷ ts) = (t <ℤ saturating_add last ttl) × Dense ttl t ts

-- n, n + 1, ... as long as the list.
abbrev pub counted_from : {A : Type 0} → ℕ → List A → List ℕ
counted_from n [] = []
counted_from n (_ ∷ xs) = n ∷ counted_from (suc n) xs

-- A hit before the entry expires counts on.
pub hit-live :
    (ttl last t : ℤ) (n : ℕ)
    → suc n < 2 ^ 64
    → t <ℤ saturating_add last ttl
    → hit
        (some (record { count = n; expires_ms = saturating_add last ttl }))
        (saturating_add t ttl)
        t
      ≡ record { count = suc n; expires_ms = saturating_add t ttl }
unfolding hit
hit-live ttl last t n small early = ground arith

hits-counted_from :
    (key : String) (ttl last : ℤ) (ts : List ℤ) (n : ℕ) (s : MemoryCounterStore)
    → Dense ttl last ts
    → n + length ts < 2 ^ 64
    → Map.get key s.map ≡ some (record { count = n; expires_ms = saturating_add last ttl })
    → (hits key ttl ts s).1 ≡ counted_from (suc n) ts
unfolding hits
hits-counted_from key ttl last [] n s d small h = refl
hits-counted_from key ttl last (t ∷ ts) n s d small h =
    let e = hit-live ttl last t n (omega (arith, small)) d.0 in
    let after = incr_get-record key ttl t s _ (ap (λ o. hit o (saturating_add t ttl) t) h ∙ e) in
    let rest =
      hits-counted_from key ttl t ts (suc n) (incr_get key ttl t s).0 d.1 (omega (arith, small))
        after.0 in
    rw (rest, after.1)

-- While each hit of a key comes before the entry of the one before it expires, the counter counts
-- every one of them, however long the run lasts.
pub incr_get_run :
    (key : String) (ttl t : ℤ) (ts : List ℤ) (s : MemoryCounterStore)
    → Map.get key s.map ≡ none
    → Dense ttl t ts
    → length ts + 1 < 2 ^ 64
    → (hits key ttl (t ∷ ts) s).1 ≡ counted_from 1 (t ∷ ts)
unfolding hits hit
incr_get_run key ttl t ts s fresh d small =
    let after =
      incr_get-record key ttl t s (record { count = 1; expires_ms = saturating_add t ttl })
        (ap (λ o. hit o (saturating_add t ttl) t) fresh) in
    let rest =
      hits-counted_from key ttl t ts 1 (incr_get key ttl t s).0 d (omega (arith, small)) after.0 in
    rw (rest, after.1)
