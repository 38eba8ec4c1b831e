-- ===== src/Cache/Store.antt =====
-- crates/gateway/src/cache/moka_store.rs: the memory backend, a cache of the moka crate with the tag
-- index beside it. The crate is a parameter: it may drop entries at any call, and it tells the
-- listener of each entry that it removes.
pub mod Held
pub mod Covered
pub mod Purge
use waf.Base.{
  ℕ, ◌*◌, ◌+◌, ◌≡◌, ◌≢◌, Bool, true, false, ◌&&◌, not, String, Option, none, some, List, [], ◌∷◌,
  length, select, In, max, if◌then◌else◌,
}
use waf.Base.Keys.{string_eq, ◌==◌}
use waf.Base.Text.{before, split_once}
use waf.Cache.Tags
use waf.Cache.Tags.{TagIndex, register, unregister, keys_for_tag}

pub record CachedResponse : Type 0 where
  pub status : ℕ
  pub headers : List (String × String)
  pub body : List ℕ
  pub max_age : ℕ

pub data RemovalCause : Type 0 where
  expired explicit replaced size : RemovalCause

unfoldable pub is_replaced : RemovalCause → Bool
is_replaced replaced = true
is_replaced expired = false
is_replaced explicit = false
is_replaced size = false

abbrev pub Notes : Type 0
Notes = List (String × RemovalCause)

-- `moka::future::Cache`. A call that changes it gives what the listener is told in it; `expire` is
-- the crate's own work between two calls.
pub record Moka : Type 1 where
  pub Cache : Type 0
  pub empty : Cache
  pub get : String → Cache → Option CachedResponse
  pub keys : Cache → List String
  pub insert : String → CachedResponse → Cache → Cache × Notes
  pub remove : String → Cache → Cache × Notes
  pub invalidate_all : Cache → Cache × Notes
  pub expire : Cache → Cache × Notes
  pub get-empty : (k : String) → get k empty ≡ none
  pub get-insert_self :
      (k : String) (v w : CachedResponse) (c : Cache) → get k (insert k v c).0 ≡ some w → w ≡ v
  pub get-insert_ne :
      (j k : String) (v w : CachedResponse) (c : Cache)
      → j ≢ k
      → get j (insert k v c).0 ≡ some w
      → get j c ≡ some w
  pub get-remove_self : (k : String) (c : Cache) → get k (remove k c).0 ≡ none
  pub get-remove :
      (j k : String) (w : CachedResponse) (c : Cache)
      → get j (remove k c).0 ≡ some w
      → get j c ≡ some w
  pub get-invalidate_all : (k : String) (c : Cache) → get k (invalidate_all c).0 ≡ none
  pub get-expire :
      (k : String) (w : CachedResponse) (c : Cache) → get k (expire c).0 ≡ some w → get k c ≡ some w
  pub told-insert :
      (j k : String) (v : CachedResponse) (c : Cache) (cause : RemovalCause)
      → j ≢ k
      → In (j, cause) (insert k v c).1
      → is_replaced cause ≡ false
      → get j (insert k v c).0 ≡ none
  pub told-remove :
      (j k : String) (c : Cache) (cause : RemovalCause)
      → In (j, cause) (remove k c).1
      → is_replaced cause ≡ false
      → get j (remove k c).0 ≡ none
  pub told-expire :
      (j : String) (c : Cache) (cause : RemovalCause)
      → In (j, cause) (expire c).1
      → is_replaced cause ≡ false
      → get j (expire c).0 ≡ none

-- The capacity that `new` asks for.
unfoldable pub capacity : ℕ → ℕ
capacity max_size_mb = max (max_size_mb * 16) 64

-- The eviction listener.
unfoldable pub listen : Notes → TagIndex → TagIndex
unfolding is_replaced
listen [] index = index
listen ((key, cause) ∷ notes) index =
    listen notes (if is_replaced cause then index else unregister key index)

-- `parts.next()` twice, of `splitn(3, ':')`.
unfoldable pub host_of : Option (String × String) → Option String
host_of none = none
host_of (some (_, rest)) = some (before 58 rest)

unfoldable pub is_host : String → Option String → Bool
is_host host none = false
is_host host (some h) = h == host

unfoldable pub of_host : String → String → Bool
unfolding host_of is_host
of_host host key = is_host host (host_of (split_once 58 key))

module _ (m : Moka) where
  pub record MokaStore : Type 0 where
    pub inner : m.Cache
    pub tag_index : TagIndex

  abbrev pub new : MokaStore
  new = record { inner = m.empty; tag_index = Tags.new }

  unfoldable pub get : String → MokaStore → Option CachedResponse
  get key s = m.get key s.inner

  unfoldable pub put : String → CachedResponse → ℕ → List String → MokaStore → MokaStore × Bool
  unfolding listen
  put key value ttl_secs tags s =
      let (inner, notes) = m.insert key (record value { max_age = ttl_secs }) s.inner in
      (record { inner = inner; tag_index = register key tags (listen notes s.tag_index) }, true)

  unfoldable pub remove : String → MokaStore → MokaStore
  unfolding listen
  remove key s =
      let (inner, notes) = m.remove key s.inner in
      record { inner = inner; tag_index = listen notes s.tag_index }

  -- The loop of `purge_by_tag`.
  unfoldable pub purge_keys : List String → MokaStore → MokaStore
  unfolding remove
  purge_keys [] s = s
  purge_keys (k ∷ ks) s =
      let removed = remove k s in
      purge_keys ks (record removed { tag_index = unregister k removed.tag_index })

  unfoldable pub purge_by_tag : String → MokaStore → MokaStore × ℕ
  unfolding purge_keys
  purge_by_tag tag s = let keys = keys_for_tag tag s.tag_index in (purge_keys keys s, length keys)

  unfoldable pub purge_by_route_id : String → MokaStore → MokaStore × ℕ
  unfolding purge_by_tag
  purge_by_route_id route_id s = purge_by_tag route_id s

  -- The loop of `purge_host`.
  unfoldable pub remove_all : List String → MokaStore → MokaStore
  unfolding remove
  remove_all [] s = s
  remove_all (k ∷ ks) s = remove_all ks (remove k s)

  unfoldable pub purge_host : String → MokaStore → MokaStore × ℕ
  unfolding remove_all of_host
  purge_host host s =
      let keys = select (of_host host) (m.keys s.inner) in (remove_all keys s, length keys)

  unfoldable pub flush : MokaStore → MokaStore
  flush s = record { inner = (m.invalidate_all s.inner).0; tag_index = Tags.new }

  -- The crate's own work, with the listener.
  unfoldable pub expire : MokaStore → MokaStore
  unfolding listen
  expire s =
      let (inner, notes) = m.expire s.inner in
      record { inner = inner; tag_index = listen notes s.tag_index }
