-- ===== src/Cache/Store/Held.antt =====
-- The entries that the memory backend still holds after it drops some.
use waf.Base.{◌≡◌, String, some, List, [], ◌∷◌, arith}
use waf.Cache.Tags.{unregister}
use waf.Cache.Store.{CachedResponse, Moka, MokaStore, remove, purge_keys, remove_all, flush}

module _ (m : Moka) where
  pub purge_keys-held :
      (j : String) (v : CachedResponse) (ks : List String) (s : MokaStore m)
      → m.get j (purge_keys m ks s).inner ≡ some v
      → m.get j s.inner ≡ some v
  unfolding purge_keys remove
  purge_keys-held j v [] s h = h
  purge_keys-held j v (k ∷ ks) s h = m.get-remove j k v s.inner (
      purge_keys-held j v ks
        (record (remove m k s) { tag_index = unregister k (remove m k s).tag_index }) h)

  pub remove_all-held :
      (j : String) (v : CachedResponse) (ks : List String) (s : MokaStore m)
      → m.get j (remove_all m ks s).inner ≡ some v
      → m.get j s.inner ≡ some v
  unfolding remove_all remove
  remove_all-held j v [] s h = h
  remove_all-held j v (k ∷ ks) s h =
      m.get-remove j k v s.inner (remove_all-held j v ks (remove m k s) h)

  pub flush-held :
      (j : String) (v : CachedResponse) (s : MokaStore m)
      → m.get j (flush m s).inner ≡ some v
      → m.get j s.inner ≡ some v
  unfolding flush
  flush-held j v s h = absurd (ground (arith, h, m.get-invalidate_all j s.inner))
