-- ===== src/Cache/Store/Covered.antt =====
-- The tags of the entries that the memory backend holds, after any calls.
use mathlib.Core.Path.{subst}
use waf.Base.{
  ℕ, ◌≡◌, ◌≢◌, refl, ap, ◌∙◌, true, false, String, none, some, List, [], ◌∷◌, In, inl, inr, arith,
  if◌then◌else◌, Bool-cases, select,
}
use waf.Base.Keys.{string_eq, ◌==◌}
use waf.Base.Map.{contains}
use waf.Cache.Tags.{TagIndex, register, unregister, keys_for_tag}
use waf.Cache.Tags.Index.{unregister-keeps, register-has, register-keeps}
use waf.Cache.Store.{
  CachedResponse, RemovalCause, is_replaced, Notes, Moka, listen, MokaStore, new, put, remove,
  purge_keys, purge_by_tag, remove_all, purge_host, flush, expire, of_host,
}

pub data Call : Type 0 where
  puts : String → CachedResponse → ℕ → List String → Call
  removes purges purges_host : String → Call
  flushes expires : Call

-- The tags of the last put of a key, from those that it had before.
unfoldable pub tags_of : String → List String → Call → List String
tags_of k ts (puts key value ttl tags) = if key == k then tags else ts
tags_of k ts (removes _) = ts
tags_of k ts (purges _) = ts
tags_of k ts (purges_host _) = ts
tags_of k ts flushes = ts
tags_of k ts expires = ts

unfoldable pub tags_after : String → List String → List Call → List String
unfolding tags_of
tags_after k ts [] = ts
tags_after k ts (c ∷ cs) = tags_after k (tags_of k ts c) cs

-- A key that the listener is not told of stays under its tags.
listen-keeps :
    (j t : String) (notes : Notes) (index : TagIndex)
    → ((cause : RemovalCause) → In (j, cause) notes → is_replaced cause ≡ true)
    → contains j (keys_for_tag t (listen notes index)) ≡ contains j (keys_for_tag t index)
unfolding listen
listen-keeps j t [] index h = refl
listen-keeps j t ((k, cause) ∷ notes) index h = elim (Bool-cases (is_replaced cause)) [
  | inl e ↦ rw e (listen-keeps j t notes index (λ cause' told. h cause' (inr told)))
  | inr e ↦ rw e (
      listen-keeps j t notes (unregister k index) (λ cause' told. h cause' (inr told))
      ∙ unregister-keeps j t k index (λ same. other same e))
]
  where
    other : j ≡ k → is_replaced cause ≡ false → ⊥
    other same e = cc (h cause (inl (ap (λ n. (n, cause)) same)), e)

module _ (m : Moka) where
  unfoldable pub step : Call → MokaStore m → MokaStore m
  step (puts key value ttl tags) s = (put m key value ttl tags s).0
  step (removes key) s = remove m key s
  step (purges tag) s = (purge_by_tag m tag s).0
  step (purges_host host) s = (purge_host m host s).0
  step flushes s = flush m s
  step expires s = expire m s

  unfoldable pub run : List Call → MokaStore m → MokaStore m
  unfolding step
  run [] s = s
  run (c ∷ cs) s = run cs (step c s)

  -- Each key that is held stands under each of its tags.
  unfoldable pub IsCovered : (String → List String) → MokaStore m → Type 0
  IsCovered tags s =
      (k t : String) (v : CachedResponse)
      → m.get k s.inner ≡ some v
      → contains t (tags k) ≡ true
      → contains k (keys_for_tag t s.tag_index) ≡ true

  -- The listener is told of a key that is still held only where its entry was replaced.
  loud :
      (k : String) (v : CachedResponse) (c : m.Cache) (cause : RemovalCause)
      → m.get k c ≡ some v
      → (is_replaced cause ≡ false → m.get k c ≡ none)
      → is_replaced cause ≡ true
  loud k v c cause g gone = elim (Bool-cases (is_replaced cause)) [
    | inl e ↦ e
    | inr e ↦ absurd (ground (arith, gone e, g))
  ]

  -- The store after a call that holds no new entries, with the listener.
  listen-IsCovered :
      (tags : String → List String) (s : MokaStore m) (c : m.Cache) (notes : Notes)
      → ((k : String) (v : CachedResponse) → m.get k c ≡ some v → m.get k s.inner ≡ some v)
      → ((k : String) (cause : RemovalCause)
          → In (k, cause) notes
          → is_replaced cause ≡ false
          → m.get k c ≡ none)
      → IsCovered tags s
      → IsCovered tags (record { inner = c; tag_index = listen notes s.tag_index })
  unfolding IsCovered
  listen-IsCovered tags s c notes held told cov k t v g h =
      listen-keeps k t notes s.tag_index (λ cause i. loud k v c cause g (told k cause i))
      ∙ cov k t v (held k v g) h

  remove-IsCovered :
      (tags : String → List String) (k : String) (s : MokaStore m)
      → IsCovered tags s
      → IsCovered tags (remove m k s)
  unfolding remove
  remove-IsCovered tags k s cov =
      listen-IsCovered tags s (m.remove k s.inner).0 (m.remove k s.inner).1
        (λ j v. m.get-remove j k v s.inner) (λ j cause. m.told-remove j k s.inner cause) cov

  -- The key itself is not held any more when it is unregistered after its removal.
  unregister-IsCovered :
      (tags : String → List String) (k : String) (s : MokaStore m)
      → m.get k s.inner ≡ none
      → IsCovered tags s
      → IsCovered tags (record s { tag_index = unregister k s.tag_index })
  unfolding IsCovered
  unregister-IsCovered tags k s gone cov j t v g h =
      unregister-keeps j t k s.tag_index (λ e. other e) ∙ cov j t v g h
    where
      other : j ≡ k → ⊥
      other e = ground (arith, gone, g, ap (λ n. m.get n s.inner) e)

  purge_keys-IsCovered :
      (tags : String → List String) (ks : List String) (s : MokaStore m)
      → IsCovered tags s
      → IsCovered tags (purge_keys m ks s)
  unfolding purge_keys
  purge_keys-IsCovered tags [] s cov = cov
  purge_keys-IsCovered tags (k ∷ ks) s cov =
      let removed = remove m k s in
      purge_keys-IsCovered tags ks (record removed { tag_index = unregister k removed.tag_index })
        (unregister-IsCovered tags k removed (m.get-remove_self k s.inner)
          (remove-IsCovered tags k s cov))

  remove_all-IsCovered :
      (tags : String → List String) (ks : List String) (s : MokaStore m)
      → IsCovered tags s
      → IsCovered tags (remove_all m ks s)
  unfolding remove_all
  remove_all-IsCovered tags [] s cov = cov
  remove_all-IsCovered tags (k ∷ ks) s cov =
      remove_all-IsCovered tags ks (remove m k s) (remove-IsCovered tags k s cov)

  put-IsCovered :
      (tags : String → List String) (key : String) (value : CachedResponse) (ttl : ℕ)
      (new_tags : List String) (s : MokaStore m)
      → IsCovered tags s
      → IsCovered (λ k. if key == k then new_tags else tags k) (put m key value ttl new_tags s).0
  unfolding put IsCovered
  put-IsCovered tags key value ttl new_tags s cov k t v g h = elim (Bool-cases (key == k)) [
    | inl same ↦
        let e : key ≡ k = (string_eq.beq_iff key k).0 same in
        subst (λ n. contains n (keys_for_tag t (register key new_tags told)) ≡ true) e
          (register-has t key new_tags told (rw same at h))
    | inr other ↦
        let n : k ≢ key = λ e. ground (arith, other, string_eq.beq_iff key k) in
        register-keeps k t key new_tags told n
        ∙ listen-keeps k t notes s.tag_index
            (λ cause i. loud k v inner cause g (m.told-insert k key entry s.inner cause n i))
        ∙ cov k t v (m.get-insert_ne k key entry v s.inner n g) (rw other at h)
  ]
    where
      entry : CachedResponse
      entry = record value { max_age = ttl }

      inner : m.Cache
      inner = (m.insert key entry s.inner).0

      notes : Notes
      notes = (m.insert key entry s.inner).1

      told : TagIndex
      told = listen notes s.tag_index

  flush-IsCovered : (tags : String → List String) (s : MokaStore m) → IsCovered tags (flush m s)
  unfolding flush IsCovered
  flush-IsCovered tags s k t v g h = absurd (ground (arith, g, m.get-invalidate_all k s.inner))

  pub new-IsCovered : (tags : String → List String) → IsCovered tags (new m)
  unfolding IsCovered
  new-IsCovered tags k t v g h = absurd (ground (arith, g, m.get-empty k))

  expire-IsCovered :
      (tags : String → List String) (s : MokaStore m)
      → IsCovered tags s
      → IsCovered tags (expire m s)
  unfolding expire
  expire-IsCovered tags s cov =
      listen-IsCovered tags s (m.expire s.inner).0 (m.expire s.inner).1
        (λ k v. m.get-expire k v s.inner) (λ k cause. m.told-expire k s.inner cause) cov

  step-IsCovered :
      (tags : String → List String) (c : Call) (s : MokaStore m)
      → IsCovered tags s
      → IsCovered (λ k. tags_of k (tags k) c) (step c s)
  unfolding step tags_of
  step-IsCovered tags (puts key value ttl new_tags) s cov =
      put-IsCovered tags key value ttl new_tags s cov
  step-IsCovered tags (removes key) s cov = remove-IsCovered tags key s cov
  step-IsCovered tags (purges tag) s cov =
      unfold purge_by_tag in purge_keys-IsCovered tags (keys_for_tag tag s.tag_index) s cov
  step-IsCovered tags (purges_host host) s cov =
      unfold purge_host in remove_all-IsCovered tags (select (of_host host) (m.keys s.inner)) s cov
  step-IsCovered tags flushes s cov = flush-IsCovered tags s
  step-IsCovered tags expires s cov = expire-IsCovered tags s cov

  pub run-IsCovered :
      (tags : String → List String) (cs : List Call) (s : MokaStore m)
      → IsCovered tags s
      → IsCovered (λ k. tags_after k (tags k) cs) (run cs s)
  unfolding run tags_after
  run-IsCovered tags [] s cov = cov
  run-IsCovered tags (c ∷ cs) s cov =
      run-IsCovered (λ k. tags_of k (tags k) c) cs (step c s) (step-IsCovered tags c s cov)
