-- ===== src/Cache/Store/Purge.antt =====
-- The entries of a tag after any calls of the store and a purge.
use waf.Base.{
  ◌≡◌, true, String, none, some, List, [], ◌∷◌, inl, inr, arith, Bool-cases, Option-cases,
}
use waf.Base.Keys.{string_eq, ◌==◌}
use waf.Base.Map.{contains}
use waf.Cache.Tags.{unregister, keys_for_tag}
use waf.Cache.Store.{CachedResponse, Moka, MokaStore, new, remove, purge_keys, purge_by_tag}
use waf.Cache.Store.Covered.{Call, tags_after, run, IsCovered, run-IsCovered, new-IsCovered}

module _ (m : Moka) where
  purge_keys-none :
      (k : String) (ks : List String) (s : MokaStore m)
      → m.get k s.inner ≡ none
      → m.get k (purge_keys m ks s).inner ≡ none
  unfolding purge_keys remove
  purge_keys-none k [] s gone = gone
  purge_keys-none k (j ∷ ks) s gone =
      purge_keys-none k ks
        (record (remove m j s) { tag_index = unregister j (remove m j s).tag_index })
        (still (m.remove j s.inner).0 (λ w. m.get-remove k j w s.inner) gone)
    where
      still :
          (c : m.Cache)
          → ((w : CachedResponse) → m.get k c ≡ some w → m.get k s.inner ≡ some w)
          → m.get k s.inner ≡ none
          → m.get k c ≡ none
      still c held none_before = elim (Option-cases (m.get k c)) [
        | inl e ↦ e
        | inr (w, e) ↦ absurd (ground (arith, held w e))
      ]

  purge_keys-lists :
      (k : String) (ks : List String) (s : MokaStore m)
      → contains k ks ≡ true
      → m.get k (purge_keys m ks s).inner ≡ none
  unfolding purge_keys contains remove
  purge_keys-lists k [] s h = absurd (ground arith)
  purge_keys-lists k (j ∷ ks) s h = elim (Bool-cases (j == k)) [
    | inl same ↦
        purge_keys-none k ks (next j)
          (rw (← (string_eq.beq_iff j k).0 same) (m.get-remove_self j s.inner))
    | inr other ↦ purge_keys-lists k ks (next j) (ground (arith, other))
  ]
    where
      next : String → MokaStore m
      next i = record (remove m i s) { tag_index = unregister i (remove m i s).tag_index }

  -- After any puts, removals, purges, flushes and evictions of an empty store, `purge_by_tag`
  -- leaves no entry of a key whose last put had the tag.
  pub purge_by_tag_lem :
      (cs : List Call) (k tag : String)
      → contains tag (tags_after k [] cs) ≡ true
      → m.get k (purge_by_tag m tag (run m cs (new m))).0.inner ≡ none
  unfolding purge_by_tag
  purge_by_tag_lem cs k tag h = elim (Option-cases (m.get k (run m cs (new m)).inner)) [
    | inl gone ↦
        purge_keys-none k (keys_for_tag tag (run m cs (new m)).tag_index) (run m cs (new m)) gone
    | inr (v, held) ↦
        purge_keys-lists k (keys_for_tag tag (run m cs (new m)).tag_index) (run m cs (new m)) (
          unfold IsCovered in
          run-IsCovered m (λ _. []) cs (new m) (new-IsCovered m (λ _. [])) k tag v held h)
  ]
