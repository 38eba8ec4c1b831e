-- ===== src/Cluster/Sync/Apply.antt =====
-- A worker that follows the changelog of the main (sync/rules.rs).
use mathlib.Core.Path.{subst}
use waf.Base.{
  ℕ, zero, suc, ◌^◌, ◌<◌, ◌≡◌, refl, sym, ap, ◌∙◌, inl, inr, true, String, Option, none, some, List,
  [], ◌∷◌, ◌++◌, arith, length, drop, take, if◌then◌else◌, Bool-cases,
}
use waf.Base.Keys.{string_eq, ◌==◌}
use waf.Base.Map
use waf.Rules.Registry
use waf.Rules.Registry.Filter.{rules-insert}
use waf.Rules.Registry.{Rule, RuleRegistry}
use waf.Cluster.Protocol.{RuleChange, incremental, full, RuleSyncResponse}
use waf.Cluster.Sync.{
  Codec, CodecLaws, RuleChangelog, new, delta_since, handle_sync_request, apply_change,
  apply_rule_changes, insert_all, apply_full_snapshot, apply_sync_response,
}
use waf.Cluster.Sync.History.{append_all, current_version-append_all}
use waf.Cluster.Sync.Delta.{delta_since_complete}

module _ (c : Codec) where
  -- Changes applied in two parts are applied in one.
  apply_rule_changes-append :
      (xs ys : List (RuleChange c.Json)) (g : RuleRegistry)
      → (apply_rule_changes c xs g).1 ≡ true
      → apply_rule_changes c (xs ++ ys) g ≡ apply_rule_changes c ys (apply_rule_changes c xs g).0
  unfolding apply_rule_changes
  apply_rule_changes-append [] ys g h = refl
  apply_rule_changes-append (x ∷ xs) ys g h = elim (Bool-cases (apply_change c x g).1) [
    | inl ok ↦ rw ok (apply_rule_changes-append xs ys (apply_change c x g).0 (rw ok at h))
    | inr bad ↦ absurd (ground (arith, bad))
  ]

  take-drop : (v : ℕ) (xs : List (RuleChange c.Json)) → take v xs ++ drop v xs ≡ xs
  take-drop zero xs = refl
  take-drop (suc v) [] = refl
  take-drop (suc v) (x ∷ xs) = ap (◌∷◌ x) (take-drop v xs)

  -- A part at the front of changes that all apply applies.
  prefix_applies :
      (xs ys : List (RuleChange c.Json)) (g : RuleRegistry)
      → (apply_rule_changes c (xs ++ ys) g).1 ≡ true
      → (apply_rule_changes c xs g).1 ≡ true
  unfolding apply_rule_changes
  prefix_applies [] ys g h = refl
  prefix_applies (x ∷ xs) ys g h = elim (Bool-cases (apply_change c x g).1) [
    | inl ok ↦ rw ok (prefix_applies xs ys (apply_change c x g).0 (rw ok at h))
    | inr bad ↦ absurd (ground (arith, bad))
  ]

  -- An incremental answer carries the delta and the version of the changelog.
  incremental_answer :
      (l : RuleChangelog c.Json) (v : ℕ) (rules : List Rule) (r : RuleSyncResponse c.Json c.Bytes)
      → handle_sync_request c l v rules ≡ some r
      → r.sync_type ≡ incremental
      → (delta_since v l ≡ some r.changes) × (r.version ≡ l.current_version)
  unfolding handle_sync_request
  incremental_answer l v rules r h kind = ground arith

  -- A worker that has applied the first `v` changes of the history, and is answered with a delta,
  -- holds after it the registry that all the changes make, under the version of the main, where
  -- the changes parse and are fewer than 2 ^ 64.
  pub sync_incremental :
      (max v : ℕ) (history : List (RuleChange c.Json)) (rules : List Rule) (base : RuleRegistry)
      (r : RuleSyncResponse c.Json c.Bytes)
      → length history < 2 ^ 64
      → (apply_rule_changes c history base).1 ≡ true
      → handle_sync_request c (append_all history (new max)) v rules ≡ some r
      → r.sync_type ≡ incremental
      → apply_sync_response c r (apply_rule_changes c (take v history) base).0
        ≡ (record (apply_rule_changes c history base).0 { version = length history }, true)
  unfolding apply_sync_response new
  sync_incremental max v history rules base r small ok answer kind =
      let (delta, version) =
        incremental_answer (append_all history (new max)) v rules r answer kind in
      let tail : r.changes ≡ drop v history =
        delta_since_complete max v history r.changes small delta in
      let whole : apply_rule_changes c (drop v history)
            (apply_rule_changes c (take v history) base).0
          ≡ apply_rule_changes c history base =
        sym (
          apply_rule_changes-append (take v history) (drop v history) base (
            prefix_applies (take v history) (drop v history) base (
              subst (λ xs. (apply_rule_changes c xs base).1 ≡ true) (sym (take-drop v history))
                ok)))
        ∙ ap (λ xs. apply_rule_changes c xs base) (take-drop v history) in
      let number : r.version ≡ length history =
        omega (arith, version, current_version-append_all history (new max) (omega arith)) in
      rw (kind, apply_sync_response, tail, whole, ok, number)

  -- The last rule of an id in a list, or else `d`.
  pub last_of : String → List Rule → Option Rule → Option Rule
  last_of id [] d = d
  last_of id (r ∷ rs) d = last_of id rs (if r.id == id then some r else d)

  get-insert_all :
      (id : String) (rs : List Rule) (g : RuleRegistry)
      → Map.get id (insert_all c rs g).rules ≡ last_of id rs (Map.get id g.rules)
  unfolding insert_all last_of
  get-insert_all id [] g = refl
  get-insert_all id (r ∷ rs) g =
      get-insert_all id rs (Registry.insert r g)
      ∙ ap (last_of id rs) (ap (Map.get id) (rules-insert r g) ∙ Map.get-insert r.id id r g.rules)

  full_answer :
      (l : RuleChangelog c.Json) (v : ℕ) (rules : List Rule) (r : RuleSyncResponse c.Json c.Bytes)
      → handle_sync_request c l v rules ≡ some r
      → r.sync_type ≡ full
      → (c.snapshot_rules rules ≡ some r.snapshot_lz4) × (r.version ≡ l.current_version)
  unfolding handle_sync_request
  full_answer l v rules r h kind = ground arith

  -- A worker that is answered with a snapshot holds after it, whatever it held before, the rules
  -- of the main, under the version of the main.
  pub sync_full :
      (laws : CodecLaws c) (l : RuleChangelog c.Json) (v : ℕ) (rules : List Rule)
      (r : RuleSyncResponse c.Json c.Bytes) (g : RuleRegistry) (id : String)
      → handle_sync_request c l v rules ≡ some r
      → r.sync_type ≡ full
      → (Map.get id (apply_sync_response c r g).0.rules ≡ last_of id rules none)
        × ((apply_sync_response c r g).0.version ≡ l.current_version)
        × ((apply_sync_response c r g).1 ≡ true)
  unfolding apply_sync_response Registry.clear Map.get
  sync_full laws l v rules r g id answer kind =
      let (packed, version) = full_answer l v rules r answer kind in
      let unpacked = laws.snapshot_roundtrip rules r.snapshot_lz4 packed in
      (
        rw (kind, apply_sync_response, apply_full_snapshot, unpacked)
            (get-insert_all id rules (Registry.clear g)),
        rw (kind, apply_sync_response, apply_full_snapshot, unpacked) version,
        rw (kind, apply_sync_response, apply_full_snapshot, unpacked),
      )
