-- ===== src/Cache/Tags/Index.antt =====
-- The keys that the index has for a tag, after it is changed.
use waf.Base.{
  ◌≡◌, ◌≢◌, refl, Bool, true, false, String, Option, none, some, List, [], ◌∷◌, ◌&&◌, ◌||◌, arith,
  if◌then◌else◌, Option-cases, inl, inr,
}
use waf.Base.Keys.{string_eq, ◌==◌, eq_refl}
use waf.Base.Map
use waf.Base.Map.{Map, set_insert, contains, contains-set_insert}
use waf.Cache.Tags.{
  TagIndex, or_nothing, insert_under, without, drop_empty, shrink, remove_under, unregister,
  unregister_tags, register, keys_for_tag,
}

-- The key stands under the tag.
abbrev pub under : String → String → Map String (List String) → Bool
under key tag m = contains key (or_nothing (Map.get tag m))

contains-without :
    (j k : String) (s : List String)
    → contains j (without k s) ≡ (if j == k then false else contains j s)
unfolding contains without
contains-without j k [] = ground arith
contains-without j k (i ∷ s) = ground (
  arith,
  string_eq.beq_iff i k,
  string_eq.beq_iff i j,
  string_eq.beq_iff j k,
  contains-without j k s,
)

under-insert_under :
    (j t k : String) (tags : List String) (m : Map String (List String))
    → under j t (insert_under k tags m) ≡ ((j == k && contains t tags) || under j t m)
unfolding insert_under contains
under-insert_under j t k [] m = ground arith
under-insert_under j t k (u ∷ tags) m = ground (
  arith,
  under-insert_under j t k tags (Map.insert u (set_insert k (or_nothing (Map.get u m))).0 m),
  Map.get-insert u t (set_insert k (or_nothing (Map.get u m))).0 m,
  contains-set_insert k j (or_nothing (Map.get u m)),
  string_eq.beq_iff u t,
  string_eq.beq_iff k j,
  string_eq.beq_iff j k,
)

under-drop_empty :
    (j t u : String) (r : List String) (m : Map String (List String))
    → under j t (drop_empty u m r) ≡ (if u == t then contains j r else under j t m)
unfolding contains
under-drop_empty j t u [] m = ground (arith, Map.get-remove u t m)
under-drop_empty j t u (k ∷ ks) m = ground (arith, Map.get-insert u t (k ∷ ks) m)

under-shrink :
    (j t k u : String) (o : Option (List String)) (m : Map String (List String))
    → Map.get u m ≡ o
    → under j t (shrink k o u m) ≡ (if j == k && u == t then false else under j t m)
unfolding shrink contains
under-shrink j t k u none m e = ground (arith, string_eq.beq_iff u t)
under-shrink j t k u (some s) m e = ground (
  arith,
  under-drop_empty j t u (without k s) m,
  contains-without j k s,
  string_eq.beq_iff u t,
  string_eq.beq_iff j k,
)

under-remove_under :
    (j t k : String) (tags : List String) (m : Map String (List String))
    → under j t (remove_under k tags m) ≡ (if j == k && contains t tags then false else under j t m)
unfolding remove_under contains
under-remove_under j t k [] m = ground arith
under-remove_under j t k (u ∷ tags) m = ground (
  arith,
  under-remove_under j t k tags (shrink k (Map.get u m) u m),
  under-shrink j t k u (Map.get u m) m refl,
)

-- Another key stays under its tags when a key is unregistered.
pub unregister-keeps :
    (j t k : String) (index : TagIndex)
    → j ≢ k
    → contains j (keys_for_tag t (unregister k index)) ≡ contains j (keys_for_tag t index)
unfolding unregister unregister_tags keys_for_tag
unregister-keeps j t k index n = elim (Option-cases (Map.get k index.key_to_tags)) [
  | inl e ↦ rw (e, unregister_tags)
  | inr (tags, e) ↦
      rw (e, unregister_tags)
        (ground (arith, under-remove_under j t k tags index.tag_to_keys, string_eq.beq_iff j k))
]

pub register-has :
    (t k : String) (tags : List String) (index : TagIndex)
    → contains t tags ≡ true
    → contains k (keys_for_tag t (register k tags index)) ≡ true
unfolding register keys_for_tag
register-has t k [] index h = unfold contains in cc
register-has t k (u ∷ tags) index h = ground (
  arith,
  under-insert_under k t k (u ∷ tags) (unregister k index).tag_to_keys,
  eq_refl {K = String} k,
)

pub register-keeps :
    (j t k : String) (tags : List String) (index : TagIndex)
    → j ≢ k
    → contains j (keys_for_tag t (register k tags index)) ≡ contains j (keys_for_tag t index)
unfolding register keys_for_tag
register-keeps j t k [] index n = refl
register-keeps j t k (u ∷ tags) index n = ground (
  arith,
  under-insert_under j t k (u ∷ tags) (unregister k index).tag_to_keys,
  string_eq.beq_iff j k,
  unregister-keeps j t k index n,
)
