-- ===== src/Cache/Tags.antt =====
-- crates/gateway/src/cache/tag_index.rs: which keys a tag has, and which tags a key has.
pub mod Index
use waf.Base.{
  ℕ, Bool, String, Option, none, some, List, [], ◌∷◌, length, map, select, not, if◌then◌else◌,
}
use waf.Base.Keys.{string_eq, ◌==◌}
use waf.Base.Map
use waf.Base.Map.{Map, set_insert}

pub record TagIndex : Type 0 where
  pub tag_to_keys : Map String (List String)
  pub key_to_tags : Map String (List String)

abbrev pub new : TagIndex
new = record { tag_to_keys = []; key_to_tags = [] }

abbrev pub or_nothing : Option (List String) → List String
or_nothing none = []
or_nothing (some s) = s

-- `entry(tag).or_default().insert(key)` for each tag.
unfoldable pub insert_under :
    String → List String → Map String (List String) → Map String (List String)
insert_under key [] m = m
insert_under key (tag ∷ tags) m =
    insert_under key tags (Map.insert tag (set_insert key (or_nothing (Map.get tag m))).0 m)

-- `DashSet::remove`.
unfoldable pub without : String → List String → List String
without key s = select (λ k. not (k == key)) s

abbrev pub drop_empty : String → Map String (List String) → List String → Map String (List String)
drop_empty tag m [] = Map.remove tag m
drop_empty tag m (k ∷ ks) = Map.insert tag (k ∷ ks) m

-- What is left of a tag's entry: it goes when its set is empty.
unfoldable pub shrink :
    String → Option (List String) → String → Map String (List String) → Map String (List String)
unfolding without
shrink key none tag m = m
shrink key (some s) tag m = drop_empty tag m (without key s)

unfoldable pub remove_under :
    String → List String → Map String (List String) → Map String (List String)
unfolding shrink
remove_under key [] m = m
remove_under key (tag ∷ tags) m = remove_under key tags (shrink key (Map.get tag m) tag m)

unfoldable pub unregister_tags : String → Option (List String) → TagIndex → TagIndex
unfolding remove_under
unregister_tags key none index = index
unregister_tags key (some tags) index = record {
  tag_to_keys = remove_under key tags index.tag_to_keys;
  key_to_tags = Map.remove key index.key_to_tags;
}

unfoldable pub unregister : String → TagIndex → TagIndex
unfolding unregister_tags
unregister key index = unregister_tags key (Map.get key index.key_to_tags) index

unfoldable pub register : String → List String → TagIndex → TagIndex
unfolding unregister insert_under
register key [] index = index
register key (tag ∷ tags) index =
    let cleared = unregister key index in
    record {
      tag_to_keys = insert_under key (tag ∷ tags) cleared.tag_to_keys;
      key_to_tags = Map.insert key (tag ∷ tags) cleared.key_to_tags;
    }

unfoldable pub keys_for_tag : String → TagIndex → List String
keys_for_tag tag index = or_nothing (Map.get tag index.tag_to_keys)

unfoldable pub key_count : TagIndex → ℕ
key_count index = length index.key_to_tags

unfoldable pub tag_entry_counts : TagIndex → List (String × ℕ)
tag_entry_counts index = map (λ e. (e.0, length e.1)) index.tag_to_keys
