-- ===== src/Rules/Registry/Index.antt =====
-- The indices of the registry against its rules.
use waf.Base.{
  ◌≡◌, refl, inl, inr, Bool, true, false, not, String, Option, none, some, List, [], ◌∷◌, ◌++◌,
  arith, select, if◌then◌else◌, Option-cases,
}
use waf.Base.Keys.{◌==◌, string_eq}
use waf.Base.Map
use waf.Base.Map.{Map, contains}
use waf.Rules.Registry.{Rule, RuleRegistry, bucket, push_index, clear_index, insert, remove}

contains-append :
    (j : String) (xs ys : List String)
    → contains j (xs ++ ys) ≡ (if contains j xs then true else contains j ys)
unfolding contains
contains-append j [] ys = refl
contains-append j (x ∷ xs) ys = ground (arith, contains-append j xs ys)

contains-without :
    (id j : String) (xs : List String)
    → contains j (select (λ x. not (x == id)) xs) ≡ (if id == j then false else contains j xs)
unfolding contains
contains-without id j [] = ground arith
contains-without id j (x ∷ xs) = ground (
  arith,
  string_eq.beq_iff x id,
  string_eq.beq_iff id j,
  string_eq.beq_iff x j,
  contains-without id j xs,
)

bucket-push_index :
    (key c id j : String) (m : Map String (List String))
    → contains j (bucket c (push_index key id m)) ≡ (
        if key == c
        then if id == j then true else contains j (bucket c m)
        else contains j (bucket c m))
unfolding push_index contains
bucket-push_index key c id j m = ground (
  arith,
  Map.get-insert key c (bucket key m ++ id ∷ []) m,
  string_eq.beq_iff key c,
  contains-append j (bucket key m) (id ∷ []),
)

get-clear_index :
    (id c : String) (m : Map String (List String))
    → bucket c (clear_index id m) ≡ select (λ x. not (x == id)) (bucket c m)
unfolding bucket clear_index Map.get
get-clear_index id c [] = refl
get-clear_index id c ((k, ids) ∷ m) = ground (arith, get-clear_index id c m)

bucket-clear_index :
    (id c j : String) (m : Map String (List String))
    → contains j (bucket c (clear_index id m))
      ≡ (if id == j then false else contains j (bucket c m))
bucket-clear_index id c j m = rw (get-clear_index id c m) (contains-without id j (bucket c m))

-- Whether a looked-up rule has the key.
abbrev holds : (Rule → String) → String → Option Rule → Bool
holds key c none = false
holds key c (some r) = key r == c

-- An index by `key` lists an id under `c` exactly when the rule of that id has the key `c`.
abbrev IsIndexBy : (Rule → String) → Map String (List String) → Map String Rule → Type 0
IsIndexBy key index rules =
    (c j : String) → contains j (bucket c index) ≡ holds key c (Map.get j rules)

pub record IsIndexed (g : RuleRegistry) : Type 0 where
  pub category : IsIndexBy (λ r. r.category) g.by_category g.rules
  pub source : IsIndexBy (λ r. r.source) g.by_source g.rules

module _ (key : Rule → String) (index : Map String (List String)) (rules : Map String Rule)
    (ok : IsIndexBy key index rules) where
  insert_fresh :
      (r : Rule)
      → Map.get r.id rules ≡ none
      → IsIndexBy key (push_index (key r) r.id index) (Map.insert r.id r rules)
  insert_fresh r fresh c j = ground (
    arith,
    bucket-push_index (key r) c r.id j index,
    Map.get-insert r.id j r rules,
    ok c j,
    string_eq.beq_iff r.id j,
    fresh,
  )

  insert_again :
      (r : Rule)
      → IsIndexBy key (push_index (key r) r.id (clear_index r.id index)) (Map.insert r.id r rules)
  insert_again r c j = ground (
    arith,
    bucket-push_index (key r) c r.id j (clear_index r.id index),
    bucket-clear_index r.id c j index,
    Map.get-insert r.id j r rules,
    ok c j,
  )

  remove_indexed : (id : String) → IsIndexBy key (clear_index id index) (Map.remove id rules)
  remove_indexed id c j =
      ground (arith, bucket-clear_index id c j index, Map.get-remove id j rules, ok c j)

pub insert-IsIndexed : (r : Rule) (g : RuleRegistry) → IsIndexed g → IsIndexed (insert r g)
unfolding insert
insert-IsIndexed r g h = elim (Option-cases (Map.get r.id g.rules)) [
  | inl e ↦
      rw (e, insert)
        (record {
          category = insert_fresh (λ r. r.category) g.by_category g.rules h.category r e;
          source = insert_fresh (λ r. r.source) g.by_source g.rules h.source r e;
        })
  | inr (_, e) ↦
      rw (e, insert)
        (record {
          category = insert_again (λ r. r.category) g.by_category g.rules h.category r;
          source = insert_again (λ r. r.source) g.by_source g.rules h.source r;
        })
]

pub remove-IsIndexed : (id : String) (g : RuleRegistry) → IsIndexed g → IsIndexed (remove id g).0
unfolding remove
remove-IsIndexed id g h = elim (Option-cases (Map.get id g.rules)) [
  | inl e ↦ rw (e, remove) h
  | inr (_, e) ↦
      rw (e, remove)
        (record {
          category = remove_indexed (λ r. r.category) g.by_category g.rules h.category id;
          source = remove_indexed (λ r. r.source) g.by_source g.rules h.source id;
        })
]
