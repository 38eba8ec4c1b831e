-- ===== src/Rules/Registry/Filter.antt =====
-- The filters of the registry after any calls.
use waf.Base.{
  ◌≡◌, ◌↔◌, refl, ap, ◌∙◌, inl, inr, true, String, none, some, List, [], ◌∷◌, arith, In,
  if◌then◌else◌, Bool-cases, Option-cases,
}
use waf.Base.Keys.{◌==◌, string_eq, eq_refl}
use waf.Base.Map
use waf.Base.Map.{Map, contains}
use waf.Rules.Registry.{
  Rule, RuleRegistry, new, bucket, insert, remove, lookup_all, filter_by_category, clear,
}
use waf.Rules.Registry.Index.{IsIndexed, insert-IsIndexed, remove-IsIndexed}

pub data Call : Type 0 where
  inserts : Rule → Call
  removes : String → Call
  clears : Call

pub step : Call → RuleRegistry → RuleRegistry
step (inserts r) g = insert r g
step (removes id) g = (remove id g).0
step clears g = clear g

pub run : List Call → RuleRegistry → RuleRegistry
run [] g = g
run (c ∷ cs) g = run cs (step c g)

-- Every rule stands under its own id.
record IsValid (g : RuleRegistry) : Type 0 where
  indexed : IsIndexed g
  keyed : (id : String) (r : Rule) → Map.get id g.rules ≡ some r → r.id ≡ id

new-IsValid : IsValid new
unfolding bucket contains Map.get
new-IsValid = record {
  indexed = record { category = λ c j. refl; source = λ c j. refl };
  keyed = λ id r h. cc;
}

pub rules-insert : (r : Rule) (g : RuleRegistry) → (insert r g).rules ≡ Map.insert r.id r g.rules
unfolding insert
rules-insert r g = ground arith

rules-remove :
    (id j : String) (g : RuleRegistry)
    → Map.get j (remove id g).0.rules ≡ (if id == j then none else Map.get j g.rules)
unfolding remove
rules-remove id j g = ground (arith, Map.get-remove id j g.rules, string_eq.beq_iff id j)

step-IsValid : (c : Call) (g : RuleRegistry) → IsValid g → IsValid (step c g)
unfolding step clear
step-IsValid (inserts r) g v = record {
  indexed = insert-IsIndexed r g v.indexed;
  keyed = λ id s. rw (rules-insert r g) (λ h.
      ground (arith, Map.get-insert r.id id r g.rules, string_eq.beq_iff r.id id, v.keyed id s));
}
step-IsValid (removes id) g v = record {
  indexed = remove-IsIndexed id g v.indexed;
  keyed = λ j s h. ground (arith, rules-remove id j g, v.keyed j s);
}
step-IsValid clears g v = new-IsValid

run-IsValid : (cs : List Call) (g : RuleRegistry) → IsValid g → IsValid (run cs g)
unfolding run
run-IsValid [] g v = v
run-IsValid (c ∷ cs) g v = run-IsValid cs (step c g) (step-IsValid c g v)

lookup_all_sound :
    (r : Rule) (ids : List String) (m : Map String Rule)
    → In r (lookup_all ids m)
    → (id : String) × (contains id ids ≡ true) × (Map.get id m ≡ some r)
unfolding lookup_all contains
lookup_all_sound r [] m h = elim h [ ]
lookup_all_sound r (i ∷ ids) m h =
    let rest = lookup_all_sound r ids m in
    elim (Option-cases (Map.get i m)) [
      | inl e ↦ later (rest (rw (e, lookup_all) at h))
      | inr (s, e) ↦ found s e rest (rw (e, lookup_all) at h)
    ]
  where
    later :
        (id : String) × (contains id ids ≡ true) × (Map.get id m ≡ some r)
        → (id : String) × (contains id (i ∷ ids) ≡ true) × (Map.get id m ≡ some r)
    later (id, c, g) = (id, ground arith, g)

    found :
        (s : Rule)
        → Map.get i m ≡ some s
        → (In r (lookup_all ids m)
            → (id : String) × (contains id ids ≡ true) × (Map.get id m ≡ some r))
        → In r (s ∷ lookup_all ids m)
        → (id : String) × (contains id (i ∷ ids) ≡ true) × (Map.get id m ≡ some r)
    found s e rest (inl p) = (i, rw (eq_refl {K = String} i), cc)
    found s e rest (inr p) = later (rest p)

lookup_all_complete :
    (r : Rule) (id : String) (ids : List String) (m : Map String Rule)
    → contains id ids ≡ true
    → Map.get id m ≡ some r
    → In r (lookup_all ids m)
unfolding lookup_all contains
lookup_all_complete r id [] m c g = absurd (ground arith)
lookup_all_complete r id (i ∷ ids) m c g = elim (Bool-cases (i == id)) [
  | inl same ↦
      let e : Map.get i m ≡ some r = ap (λ j. Map.get j m) ((string_eq.beq_iff i id).0 same) ∙ g in
      rw (e, lookup_all) (inl refl)
  | inr other ↦
      let rest = lookup_all_complete r id ids m (ground (arith, other)) g in
      elim (Option-cases (Map.get i m)) [
        | inl e ↦ rw (e, lookup_all) rest
        | inr (s, e) ↦ rw (e, lookup_all) (inr rest)
      ]
]

-- After any inserts, removals and clears of an empty registry, a rule is in the result of
-- `filter_by_category` exactly when the registry holds it under its id and it has the category.
pub filter_by_category_lem :
    (cs : List Call) (category : String) (r : Rule)
    → In r (filter_by_category category (run cs new))
      ↔ ((Map.get r.id (run cs new).rules ≡ some r) × (r.category ≡ category))
unfolding filter_by_category
filter_by_category_lem cs category r = (
  λ h.
      let (id, c, g) = lookup_all_sound r (bucket category reg.by_category) reg.rules h in
      let k = v.keyed id r g in
      (
        ap (λ j. Map.get j reg.rules) k ∙ g,
        ground (arith, v.indexed.category category id, string_eq.beq_iff r.category category),
      ),
  λ h.
      lookup_all_complete r r.id (bucket category reg.by_category) reg.rules
        (ground (
          arith,
          v.indexed.category category r.id,
          string_eq.beq_iff r.category category,
          h.0,
          h.1,
        ))
        h.0,
)
  where
    reg : RuleRegistry
    reg = run cs new

    v : IsValid reg
    v = run-IsValid cs new new-IsValid
