-- ===== src/Base/Map.antt =====
-- HashMap and DashMap as association lists; the order of the entries stands for the order of
-- iteration, which Rust leaves open. HashSet as a list to which `insert` adds no element twice.
use Prim.Native.Nat.{◌+◌, ◌≤◌}
use mathlib.Core.Path.{◌≡◌, refl, ap}
use mathlib.Core.Logic.{inl, inr}
use mathlib.Core.Bool.{Bool, true, false}
use mathlib.Core.List.{List, [], ◌∷◌}
use mathlib.Core.Option.{Option, none, some}
use native.Mathlib.Omega.{arith}
use waf.Base.Tests.{if◌then◌else◌, Bool-cases}
use waf.Base.Lists.{length}
use waf.Base.Keys.{Eq, ◌==◌, eq_refl}

abbrev pub Map {ℓ κ} : Type ℓ → Type κ → Type (ℓ ⊔ κ)
Map K V = List (K × V)

module _ {ℓ κ} {K : Type ℓ} {V : Type κ} ⦃e : Eq K⦄ where
  unfoldable pub get : K → Map K V → Option V
  get k [] = none
  get k ((j, v) ∷ m) = if j == k then some v else get k m

  -- `insert`: the entry is replaced where it stands, or added at the end.
  unfoldable pub insert : K → V → Map K V → Map K V
  insert k v [] = (k, v) ∷ []
  insert k v ((j, w) ∷ m) = if j == k then (j, v) ∷ m else (j, w) ∷ insert k v m

  unfoldable pub remove : K → Map K V → Map K V
  remove k [] = []
  remove k ((j, w) ∷ m) = let rest = remove k m in if j == k then rest else (j, w) ∷ rest

  -- `retain(|k, v| test)`.
  unfoldable pub retain : (K → V → Bool) → Map K V → Map K V
  retain p [] = []
  retain p ((j, w) ∷ m) = let rest = retain p m in if p j w then (j, w) ∷ rest else rest

  pub get-insert :
      (k j : K) (v : V) (m : Map K V) → get j (insert k v m) ≡ (if k == j then some v else get j m)
  unfolding get insert
  get-insert k j v [] = refl
  get-insert k j v ((i, w) ∷ m) =
      ground (arith, e.beq_iff k j, e.beq_iff i k, e.beq_iff i j, get-insert k j v m)

  pub get-remove : (k j : K) (m : Map K V) → get j (remove k m) ≡ (if k == j then none else get j m)
  unfolding get remove
  get-remove k j [] = ground arith
  get-remove k j ((i, w) ∷ m) =
      ground (arith, e.beq_iff k j, e.beq_iff i k, e.beq_iff i j, get-remove k j m)

  pub get-insert_self : (k : K) (v : V) (m : Map K V) → get k (insert k v m) ≡ some v
  get-insert_self k v m = ground (arith, get-insert k k v m, eq_refl k)

  pub length-insert-le : (k : K) (v : V) (m : Map K V) → length (insert k v m) ≤ length m + 1
  unfolding insert
  length-insert-le k v [] = omega arith
  length-insert-le k v ((j, w) ∷ m) = ground (arith, length-insert-le k v m)

  pub length-retain-le : (p : K → V → Bool) (m : Map K V) → length (retain p m) ≤ length m
  unfolding retain
  length-retain-le p [] = omega arith
  length-retain-le p ((j, w) ∷ m) = ground (arith, length-retain-le p m)

  -- A `retain` that looks at the key alone.
  pub get-retain_key :
      (p : K → Bool) (k : K) (m : Map K V)
      → get k (retain (λ j _. p j) m) ≡ (if p k then get k m else none)
  unfolding get retain
  get-retain_key p k [] = ground arith
  get-retain_key p k ((j, w) ∷ m) = elim (Bool-cases (j == k)) [
    | inl same ↦ ground (arith, same, ap p ((e.beq_iff j k).0 same), get-retain_key p k m)
    | inr other ↦ ground (arith, other, get-retain_key p k m)
  ]

  -- The keys of a map: each stands in one entry.
  unfoldable pub has_key : K → Map K V → Bool
  has_key k [] = false
  has_key k ((j, w) ∷ m) = let rest = has_key k m in if j == k then true else rest

  unfoldable pub distinct_keys : Map K V → Bool
  unfolding has_key
  distinct_keys [] = true
  distinct_keys ((j, w) ∷ m) = let rest = distinct_keys m in if has_key j m then false else rest

  has_key-insert :
      (k j : K) (v : V) (m : Map K V)
      → has_key j (insert k v m) ≡ (if k == j then true else has_key j m)
  unfolding has_key insert
  has_key-insert k j v [] = refl
  has_key-insert k j v ((i, w) ∷ m) =
      ground (arith, e.beq_iff k j, e.beq_iff i k, e.beq_iff i j, has_key-insert k j v m)

  pub insert-distinct_keys :
      (k : K) (v : V) (m : Map K V) → distinct_keys m ≡ true → distinct_keys (insert k v m) ≡ true
  unfolding distinct_keys insert
  insert-distinct_keys k v [] h = refl
  insert-distinct_keys k v ((j, w) ∷ m) h =
      ground
        (arith, e.beq_iff j k, e.beq_iff k j, has_key-insert k j v m, insert-distinct_keys k v m)

  has_key-retain :
      (p : K → V → Bool) (j : K) (m : Map K V)
      → has_key j m ≡ false
      → has_key j (retain p m) ≡ false
  unfolding has_key retain
  has_key-retain p j [] h = refl
  has_key-retain p j ((i, w) ∷ m) h = ground (arith, has_key-retain p j m)

  pub retain-distinct_keys :
      (p : K → V → Bool) (m : Map K V) → distinct_keys m ≡ true → distinct_keys (retain p m) ≡ true
  unfolding distinct_keys retain
  retain-distinct_keys p [] h = refl
  retain-distinct_keys p ((j, w) ∷ m) h =
      ground (arith, has_key-retain p j m, retain-distinct_keys p m)

  get-absent : (k : K) (m : Map K V) → has_key k m ≡ false → get k m ≡ none
  unfolding get has_key
  get-absent k [] h = refl
  get-absent k ((j, w) ∷ m) h = ground (arith, get-absent k m)

  -- What `retain` keeps of a key's entry.
  abbrev pub kept : (K → V → Bool) → K → Option V → Option V
  kept p k none = none
  kept p k (some v) = if p k v then some v else none

  pub get-retain :
      (p : K → V → Bool) (k : K) (m : Map K V)
      → distinct_keys m ≡ true
      → get k (retain p m) ≡ kept p k (get k m)
  unfolding get retain distinct_keys
  get-retain p k [] h = refl
  get-retain p k ((j, w) ∷ m) h = elim (Bool-cases (j == k)) [
    | inl same ↦ ground (
      arith,
      same,
      (e.beq_iff j k).0 same,
      get-absent k m,
      has_key-retain p k m,
      get-absent k (retain p m),
    )
    | inr other ↦ ground (arith, other, get-retain p k m)
  ]

module _ {ℓ} {K : Type ℓ} ⦃e : Eq K⦄ where
  unfoldable pub contains : K → List K → Bool
  contains k [] = false
  contains k (j ∷ s) = let rest = contains k s in if j == k then true else rest

  -- `HashSet::insert`: the new set, and whether the element is new.
  unfoldable pub set_insert : K → List K → List K × Bool
  unfolding contains
  set_insert k s = if contains k s then (s, false) else (k ∷ s, true)

  unfoldable pub distinct : List K → Bool
  unfolding contains
  distinct [] = true
  distinct (j ∷ s) = let rest = distinct s in if contains j s then false else rest

  pub contains-set_insert :
      (k j : K) (s : List K)
      → contains j (set_insert k s).0 ≡ (if k == j then true else contains j s)
  unfolding contains set_insert
  contains-set_insert k j s = ground (arith, e.beq_iff k j)

  pub set_insert-distinct :
      (k : K) (s : List K) → distinct s ≡ true → distinct (set_insert k s).0 ≡ true
  unfolding distinct set_insert
  set_insert-distinct k s h = ground arith
