-- ===== src/Tier/Classifier/Priority.antt =====
-- The classifier against the priorities of its rules.
use waf.Base.{
  ℕ, ◌≤◌, ◌≡◌, refl, ap, ◌∙◌, sym, inl, inr, true, ◌&&◌, Option, none, some, List, [], ◌∷◌, leb,
  leb→le, arith, if◌then◌else◌, Bool-cases, Option-cases,
}
use waf.Tier.{Tier, TierClassifierRule}
use waf.Tier.Rule.{Libraries, Result, ok, err, and_then}
use waf.Tier.Classifier.{
  CompiledTierRule, RequestParts, TierClassifier, matches, compile_all, insert_by, sort_by_priority,
  compile_rules, new, first_match, tier_or, classify,
}

value : {A : Type 0} → A → Result A → A
value d (ok a) = a
value d (err e) = d

module _ {lib : Libraries} where
  -- The better of a rule and the best of those after it: one that matches, of the higher priority,
  -- and of two of one priority the one that stands first.
  abbrev pub better :
      CompiledTierRule lib
      → RequestParts lib
      → Option (CompiledTierRule lib)
      → Option (CompiledTierRule lib)
  better r req none = if matches r req then some r else none
  better r req (some s) = if matches r req && leb s.priority r.priority then some r else some s

  abbrev pub best : List (CompiledTierRule lib) → RequestParts lib → Option (CompiledTierRule lib)
  best [] req = none
  best (r ∷ rs) req = better r req (best rs req)

  -- No priority above n, and a descending list.
  abbrev UpTo : ℕ → List (CompiledTierRule lib) → Type 0
  UpTo n [] = Unit {0}
  UpTo n (r ∷ rs) = (r.priority ≤ n) × UpTo n rs

  abbrev IsDescending : List (CompiledTierRule lib) → Type 0
  IsDescending [] = Unit {0}
  IsDescending (r ∷ rs) = UpTo r.priority rs × IsDescending rs

  UpTo-le : (m n : ℕ) (rs : List (CompiledTierRule lib)) → m ≤ n → UpTo m rs → UpTo n rs
  UpTo-le m n [] h u = tt
  UpTo-le m n (r ∷ rs) h u = (omega (arith, h, u.0), UpTo-le m n rs h u.1)

  UpTo-insert_by :
      (n : ℕ) (x : CompiledTierRule lib) (rs : List (CompiledTierRule lib))
      → x.priority ≤ n
      → UpTo n rs
      → UpTo n (insert_by x rs)
  unfolding insert_by
  UpTo-insert_by n x [] h u = (h, tt)
  UpTo-insert_by n x (r ∷ rs) h u = elim (Bool-cases (leb r.priority x.priority)) [
    | inl here ↦ rw here (h, u)
    | inr later ↦ rw later (u.0, UpTo-insert_by n x rs h u.1)
  ]

  insert_by-IsDescending :
      (x : CompiledTierRule lib) (rs : List (CompiledTierRule lib))
      → IsDescending rs
      → IsDescending (insert_by x rs)
  unfolding insert_by
  insert_by-IsDescending x [] d = (tt, tt)
  insert_by-IsDescending x (r ∷ rs) d = elim (Bool-cases (leb r.priority x.priority)) [
    | inl here ↦
        let le = leb→le r.priority x.priority here in
        rw here ((le, UpTo-le r.priority x.priority rs le d.0), d)
    | inr later ↦ rw later (
      UpTo-insert_by r.priority x rs (ground (arith, later)) d.0,
      insert_by-IsDescending x rs d.1,
    )
  ]

  sort_by_priority-IsDescending :
      (rs : List (CompiledTierRule lib)) → IsDescending (sort_by_priority rs)
  unfolding sort_by_priority
  sort_by_priority-IsDescending [] = tt
  sort_by_priority-IsDescending (r ∷ rs) =
      insert_by-IsDescending r (sort_by_priority rs) (sort_by_priority-IsDescending rs)

  first_match-UpTo :
      (n : ℕ) (rs : List (CompiledTierRule lib)) (req : RequestParts lib) (s : CompiledTierRule lib)
      → UpTo n rs
      → first_match rs req ≡ some s
      → s.priority ≤ n
  unfolding first_match
  first_match-UpTo n [] req s u h = cc
  first_match-UpTo n (r ∷ rs) req s u h = ground (arith, first_match-UpTo n rs req s u.1, u.0)

  better-first :
      (x r : CompiledTierRule lib) (rs : List (CompiledTierRule lib)) (req : RequestParts lib)
      → IsDescending (r ∷ rs)
      → leb r.priority x.priority ≡ true
      → first_match (x ∷ r ∷ rs) req ≡ better x req (first_match (r ∷ rs) req)
  unfolding first_match
  better-first x r rs req d here = elim (Option-cases (first_match (r ∷ rs) req)) [
    | inl absent ↦ ground (arith, absent)
    | inr (s, found) ↦
        let low = first_match-UpTo r.priority (r ∷ rs) req s (omega arith, d.0) found in
        ground (arith, found, low)
  ]

  first_match-insert_by :
      (x : CompiledTierRule lib) (rs : List (CompiledTierRule lib)) (req : RequestParts lib)
      → IsDescending rs
      → first_match (insert_by x rs) req ≡ better x req (first_match rs req)
  unfolding first_match insert_by
  first_match-insert_by x [] req d = refl
  first_match-insert_by x (r ∷ rs) req d = elim (Bool-cases (leb r.priority x.priority)) [
    | inr later ↦ rw later (ground (arith, later, first_match-insert_by x rs req d.1))
    | inl here ↦ rw here (better-first x r rs req d here)
  ]

  -- The first match of the sorted rules is the best of the rules as they stand in the
  -- configuration.
  first_match-sort_by_priority :
      (rs : List (CompiledTierRule lib)) (req : RequestParts lib)
      → first_match (sort_by_priority rs) req ≡ best rs req
  unfolding sort_by_priority first_match
  first_match-sort_by_priority [] req = refl
  first_match-sort_by_priority (r ∷ rs) req =
      first_match-insert_by r (sort_by_priority rs) req (sort_by_priority-IsDescending rs)
      ∙ ap (better r req) (first_match-sort_by_priority rs req)

  -- Where the rules of a configuration compile, the classifier gives a request the tier of the
  -- matching rule of the highest priority, the first of those in the configuration, and the default
  -- tier where none matches.
  pub classify-best :
      (rules : List TierClassifierRule) (default_tier : Tier) (cs : List (CompiledTierRule lib))
      (c : TierClassifier lib) (req : RequestParts lib)
      → compile_all 0 rules ≡ ok cs
      → new rules default_tier ≡ ok c
      → classify c req ≡ tier_or default_tier (best cs req)
  unfolding new compile_rules classify and_then value
  classify-best rules default_tier cs c req compiled built =
      let sorted : TierClassifier lib = record {
        rules = sort_by_priority cs;
        default_tier = default_tier;
      } in
      let made : new rules default_tier ≡ ok sorted = rw compiled refl in
      let same : sorted ≡ c = ap (value c) (sym made ∙ built) in
      ap (λ (k : TierClassifier lib). classify k req) (sym same)
      ∙ ap (tier_or default_tier) (first_match-sort_by_priority cs req)
