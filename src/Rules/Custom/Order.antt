-- ===== src/Rules/Custom/Order.antt =====
-- The answer of the custom rules against the priorities of the rules that are held.
use waf.Base.{
  ◌≡◌, refl, ap, ◌∙◌, Bool, ◌&&◌, Option, none, some, List, [], ◌∷◌, select, inl, inr, arith,
  if◌then◌else◌, Bool-cases, Option-cases,
}
use waf.Base.Int.{ℤ, ◌≤ℤ◌, leb_ℤ}
use waf.Base.Keys.{string_eq}
use waf.Rules.Custom.{RequestCtx, Libraries}
use waf.Rules.Custom.Engine.{
  DetectionResult, RuleEntry, insert_by, sort_by_priority, matched, detection, eval_list,
}

module _ (lib : Libraries) where
  abbrev pub applies : RequestCtx → RuleEntry lib → Bool
  applies ctx e = e.raw.enabled && matched lib ctx e

  -- The better of a rule and the best of those after it: one that applies, of the lower priority,
  -- and of two of one priority the one that stands first.
  abbrev pub better : RequestCtx → RuleEntry lib → Option (RuleEntry lib) → Option (RuleEntry lib)
  better ctx e none = if applies ctx e then some e else none
  better ctx e (some b) =
      if applies ctx e && leb_ℤ e.raw.priority b.raw.priority then some e else some b

  abbrev pub best : RequestCtx → List (RuleEntry lib) → Option (RuleEntry lib)
  best ctx [] = none
  best ctx (e ∷ es) = better ctx e (best ctx es)

  abbrev pub answer : Option (RuleEntry lib) → Option DetectionResult
  answer none = none
  answer (some e) = some (detection lib e.raw)

  -- No priority below n, and an ascending list.
  abbrev AtLeast : ℤ → List (RuleEntry lib) → Type 0
  AtLeast n [] = Unit {0}
  AtLeast n (e ∷ es) = (n ≤ℤ e.raw.priority) × AtLeast n es

  abbrev pub IsAscending : List (RuleEntry lib) → Type 0
  IsAscending [] = Unit {0}
  IsAscending (e ∷ es) = AtLeast e.raw.priority es × IsAscending es

  AtLeast-le : (m n : ℤ) (es : List (RuleEntry lib)) → m ≤ℤ n → AtLeast n es → AtLeast m es
  AtLeast-le m n [] h a = tt
  AtLeast-le m n (e ∷ es) h a = (omega (arith, h, a.0), AtLeast-le m n es h a.1)

  AtLeast-insert_by :
      (n : ℤ) (x : RuleEntry lib) (es : List (RuleEntry lib))
      → n ≤ℤ x.raw.priority
      → AtLeast n es
      → AtLeast n (insert_by lib x es)
  unfolding insert_by
  AtLeast-insert_by n x [] h a = (h, tt)
  AtLeast-insert_by n x (e ∷ es) h a = elim (Bool-cases (leb_ℤ x.raw.priority e.raw.priority)) [
    | inl here ↦ rw here (h, a)
    | inr later ↦ rw later (a.0, AtLeast-insert_by n x es h a.1)
  ]

  insert_by-IsAscending :
      (x : RuleEntry lib) (es : List (RuleEntry lib))
      → IsAscending es
      → IsAscending (insert_by lib x es)
  unfolding insert_by
  insert_by-IsAscending x [] d = (tt, tt)
  insert_by-IsAscending x (e ∷ es) d = elim (Bool-cases (leb_ℤ x.raw.priority e.raw.priority)) [
    | inl here ↦
        let le : x.raw.priority ≤ℤ e.raw.priority = ground (arith, here) in
        rw here ((le, AtLeast-le x.raw.priority e.raw.priority es le d.0), d)
    | inr later ↦ rw later (
      AtLeast-insert_by e.raw.priority x es (ground (arith, later)) d.0,
      insert_by-IsAscending x es d.1,
    )
  ]

  pub sort_by_priority-IsAscending :
      (es : List (RuleEntry lib)) → IsAscending (sort_by_priority lib es)
  unfolding sort_by_priority
  sort_by_priority-IsAscending [] = tt
  sort_by_priority-IsAscending (e ∷ es) =
      insert_by-IsAscending e (sort_by_priority lib es) (sort_by_priority-IsAscending es)

  AtLeast-select :
      (p : RuleEntry lib → Bool) (n : ℤ) (es : List (RuleEntry lib))
      → AtLeast n es
      → AtLeast n (select p es)
  AtLeast-select p n [] a = tt
  AtLeast-select p n (e ∷ es) a = elim (Bool-cases (p e)) [
    | inl kept ↦ rw kept (a.0, AtLeast-select p n es a.1)
    | inr gone ↦ rw gone (AtLeast-select p n es a.1)
  ]

  pub select-IsAscending :
      (p : RuleEntry lib → Bool) (es : List (RuleEntry lib))
      → IsAscending es
      → IsAscending (select p es)
  select-IsAscending p [] d = tt
  select-IsAscending p (e ∷ es) d = elim (Bool-cases (p e)) [
    | inl kept ↦ rw kept (AtLeast-select p e.raw.priority es d.0, select-IsAscending p es d.1)
    | inr gone ↦ rw gone (select-IsAscending p es d.1)
  ]

  best-AtLeast :
      (ctx : RequestCtx) (n : ℤ) (es : List (RuleEntry lib)) (b : RuleEntry lib)
      → AtLeast n es
      → best ctx es ≡ some b
      → n ≤ℤ b.raw.priority
  best-AtLeast ctx n [] b a h = absurd (cc h)
  best-AtLeast ctx n (e ∷ es) b a h = elim (Option-cases (best ctx es)) [
    | inl absent ↦ ground (arith, absent, a.0)
    | inr (c, found) ↦ ground (arith, found, a.0, best-AtLeast ctx n es c a.1 found)
  ]

  -- Of an ascending list the first rule that applies is the best.
  pub eval_list-best :
      (ctx : RequestCtx) (es : List (RuleEntry lib))
      → IsAscending es
      → eval_list lib ctx es ≡ answer (best ctx es)
  unfolding eval_list
  eval_list-best ctx [] d = refl
  eval_list-best ctx (e ∷ es) d =
      rw (eval_list-best ctx es d.1) (elim (Option-cases (best ctx es)) [
        | inl absent ↦ rw absent (ground arith)
        | inr (b, found) ↦
            let low = best-AtLeast ctx e.raw.priority es b d.0 found in
            rw found (ground (arith, low))
      ])

  best-insert_by :
      (ctx : RequestCtx) (x : RuleEntry lib) (es : List (RuleEntry lib))
      → best ctx (insert_by lib x es) ≡ better ctx x (best ctx es)
  unfolding insert_by
  best-insert_by ctx x [] = refl
  best-insert_by ctx x (e ∷ es) = elim (Bool-cases (leb_ℤ x.raw.priority e.raw.priority)) [
    | inl here ↦ rw here
    | inr later ↦
        rw (later, best-insert_by ctx x es)
          (elim (Option-cases (best ctx es)) [
            | inl absent ↦ rw absent (ground (arith, later))
            | inr (b, found) ↦ rw found (ground (arith, later))
          ])
  ]

  pub best-sort_by_priority :
      (ctx : RequestCtx) (es : List (RuleEntry lib))
      → best ctx (sort_by_priority lib es) ≡ best ctx es
  unfolding sort_by_priority
  best-sort_by_priority ctx [] = refl
  best-sort_by_priority ctx (e ∷ es) =
      best-insert_by ctx e (sort_by_priority lib es)
      ∙ ap (better ctx e) (best-sort_by_priority ctx es)
