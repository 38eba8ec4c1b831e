-- ===== src/Cluster/Sync/Delta.antt =====
-- The deltas of a changelog against the history of changes.
use waf.Base.{
  ℕ, zero, suc, ◌+◌, ◌-◌, ◌^◌, ◌≤◌, ◌<◌, ◌≡◌, refl, sym, ap, ◌∙◌, inl, inr, true, false, none, some,
  List, [], ◌∷◌, ◌++◌, map, arith, ltb, leb, length, select, drop, length-append, if◌then◌else◌,
  Bool-cases,
}
use waf.Cluster.Protocol.{RuleChange}
use waf.Cluster.Sync.{RuleChangelog, new, delta_since}
use waf.Cluster.Sync.History.{
  number, append_all, Holds, new-Holds, append_all-Holds, max_retained-append_all,
}

module _ {Json : Type 0} where
  -- The entries after a version, taken from the numbered buffer.
  select-number_all :
      (v k : ℕ) (cs : List (RuleChange Json))
      → v ≤ k
      → map (λ e. e.1) (select (λ e. ltb v e.0) (number k cs)) ≡ cs
  unfolding number
  select-number_all v k [] h = refl
  select-number_all v k (c ∷ cs) h =
      let t : ltb v (k + 1) ≡ true = ground arith in
      rw t (ap (◌∷◌ c) (select-number_all v (k + 1) cs (omega arith)))

  select-number :
      (v n k : ℕ) (cs : List (RuleChange Json))
      → k + n ≡ v
      → map (λ e. e.1) (select (λ e. ltb v e.0) (number k cs)) ≡ drop n cs
  unfolding number
  select-number v zero k cs h = select-number_all v k cs (omega arith)
  select-number v (suc n) k [] h = refl
  select-number v (suc n) k (c ∷ cs) h =
      let t : ltb v (k + 1) ≡ false = ground arith in
      rw t (select-number v n (k + 1) cs (omega arith))

  drop-append_past :
      (n : ℕ) (xs ys : List (RuleChange Json)) → drop (length xs + n) (xs ++ ys) ≡ drop n ys
  drop-append_past n [] ys = let e : 0 + n ≡ n = omega arith in rw e
  drop-append_past n (x ∷ xs) ys =
      let e : suc (length xs) + n ≡ suc (length xs + n) = omega arith in
      rw e (drop-append_past n xs ys)

  -- What the buffer answers: nothing if the version stands before it, and else what follows.
  delta_since-number :
      (v : ℕ) (ds rs : List (RuleChange Json)) (l : RuleChangelog Json)
      → l.changes ≡ number (length ds) rs
      → (length rs ≡ 0 → length ds ≡ 0)
      → delta_since v l ≡ (
          if leb (length rs) 0
          then some []
          else if ltb v (length ds + 1)
          then none
          else some (drop v (ds ++ rs)))
  unfolding number delta_since
  delta_since-number v ds [] l e h = rw (e, delta_since)
  delta_since-number v ds (r ∷ rs) l e h = elim (Bool-cases (ltb v (length ds + 1))) [
    | inl behind ↦ rw (e, delta_since) (ground (arith, behind))
    | inr near ↦
        let n = v - length ds in
        let k : length ds + n ≡ v = ground arith in
        let found : map (λ e. e.1) (select (λ e. ltb v e.0) (number (length ds) (r ∷ rs)))
            ≡ drop v (ds ++ r ∷ rs) =
          select-number v n (length ds) (r ∷ rs) k
          ∙ sym (drop-append_past n ds (r ∷ rs))
          ∙ ap (λ m. drop m (ds ++ r ∷ rs)) k in
        rw (e, delta_since) (ground (arith, near, found))
  ]

  drop_past : (n : ℕ) (xs : List (RuleChange Json)) → length xs ≤ n → drop n xs ≡ []
  drop_past zero [] h = refl
  drop_past zero (x ∷ xs) h = absurd (omega arith)
  drop_past (suc n) [] h = refl
  drop_past (suc n) (x ∷ xs) h = drop_past n xs (omega arith)

  Holds-append_all :
      (max : ℕ) (history : List (RuleChange Json))
      → length history < 2 ^ 64
      → Holds history (append_all history (new max))
  Holds-append_all max history small =
      append_all-Holds history [] (new max) (omega arith) (new-Holds max)

  -- The delta that a changelog gives out for a version is complete: it is all that was recorded
  -- after that version, in order. (Fewer than 2 ^ 64 changes were recorded.)
  pub delta_since_complete :
      (max v : ℕ) (history ds : List (RuleChange Json))
      → length history < 2 ^ 64
      → delta_since v (append_all history (new max)) ≡ some ds
      → ds ≡ drop v history
  delta_since_complete max v history ds small e =
      let h = Holds-append_all max history small in
      let d =
        delta_since-number v h.dropped h.retained (append_all history (new max)) h.buffer
          h.nonempty in
      let n = length-append h.dropped h.retained in
      elim (Bool-cases (leb (length h.retained) 0)) [
        | inl none_yet ↦
            let z : drop v history ≡ [] =
              drop_past v history (ground (arith, h.nonempty, ap length h.split)) in
            ground (arith, d, z, none_yet)
        | inr some_yet ↦ rw h.split (ground (arith, d, some_yet))
      ]

  -- A worker that is behind by less than the changelog retains, and has seen a first change, is
  -- given a delta.
  pub delta_since_near :
      (max v : ℕ) (history : List (RuleChange Json))
      → length history < 2 ^ 64
      → 0 < v
      → length history < v + max
      → delta_since v (append_all history (new max)) ≡ some (drop v history)
  unfolding new
  delta_since_near max v history small pos near =
      let h = Holds-append_all max history small in
      let d =
        delta_since-number v h.dropped h.retained (append_all history (new max)) h.buffer
          h.nonempty in
      let m = max_retained-append_all history (new max) in
      let n = length-append h.dropped h.retained in
      let far : length h.dropped < v = grind (arith, h.full, m, n, ap length h.split) in
      elim (Bool-cases (leb (length h.retained) 0)) [
        | inl none_yet ↦
            let z : drop v history ≡ [] =
              drop_past v history (ground (arith, h.nonempty, ap length h.split)) in
            ground (arith, d, z, none_yet)
        | inr some_yet ↦ rw h.split (ground (arith, d, some_yet, far))
      ]
