-- ===== src/Cluster/Sync/History.antt =====
-- The changelog as a window on the history of changes.
use mathlib.Core.Path.{subst}
use mathlib.Core.List.{append_assoc, append-nil}
use waf.Base.{
  ℕ, suc, ◌+◌, ◌^◌, ◌≤◌, ◌<◌, ◌≡◌, refl, sym, ap, ◌∙◌, inl, inr, true, false, List, [], ◌∷◌, ◌++◌,
  arith, leb, length, length-append, Bool-cases,
}
use waf.Base.Words.{wrap_u64}
use waf.Cluster.Protocol.{RuleChange}
use waf.Cluster.Sync.{RuleChangelog, new, append}

module _ {Json : Type 0} where
  -- The changes with their versions, the first of which is `v + 1`.
  unfoldable pub number : ℕ → List (RuleChange Json) → List (ℕ × RuleChange Json)
  number v [] = []
  number v (c ∷ cs) = (v + 1, c) ∷ number (v + 1) cs

  unfoldable pub append_all : List (RuleChange Json) → RuleChangelog Json → RuleChangelog Json
  append_all [] l = l
  append_all (c ∷ cs) l = append_all cs (append c l)

  pub number-append :
      (v : ℕ) (cs : List (RuleChange Json)) (c : RuleChange Json)
      → number v (cs ++ c ∷ []) ≡ number v cs ++ (v + length cs + 1, c) ∷ []
  unfolding number
  number-append v [] c = ground arith
  number-append v (x ∷ cs) c = ground (arith, number-append (v + 1) cs c)

  pub length-number : (v : ℕ) (cs : List (RuleChange Json)) → length (number v cs) ≡ length cs
  unfolding number
  length-number v [] = refl
  length-number v (c ∷ cs) = ap suc (length-number (v + 1) cs)

  -- The buffer is the numbered end of the history; it is empty only before the first change, and
  -- full when something has been dropped.
  pub record Holds (history : List (RuleChange Json)) (l : RuleChangelog Json) : Type 0 where
    pub dropped : List (RuleChange Json)
    pub retained : List (RuleChange Json)
    pub split : history ≡ dropped ++ retained
    pub version : l.current_version ≡ length history
    pub buffer : l.changes ≡ number (length dropped) retained
    pub nonempty : length retained ≡ 0 → length dropped ≡ 0
    pub full : 0 < length dropped → l.max_retained ≤ length retained

  pub new-Holds : (max : ℕ) → Holds [] (new max)
  unfolding new number
  new-Holds max = record {
    dropped = [];
    retained = [];
    split = refl;
    version = refl;
    buffer = refl;
    nonempty = λ e. refl;
    full = λ h. absurd (omega arith);
  }

  -- The entry that is pushed follows the numbered buffer.
  number-push :
      (c : RuleChange Json) (dropped retained : List (RuleChange Json)) (v : ℕ)
      → v ≡ length dropped + length retained
      → v + 1 < 2 ^ 64
      → number (length dropped) retained ++ (wrap_u64 (v + 1), c) ∷ []
        ≡ number (length dropped) (retained ++ c ∷ [])
  number-push c dropped retained v e small =
      let w : wrap_u64 (v + 1) ≡ length dropped + length retained + 1 = omega arith in
      rw (w, number-append (length dropped) retained c)

  module _ (c : RuleChange Json) (history : List (RuleChange Json)) (l : RuleChangelog Json)
      (small : length history + 1 < 2 ^ 64) (h : Holds history l) where
    version_parts : l.current_version ≡ length h.dropped + length h.retained
    version_parts = omega (arith, h.version, ap length h.split, length-append h.dropped h.retained)

    version_small : l.current_version + 1 < 2 ^ 64
    version_small = omega (arith, h.version)

    append_room :
        leb l.max_retained (length l.changes) ≡ false → Holds (history ++ c ∷ []) (append c l)
    unfolding append
    append_room room = record {
      dropped = h.dropped;
      retained = h.retained ++ c ∷ [];
      split = rw h.split (append_assoc h.dropped h.retained (c ∷ []));
      version = omega (arith, h.version, length-append history (c ∷ []), version_small);
      buffer =
          rw (room, h.buffer)
            (number-push c h.dropped h.retained l.current_version version_parts version_small);
      nonempty = λ e. absurd (omega (arith, length-append h.retained (c ∷ [])));
      full = λ d. absurd (
          ground (
            arith,
            h.full d,
            room,
            ap length h.buffer,
            length-number (length h.dropped) h.retained,
          ));
    }

    one_more : (x : RuleChange Json) → length (h.dropped ++ x ∷ []) ≡ length h.dropped + 1
    one_more x = length-append h.dropped (x ∷ [])

    append_full :
        (retained : List (RuleChange Json))
        → retained ≡ h.retained
        → leb l.max_retained (length l.changes) ≡ true
        → Holds (history ++ c ∷ []) (append c l)
    unfolding append number
    append_full [] e full = record {
      dropped = h.dropped;
      retained = c ∷ [];
      split = rw (h.split, ← e) (rw (append-nil h.dropped));
      version = omega (arith, h.version, length-append history (c ∷ []), version_small);
      buffer =
          rw (full, h.buffer, ← e)
            (number-push c h.dropped [] l.current_version
              (omega (arith, version_parts, ap length e)) version_small);
      nonempty = λ z. absurd (omega arith);
      full = λ d. absurd (omega (arith, h.nonempty (sym (ap length e))));
    }
    append_full (x ∷ xs) e full = record {
      dropped = h.dropped ++ x ∷ [];
      retained = xs ++ c ∷ [];
      split =
          rw (h.split, ← e)
            (append_assoc h.dropped (x ∷ xs) (c ∷ [])
              ∙ sym (append_assoc h.dropped (x ∷ []) (xs ++ c ∷ [])));
      version = omega (arith, h.version, length-append history (c ∷ []), version_small);
      buffer =
          rw (full, h.buffer, ← e)
            (ap (λ k. number k xs ++ (wrap_u64 (l.current_version + 1), c) ∷ []) (sym (one_more x))
              ∙ number-push c (h.dropped ++ x ∷ []) xs l.current_version
                  (omega (arith, version_parts, ap length e, one_more x)) version_small);
      nonempty = λ z. absurd (omega (arith, length-append xs (c ∷ [])));
      full = λ d. ground (
        arith,
        full,
        ap length h.buffer,
        length-number (length h.dropped) h.retained,
        ap length e,
        length-append xs (c ∷ []),
      );
    }

  append-Holds :
      (c : RuleChange Json) (history : List (RuleChange Json)) (l : RuleChangelog Json)
      → length history + 1 < 2 ^ 64
      → Holds history l
      → Holds (history ++ c ∷ []) (append c l)
  append-Holds c history l small h = elim (Bool-cases (leb l.max_retained (length l.changes))) [
    | inl full ↦ append_full c history l small h h.retained refl full
    | inr room ↦ append_room c history l small h room
  ]

  pub append_all-Holds :
      (cs history : List (RuleChange Json)) (l : RuleChangelog Json)
      → length history + length cs < 2 ^ 64
      → Holds history l
      → Holds (history ++ cs) (append_all cs l)
  unfolding append_all
  append_all-Holds [] history l small h = rw (append-nil history) h
  append_all-Holds (c ∷ cs) history l small h =
      subst (λ xs. Holds xs (append_all cs (append c l))) (append_assoc history (c ∷ []) cs)
        (append_all-Holds cs (history ++ c ∷ []) (append c l)
          (omega (arith, length-append history (c ∷ [])))
          (append-Holds c history l (omega arith) h))

  pub max_retained-append_all :
      (cs : List (RuleChange Json)) (l : RuleChangelog Json)
      → (append_all cs l).max_retained ≡ l.max_retained
  unfolding append_all append
  max_retained-append_all [] l = refl
  max_retained-append_all (c ∷ cs) l = max_retained-append_all cs (append c l)

  pub current_version-append_all :
      (cs : List (RuleChange Json)) (l : RuleChangelog Json)
      → l.current_version + length cs < 2 ^ 64
      → (append_all cs l).current_version ≡ l.current_version + length cs
  unfolding append_all append
  current_version-append_all [] l h = omega arith
  current_version-append_all (c ∷ cs) l h =
      omega (arith, current_version-append_all cs (append c l) (omega arith))
