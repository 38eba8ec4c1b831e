-- ===== src/TxVelocity/Window.antt =====
-- The ring of an actor against the events that were recorded.
use mathlib.Core.List.{append-nil, append_assoc}
use waf.Base.{
  ℕ, zero, suc, ◌+◌, ◌-◌, ◌%◌, ◌≡◌, ◌≢◌, ◌≤◌, ◌<◌, refl, sym, ap, ◌∙◌, ◌⊎◌, inl, inr, Option, some,
  List, [], ◌∷◌, ◌++◌, length, get_elem?, set, drop, min, arith, length-set, length-append, ltb,
  if◌then◌else◌,
}
use waf.TxVelocity.{Event, ActorTx, new, record_event, push_slot, events_from, events_of, window}

-- The events recorded in a row.
unfoldable pub record_all : List Event → ActorTx → ActorTx
record_all [] a = a
record_all (e ∷ es) a = record_all es (record_event e a)

-- An element of a list with one more at its end.
get_elem?-append :
    (xs : List Event) (e x : Event) (j : ℕ)
    → get_elem? (xs ++ e ∷ []) j ≡ some x
    → ((j < length xs) × (get_elem? xs j ≡ some x)) ⊎ ((j ≡ length xs) × (x ≡ e))
get_elem?-append [] e x zero h = inr (refl, ground arith)
get_elem?-append [] e x (suc j) h = absurd (cc h)
get_elem?-append (y ∷ xs) e x zero h = inl (omega arith, h)
get_elem?-append (y ∷ xs) e x (suc j) h = elim (get_elem?-append xs e x j h) [
  | inl (lt, at_j) ↦ inl (omega arith, at_j)
  | inr (eq, same) ↦ inr (ap suc eq, same)
]

get_elem?-set_self :
    {A : Type 0} (xs : List A) (i : ℕ) (v : A) → i < length xs → get_elem? (set xs i v) i ≡ some v
get_elem?-set_self [] i v h = absurd (omega arith)
get_elem?-set_self (x ∷ xs) zero v h = refl
get_elem?-set_self (x ∷ xs) (suc i) v h = get_elem?-set_self xs i v (omega arith)

get_elem?-set_ne :
    {A : Type 0} (xs : List A) (i j : ℕ) (v : A) → i ≢ j → get_elem? (set xs i v) j ≡ get_elem? xs j
get_elem?-set_ne [] i j v h = refl
get_elem?-set_ne (x ∷ xs) zero zero v h = absurd (h refl)
get_elem?-set_ne (x ∷ xs) zero (suc j) v h = refl
get_elem?-set_ne (x ∷ xs) (suc i) zero v h = refl
get_elem?-set_ne (x ∷ xs) (suc i) (suc j) v h = get_elem?-set_ne xs i j v (λ e. h (ap suc e))

drop-step :
    (xs : List Event) (j : ℕ) (e : Event)
    → get_elem? xs j ≡ some e
    → drop j xs ≡ e ∷ drop (suc j) xs
drop-step [] j e h = cc
drop-step (x ∷ xs) zero e h = ground arith
drop-step (x ∷ xs) (suc j) e h = drop-step xs j e h

drop_all : (xs : List Event) → drop (length xs) xs ≡ []
drop_all [] = refl
drop_all (x ∷ xs) = drop_all xs

has_elem : (xs : List Event) (j : ℕ) → j < length xs → (e : Event) × (get_elem? xs j ≡ some e)
has_elem [] j h = absurd (omega arith)
has_elem (x ∷ xs) zero h = (x, refl)
has_elem (x ∷ xs) (suc j) h = has_elem xs j (omega arith)

-- The ring holds the last events at their places.
record IsRing (past : List Event) (a : ActorTx) : Type 0 where
  size : length a.events ≡ 16
  head : a.head ≡ length past % 16
  len : a.len ≡ min (length past) 16
  held :
      (j : ℕ) (e : Event)
      → length past ≤ j + 16
      → get_elem? past j ≡ some e
      → get_elem? a.events (j % 16) ≡ some (some e)

record_event-IsRing :
    (past : List Event) (e : Event) (a : ActorTx)
    → IsRing past a
    → IsRing (past ++ e ∷ []) (record_event e a)
unfolding record_event
record_event-IsRing past e a r = record {
  size = length-set a.events a.head (some e) ∙ r.size;
  head = omega (arith, length-append past (e ∷ []), r.head);
  len = ground (arith, length-append past (e ∷ []), r.len);
  held = held_after;
}
  where
    held_after :
        (j : ℕ) (x : Event)
        → length (past ++ e ∷ []) ≤ j + 16
        → get_elem? (past ++ e ∷ []) j ≡ some x
        → get_elem? (set a.events a.head (some e)) (j % 16) ≡ some (some x)
    held_after j x near found = elim (get_elem?-append past e x j found) [
      | inl (lt, at_j) ↦
          let other : a.head ≢ j % 16 =
            λ eq. omega (arith, r.head, length-append past (e ∷ []), eq) in
          get_elem?-set_ne a.events a.head (j % 16) (some e) other
          ∙ r.held j x (omega (arith, length-append past (e ∷ []))) at_j
      | inr (eq, same) ↦
          let place : j % 16 ≡ a.head = ap (λ n. n % 16) eq ∙ sym r.head in
          let inside : a.head < length a.events = omega (arith, r.head, r.size) in
          rw (place, same) (get_elem?-set_self a.events a.head (some e) inside)
    ]

record_all-IsRing :
    (es past : List Event) (a : ActorTx) → IsRing past a → IsRing (past ++ es) (record_all es a)
unfolding record_all
record_all-IsRing [] past a r = rw (append-nil past) r
record_all-IsRing (e ∷ es) past a r =
    rw (← append_assoc past (e ∷ []) es)
      (record_all-IsRing es (past ++ e ∷ []) (record_event e a) (record_event-IsRing past e a r))

new-IsRing : IsRing [] new
unfolding new
new-IsRing = record {
  size = refl;
  head = refl;
  len = refl;
  held = λ j e near found. absurd (cc found);
}

-- The n events from place j on, which are the last ones.
events_from_lem :
    (past : List Event) (slots : List (Option Event)) (start i n j : ℕ)
    → ((k : ℕ) (e : Event)
        → length past ≤ k + 16
        → get_elem? past k ≡ some e
        → get_elem? slots (k % 16) ≡ some (some e))
    → j + n ≡ length past
    → length past ≤ j + 16
    → (start + i) % 16 ≡ j % 16
    → events_from slots start i n ≡ drop j past
unfolding events_from push_slot
events_from_lem past slots start i zero j held sum near place =
    let e : j ≡ length past = omega (arith, sum) in rw (e, drop_all past)
events_from_lem past slots start i (suc n) j held sum near place =
    let (e, at_j) = has_elem past j (omega (arith, sum)) in
    rw (
      place,
      held j e near at_j,
      drop-step past j e at_j,
      events_from_lem past slots start (suc i) n (suc j) held (omega (arith, sum))
          (omega (arith, near)) (omega (arith, place)),
    )

-- After any events recorded by a new actor, `events` gives the last 16 of them, oldest first.
pub events_of-record_all :
    (es : List Event) → events_of (record_all es new) ≡ drop (length es - 16) es
unfolding events_of
events_of-record_all es =
    let a = record_all es new in
    let r = record_all-IsRing es [] new new-IsRing in
    let start : ℕ = if ltb a.len window then 0 else a.head in
    let place : (start + 0) % 16 ≡ (length es - 16) % 16 = ground (arith, r.head, r.len) in
    events_from_lem es a.events start 0 a.len (length es - 16) r.held (omega (arith, r.len))
      (omega arith) place
