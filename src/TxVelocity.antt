-- ===== src/TxVelocity.antt =====
-- crates/waf-engine/src/checks/tx_velocity: the roles of endpoints (mod.rs, role_tagger.rs), the
-- ring of an actor's last events and the store of actors (recorder.rs), and the classifiers. A key
-- of the store is any type with an equality, and a call of `record` is one step.
pub mod Window
pub mod Classifiers
pub mod Recorder
use waf.Base.{
  ℕ, zero, suc, ◌+◌, ◌%◌, Bool, true, false, String, Option, none, some, List, [], ◌∷◌, get_elem?,
  set, replicate, ltb, if◌then◌else◌,
}
use waf.Base.Keys.{nat_eq, ◌==◌}

pub data EndpointRole : Type 0 where
  login otp deposit withdrawal limit_change no_role : EndpointRole

pub record Event : Type 0 where
  pub role : EndpointRole
  pub ts_ms : ℕ
  pub ok : Bool

abbrev pub window : ℕ
window = 16

pub record ActorTx : Type 0 where
  pub events : List (Option Event)
  pub head : ℕ
  pub len : ℕ
  pub updated_ms : ℕ
  pub last_signal_ms : ℕ

unfoldable pub new : ActorTx
new = record { events = replicate 16 none; head = 0; len = 0; updated_ms = 0; last_signal_ms = 0 }

-- `ActorTx::record`.
unfoldable pub record_event : Event → ActorTx → ActorTx
record_event e a = record a {
  events = set a.events a.head (some e);
  head = (a.head + 1) % window;
  len = if ltb a.len window then a.len + 1 else a.len;
  updated_ms = e.ts_ms;
}

-- An empty slot, or no slot, is passed over.
unfoldable pub push_slot : Option (Option Event) → List Event → List Event
push_slot none es = es
push_slot (some none) es = es
push_slot (some (some e)) es = e ∷ es

-- The events of n indices from i on, counted from the start.
unfoldable pub events_from : List (Option Event) → ℕ → ℕ → ℕ → List Event
unfolding push_slot
events_from slots start i zero = []
events_from slots start i (suc n) =
    push_slot (get_elem? slots ((start + i) % window)) (events_from slots start (suc i) n)

-- `ActorTx::events`, oldest first.
unfoldable pub events_of : ActorTx → List Event
unfolding events_from
events_of a = events_from a.events (if ltb a.len window then 0 else a.head) 0 a.len

-- A rule of the tagger: the role, and whether its expression matches a path.
pub record RoleRule : Type 0 where
  pub role : EndpointRole
  pub is_match : String → Bool

-- `RoleTagger::classify`: the first rule that matches.
unfoldable pub classify : List RoleRule → String → EndpointRole
classify [] path = no_role
classify (r ∷ rs) path = let rest = classify rs path in if r.is_match path then r.role else rest
