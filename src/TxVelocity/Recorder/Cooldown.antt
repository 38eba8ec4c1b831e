-- ===== src/TxVelocity/Recorder/Cooldown.antt =====
-- Signals of one actor within the cooldown.
use waf.Base.{
  ℕ, ◌+◌, ◌≡◌, ◌≤◌, ◌<◌, Bool, true, false, Option, none, some, List, [], ◌∷◌, ◌++◌, if◌then◌else◌,
}
use waf.Base.Keys.{Eq, ◌==◌}
use waf.Base.Map
use waf.Base.Map.{Map}
use waf.TxVelocity.{EndpointRole, ActorTx, record_event}
use waf.TxVelocity.Classifiers.{Signal}
use waf.TxVelocity.Recorder.{TxVelocityConfig, Classifier, record_call, or_new}

-- The arguments of a call of `record`, with the time that it reads.
pub record Call (K : Type 0) : Type 0 where
  pub key : K
  pub role : EndpointRole
  pub ok : Bool
  pub now_ms : ℕ

-- The time of the last signal of an actor, if the store has one.
abbrev last_of : Option ActorTx → Option ℕ
last_of none = none
last_of (some a) = some a.last_signal_ms

abbrev is_nil : List Signal → Bool
is_nil [] = true
is_nil (_ ∷ _) = false

module _ {K : Type 0} ⦃keys : Eq K⦄ where
  last : K → Map K ActorTx → Option ℕ
  last key actors = last_of (Map.get key actors)

  recorded : Call K → Map K ActorTx → ActorTx
  recorded c actors =
      record_event (record { role = c.role; ts_ms = c.now_ms; ok = c.ok })
        (or_new (Map.get c.key actors))

module _ {K : Type 0} ⦃keys : Eq K⦄ (classifiers : List Classifier) (cfg : TxVelocityConfig) where
  abbrev pub call : Call K → Map K ActorTx → Map K ActorTx × List Signal
  call c actors = record_call classifiers cfg c.key c.role c.ok c.now_ms actors

  -- What the calls of one key submit.
  unfoldable pub submitted : K → List (Call K) → Map K ActorTx → List Signal
  submitted key [] actors = []
  submitted key (c ∷ cs) actors =
      let (after, signals) = call c actors in
      let rest = submitted key cs after in if c.key == key then signals ++ rest else rest

  -- The calls of the key come within the cooldown.
  abbrev pub AllWithin : K → ℕ → List (Call K) → Type 0
  AllWithin key at [] = Unit
  AllWithin key at (c ∷ cs) =
      ((c.key == key) ≡ true → (at ≤ c.now_ms) × (c.now_ms < at + cfg.signal_cooldown_ms))
      × AllWithin key at cs
