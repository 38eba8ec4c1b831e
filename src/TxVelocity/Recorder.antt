-- ===== src/TxVelocity/Recorder.antt =====
-- crates/waf-engine/src/checks/tx_velocity/recorder.rs: `TxStore`. What a call submits to the
-- aggregator, which is a task of its own, is the call's answer.
pub mod Cooldown
use waf.Base.{
  ℕ, ◌+◌, ◌-◌, ◌*◌, Bool, true, false, ◌&&◌, not, Option, none, some, List, [], ◌∷◌, max, ltb,
  if◌then◌else◌,
}
use waf.Base.Keys.{Eq, nat_eq, ◌==◌}
use waf.Base.Map
use waf.Base.Map.{Map}
use waf.Base.Words.{saturating_mul_u64}
use waf.TxVelocity.{
  EndpointRole, no_role, login, otp, deposit, withdrawal, limit_change, Event, ActorTx, new,
  record_event,
}
use waf.TxVelocity.Classifiers.{Signal, ClassifierConfigs, ActorTxSnapshot, snapshot_of}

-- What the recorder reads of `TxVelocityConfig`.
pub record TxVelocityConfig : Type 0 where
  pub enabled : Bool
  pub signal_cooldown_ms : ℕ
  pub session_ttl_secs : ℕ
  pub classifiers : ClassifierConfigs

abbrev pub Classifier : Type 0
Classifier = ActorTxSnapshot → ℕ → ClassifierConfigs → Option Signal

unfoldable pub is_no_role : EndpointRole → Bool
is_no_role no_role = true
is_no_role login = false
is_no_role otp = false
is_no_role deposit = false
is_no_role withdrawal = false
is_no_role limit_change = false

abbrev add_signal : Option Signal → List Signal → List Signal
add_signal none ss = ss
add_signal (some s) ss = s ∷ ss

unfoldable pub signals_of : List Classifier → ActorTxSnapshot → ℕ → ClassifierConfigs → List Signal
signals_of [] snap now_ms cfg = []
signals_of (c ∷ cs) snap now_ms cfg = add_signal (c snap now_ms cfg) (signals_of cs snap now_ms cfg)

abbrev pub or_new : Option ActorTx → ActorTx
or_new none = new
or_new (some a) = a

abbrev pub in_cooldown : TxVelocityConfig → ℕ → ℕ → Bool
in_cooldown cfg now_ms last_signal_ms =
    ltb (now_ms - last_signal_ms) cfg.signal_cooldown_ms && not (last_signal_ms == 0)

abbrev pub no_classifiers : List Classifier → Bool
no_classifiers [] = true
no_classifiers (_ ∷ _) = false

module _ {K : Type 0} ⦃keys : Eq K⦄ where
  unfoldable pub mark_found : K → ℕ → Option ActorTx → Map K ActorTx → Map K ActorTx
  mark_found key now_ms none actors = actors
  mark_found key now_ms (some a) actors =
      Map.insert key (record a { last_signal_ms = now_ms }) actors

  unfoldable pub mark_signal : K → ℕ → Map K ActorTx → Map K ActorTx
  mark_signal key now_ms actors = mark_found key now_ms (Map.get key actors) actors

  -- The signals of an actor, marked where there are any.
  unfoldable pub submit : K → ℕ → List Signal → Map K ActorTx → Map K ActorTx × List Signal
  submit key now_ms [] actors = (actors, [])
  submit key now_ms (s ∷ ss) actors = (mark_signal key (max now_ms 1) actors, s ∷ ss)

  -- The classifiers over what the store has of an actor.
  unfoldable pub evaluate :
      List Classifier
      → TxVelocityConfig
      → K
      → ℕ
      → Option ActorTx
      → Map K ActorTx
      → Map K ActorTx × List Signal
  evaluate classifiers cfg key now_ms none actors = (actors, [])
  evaluate classifiers cfg key now_ms (some a) actors =
      submit key now_ms (signals_of classifiers (snapshot_of a) now_ms cfg.classifiers) actors

  -- `TxStore::record`: the actors after the call, and what is submitted.
  unfoldable pub record_call :
      List Classifier
      → TxVelocityConfig
      → K
      → EndpointRole
      → Bool
      → ℕ
      → Map K ActorTx
      → Map K ActorTx × List Signal
  unfolding is_no_role
  record_call classifiers cfg key role ok now_ms actors =
      let event : Event = record { role = role; ts_ms = now_ms; ok = ok } in
      let actor = record_event event (or_new (Map.get key actors)) in
      let recorded = Map.insert key actor actors in
      if is_no_role role
      then (actors, [])
      else if no_classifiers classifiers
      then (recorded, [])
      else if not cfg.enabled
      then (recorded, [])
      else if in_cooldown cfg now_ms actor.last_signal_ms
      then (recorded, [])
      else evaluate classifiers cfg key now_ms (Map.get key recorded) recorded

  -- `purge_expired`: the actors that are not idle for longer than the time to live.
  unfoldable pub purge_expired : TxVelocityConfig → ℕ → Map K ActorTx → Map K ActorTx
  purge_expired cfg now_ms actors =
      let cutoff = now_ms - saturating_mul_u64 cfg.session_ttl_secs 1000 in
      Map.retain (λ k a. not (ltb a.updated_ms cutoff)) actors
