-- ===== src/TxVelocity/Classifiers.antt =====
-- crates/waf-engine/src/checks/tx_velocity/classifiers: signals from the events of an actor.
pub mod Velocity
use mathlib.Core.List.{reverse}
use waf.Base.{
  ℕ, ◌+◌, ◌-◌, ◌*◌, ◌/◌, ◌^◌, Bool, true, false, ◌&&◌, Option, none, some, List, [], ◌∷◌, length,
  select, min, ltb, leb, if◌then◌else◌,
}
use waf.Base.Keys.{nat_eq, ◌==◌}
use waf.TxVelocity.{
  EndpointRole, login, otp, deposit, withdrawal, limit_change, no_role, Event, ActorTx, events_of,
}

pub data Signal : Type 0 where
  tx_sequence_too_fast : EndpointRole → EndpointRole → ℕ → Signal
  withdrawal_velocity limit_change_burst : ℕ → ℕ → Signal

pub record VelocityCfg : Type 0 where
  pub max_count : ℕ
  pub window_ms : ℕ

-- `SequenceCfg` is its one number, `min_human_ms`.
pub record ClassifierConfigs : Type 0 where
  pub sequence : Option ℕ
  pub withdrawal_velocity : Option VelocityCfg
  pub limit_change_velocity : Option VelocityCfg

pub record ActorTxSnapshot : Type 0 where
  pub events : List Event
  pub updated_ms : ℕ
  pub last_signal_ms : ℕ

unfoldable pub snapshot_of : ActorTx → ActorTxSnapshot
snapshot_of a = record {
  events = events_of a;
  updated_ms = a.updated_ms;
  last_signal_ms = a.last_signal_ms;
}

abbrev pub same_role : EndpointRole → EndpointRole → Bool
same_role login login = true
same_role otp otp = true
same_role deposit deposit = true
same_role withdrawal withdrawal = true
same_role limit_change limit_change = true
same_role no_role no_role = true
same_role _ _ = false

-- An event of the role at the cutoff or after it.
abbrev pub in_window : EndpointRole → ℕ → Event → Bool
in_window role cutoff e = same_role e.role role && leb cutoff e.ts_ms

-- The count, and the window in seconds, where there are more events than `max_count`. Both are held
-- by a `u32`.
unfoldable pub evaluate_velocity : ActorTxSnapshot → ℕ → VelocityCfg → EndpointRole → Option (ℕ × ℕ)
evaluate_velocity snap now_ms cfg role =
    let cutoff = now_ms - cfg.window_ms in
    let count = min (length (select (in_window role cutoff) snap.events)) (2 ^ 32 - 1) in
    if cfg.window_ms == 0
    then none
    else if ltb cfg.max_count count
    then some (count, min ((cfg.window_ms + 999) / 1000) (2 ^ 32 - 1))
    else none

-- `?` of the configuration, and the signal of what is counted.
unfoldable pub signal_of :
    (ℕ → ℕ → Signal) → (VelocityCfg → Option (ℕ × ℕ)) → Option VelocityCfg → Option Signal
signal_of signal evaluate none = none
signal_of signal evaluate (some cfg) = elim (evaluate cfg) [
  | none ↦ none
  | some (count, sec) ↦ some (signal count sec)
]

unfoldable pub withdrawal_velocity_classifier :
    ActorTxSnapshot → ℕ → ClassifierConfigs → Option Signal
unfolding signal_of evaluate_velocity
withdrawal_velocity_classifier snap now_ms cfg =
    signal_of Signal.withdrawal_velocity (λ v. evaluate_velocity snap now_ms v withdrawal)
      cfg.withdrawal_velocity

unfoldable pub limit_change_burst_classifier :
    ActorTxSnapshot → ℕ → ClassifierConfigs → Option Signal
unfolding signal_of evaluate_velocity
limit_change_burst_classifier snap now_ms cfg =
    signal_of limit_change_burst (λ v. evaluate_velocity snap now_ms v limit_change)
      cfg.limit_change_velocity

-- The role before the last one, of the tracked transitions.
unfoldable pub from_role : EndpointRole → Option EndpointRole
from_role otp = some login
from_role deposit = some otp
from_role login = none
from_role withdrawal = none
from_role limit_change = none
from_role no_role = none

unfoldable pub find_role : EndpointRole → List Event → Option Event
find_role role [] = none
find_role role (e ∷ es) =
    let rest = find_role role es in if same_role e.role role then some e else rest

unfoldable pub too_fast : ℕ → Event → EndpointRole → Option Event → Option Signal
too_fast min_human_ms last from none = none
too_fast min_human_ms last from (some prior) =
    let interval_ms = last.ts_ms - prior.ts_ms in
    if ltb interval_ms min_human_ms
    then some (tx_sequence_too_fast from last.role interval_ms)
    else none

unfoldable pub transition : ℕ → Event → List Event → Option EndpointRole → Option Signal
unfolding too_fast find_role
transition min_human_ms last before none = none
transition min_human_ms last before (some from) =
    too_fast min_human_ms last from (find_role from before)

-- From the newest event back.
unfoldable pub newest_first : ℕ → List Event → Option Signal
unfolding transition from_role
newest_first min_human_ms [] = none
newest_first min_human_ms (last ∷ before) =
    transition min_human_ms last before (from_role last.role)

unfoldable pub sequence_timing_classifier : ActorTxSnapshot → ℕ → ClassifierConfigs → Option Signal
unfolding newest_first
sequence_timing_classifier snap now_ms cfg = elim cfg.sequence [
  | none ↦ none
  | some min_human_ms ↦ newest_first min_human_ms (reverse snap.events)
]

-- `default_classifiers`.
unfoldable pub default_classifiers : List (ActorTxSnapshot → ℕ → ClassifierConfigs → Option Signal)
unfolding sequence_timing_classifier withdrawal_velocity_classifier limit_change_burst_classifier
default_classifiers =
    sequence_timing_classifier ∷ withdrawal_velocity_classifier ∷ limit_change_burst_classifier ∷ []
