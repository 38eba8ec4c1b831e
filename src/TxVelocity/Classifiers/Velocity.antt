-- ===== src/TxVelocity/Classifiers/Velocity.antt =====
-- The counting classifiers over the ring of an actor.
use waf.Base.{
  ℕ, ◌-◌, ◌≡◌, ◌≤◌, ◌<◌, none, some, List, [], ◌∷◌, length, select, drop, arith, zero, suc,
  length-drop, length-select-le, Bool, Option-cases, inl, inr,
}
use waf.TxVelocity.{Event, EndpointRole, new}
use waf.TxVelocity.Window.{record_all, events_of-record_all}
use waf.TxVelocity.Classifiers.{VelocityCfg, evaluate_velocity, snapshot_of, in_window}

select-drop-le :
    (p : Event → Bool) (n : ℕ) (es : List Event)
    → length (select p (drop n es)) ≤ length (select p es)
select-drop-le p zero es = omega arith
select-drop-le p (suc n) [] = omega arith
select-drop-le p (suc n) (e ∷ es) = ground (arith, select-drop-le p n es)

-- A signal that is given on the events of an actor's life counts more than `max_count` events, at
-- most the 16 that the ring holds and at most those of the role in the whole life that are not
-- before the window.
pub evaluate_velocity_sound :
    (es : List Event) (now_ms : ℕ) (cfg : VelocityCfg) (role : EndpointRole) {count sec : ℕ}
    → evaluate_velocity (snapshot_of (record_all es new)) now_ms cfg role ≡ some (count, sec)
    → (cfg.max_count < count)
      × (count ≤ 16)
      × (count ≤ length (select (in_window role (now_ms - cfg.window_ms)) es))
unfolding evaluate_velocity snapshot_of
evaluate_velocity_sound es now_ms cfg role h =
    let kept = drop (length es - 16) es in
    let test = in_window role (now_ms - cfg.window_ms) in
    ground (
      arith,
      rw (events_of-record_all es) at h,
      length-select-le test kept,
      length-drop (length es - 16) es,
      select-drop-le test (length es - 16) es,
    )

-- A `max_count` of 16 or more gives no signal on any events.
pub evaluate_velocity-none :
    (es : List Event) (now_ms : ℕ) (cfg : VelocityCfg) (role : EndpointRole)
    → 16 ≤ cfg.max_count
    → evaluate_velocity (snapshot_of (record_all es new)) now_ms cfg role ≡ none
evaluate_velocity-none es now_ms cfg role h =
    elim (Option-cases (evaluate_velocity (snapshot_of (record_all es new)) now_ms cfg role)) [
      | inl e ↦ e
      | inr ((count, sec), e) ↦ absurd (omega (arith, evaluate_velocity_sound es now_ms cfg role e))
    ]
