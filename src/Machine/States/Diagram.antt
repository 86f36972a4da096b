-- ===== src/Machine/States/Diagram.antt =====
-- The transition diagram of the states, and the proof that the handlers follow it.
use virtual_private_network.Prelude.{
  ℕ, ◌+◌, ◌≡◌, refl, leb, some, if◌then◌else◌, List, String, inl, inr, Bool-cases,
}
use virtual_private_network.Ports.Effect.{Outcome, ok, raised, system_exit}
use virtual_private_network.Machine.States.{handle}
use virtual_private_network.Machine.States.Transition.{transition_to_lem}
use virtual_private_network.World.{
  Daemon, Config, State, bootstrapping, healthy, degraded, restarting, failed, stopped, EventType,
  bootstrap_done, health_ok, health_fail, tunnel_died, singbox_died, shutdown_requested,
  server_change_requested, timeout, restart_requested, VpnEvent,
}

-- Where an event leads, from the streak of failures before it.
unfoldable pub next : State → EventType → ℕ → State
next bootstrapping bootstrap_done n = healthy
next bootstrapping shutdown_requested n = failed
next bootstrapping singbox_died n = restarting
next bootstrapping timeout n = failed
next bootstrapping _ n = bootstrapping
next healthy health_fail n = degraded
next healthy shutdown_requested n = failed
next healthy server_change_requested n = bootstrapping
next healthy restart_requested n = restarting
next healthy tunnel_died n = restarting
next healthy _ n = healthy
next degraded health_ok n = healthy
next degraded health_fail n = if leb 3 (n + 1) then restarting else degraded
next degraded shutdown_requested n = failed
next degraded tunnel_died n = restarting
next degraded _ n = degraded
next restarting bootstrap_done n = healthy
next restarting timeout n = failed
next restarting shutdown_requested n = failed
next restarting tunnel_died n = failed
next restarting _ n = restarting
next failed _ n = failed
next stopped restart_requested n = bootstrapping
next stopped _ n = stopped

-- Only a way into FAILED ends the process.
abbrev pub ends : State → State → Outcome (Unit {0})
ends failed _ = ok tt
ends _ failed = raised (system_exit 1)
ends _ _ = ok tt

abbrev pub FollowsDiagram : Config → State → VpnEvent → Daemon → Type 0
FollowsDiagram cfg s e d =
    let target = next s e.type d.context.fail_streak in
    ((handle cfg s e d).1.state ≡ some target) × ((handle cfg s e d).0 ≡ ends s target)

module _ (cfg : Config) (d : Daemon) (p : List (String × String)) where
  abbrev of_type : EventType → VpnEvent
  of_type t = record { type = t; payload = p }

  from_bootstrapping :
      (t : EventType)
      → d.state ≡ some bootstrapping
      → FollowsDiagram cfg bootstrapping (of_type t) d
  unfolding handle next
  from_bootstrapping bootstrap_done h = simp transition_to_lem (refl, refl)
  from_bootstrapping shutdown_requested h = simp transition_to_lem (refl, refl)
  from_bootstrapping singbox_died h = simp transition_to_lem (refl, refl)
  from_bootstrapping timeout h = simp transition_to_lem (refl, refl)
  from_bootstrapping _ h = (h, refl)

  from_healthy : (t : EventType) → d.state ≡ some healthy → FollowsDiagram cfg healthy (of_type t) d
  unfolding handle next
  from_healthy health_fail h = simp transition_to_lem (refl, refl)
  from_healthy shutdown_requested h = simp transition_to_lem (refl, refl)
  from_healthy server_change_requested h = simp transition_to_lem (refl, refl)
  from_healthy restart_requested h = simp transition_to_lem (refl, refl)
  from_healthy tunnel_died h = simp transition_to_lem (refl, refl)
  from_healthy _ h = (h, refl)

  from_degraded :
      (t : EventType) → d.state ≡ some degraded → FollowsDiagram cfg degraded (of_type t) d
  unfolding handle next
  from_degraded health_ok h = simp transition_to_lem (refl, refl)
  from_degraded shutdown_requested h = simp transition_to_lem (refl, refl)
  from_degraded tunnel_died h = simp transition_to_lem (refl, refl)
  from_degraded health_fail h = elim (Bool-cases (leb 3 (d.context.fail_streak + 1))) [
    | inl c ↦ rw c (simp transition_to_lem (refl, refl))
    | inr c ↦ rw c (h, refl)
  ]
  from_degraded _ h = (h, refl)

  from_restarting :
      (t : EventType) → d.state ≡ some restarting → FollowsDiagram cfg restarting (of_type t) d
  unfolding handle next
  from_restarting bootstrap_done h = simp transition_to_lem (refl, refl)
  from_restarting timeout h = simp transition_to_lem (refl, refl)
  from_restarting shutdown_requested h = simp transition_to_lem (refl, refl)
  from_restarting tunnel_died h = simp transition_to_lem (refl, refl)
  from_restarting _ h = (h, refl)

  from_failed : (t : EventType) → d.state ≡ some failed → FollowsDiagram cfg failed (of_type t) d
  unfolding handle next
  from_failed timeout h = (h, refl)
  from_failed _ h = (h, refl)

  from_stopped : (t : EventType) → d.state ≡ some stopped → FollowsDiagram cfg stopped (of_type t) d
  unfolding handle next
  from_stopped restart_requested h = simp transition_to_lem (refl, refl)
  from_stopped _ h = (h, refl)

-- Whatever the event and the daemon, the handler of the current state moves to the state that the
-- diagram `next` gives, and raises `SystemExit(1)` exactly on a way into FAILED from another state.
pub handle-next :
    (cfg : Config) (s : State) (e : VpnEvent) (d : Daemon)
    → d.state ≡ some s
    → FollowsDiagram cfg s e d
handle-next cfg bootstrapping e d h = from_bootstrapping cfg d e.payload e.type h
handle-next cfg healthy e d h = from_healthy cfg d e.payload e.type h
handle-next cfg degraded e d h = from_degraded cfg d e.payload e.type h
handle-next cfg restarting e d h = from_restarting cfg d e.payload e.type h
handle-next cfg failed e d h = from_failed cfg d e.payload e.type h
handle-next cfg stopped e d h = from_stopped cfg d e.payload e.type h
