-- ===== src/Machine/States/Exit.antt =====
-- How the process ends: only by way of FAILED, and never without the teardown.
use virtual_private_network.Prelude.{String, ◌≡◌, refl, ◌≢◌, List, arith}
use virtual_private_network.Ports.Effect.{raised, system_exit}
use virtual_private_network.Orchestrator.Teardown.Trace.{torn_down}
use virtual_private_network.Machine.States.{handle}
use virtual_private_network.Machine.States.Diagram.{next}
use virtual_private_network.Machine.States.Transition.{transition_to_lem}
use virtual_private_network.World.{
  Daemon, Config, State, bootstrapping, healthy, degraded, restarting, failed, stopped, EventType,
  health_fail, tunnel_died, shutdown_requested, timeout, VpnEvent,
}

-- The process exits with code 1, after the whole teardown on top of what was done before.
abbrev pub ExitsClean : Config → State → VpnEvent → Daemon → Type 0
ExitsClean cfg s e d =
    ((handle cfg s e d).0 ≡ raised (system_exit 1))
    × ((handle cfg s e d).1.history ≡ torn_down cfg d.history)

module _ (cfg : Config) (d : Daemon) (p : List (String × String)) where
  abbrev of_type : EventType → VpnEvent
  of_type t = record { type = t; payload = p }

  abbrev Fails : State → EventType → Type 0
  Fails s t = next s t d.context.fail_streak ≡ failed

  of_bootstrapping :
      (t : EventType) → Fails bootstrapping t → ExitsClean cfg bootstrapping (of_type t) d
  unfolding handle next
  of_bootstrapping shutdown_requested h = simp transition_to_lem (refl, refl)
  of_bootstrapping timeout h = simp transition_to_lem (refl, refl)
  of_bootstrapping _ h = cc

  of_healthy : (t : EventType) → Fails healthy t → ExitsClean cfg healthy (of_type t) d
  unfolding handle next
  of_healthy shutdown_requested h = simp transition_to_lem (refl, refl)
  of_healthy _ h = cc

  of_degraded : (t : EventType) → Fails degraded t → ExitsClean cfg degraded (of_type t) d
  unfolding handle next
  of_degraded shutdown_requested h = simp transition_to_lem (refl, refl)
  of_degraded health_fail h = absurd (ground arith)
  of_degraded _ h = cc

  of_restarting : (t : EventType) → Fails restarting t → ExitsClean cfg restarting (of_type t) d
  unfolding handle next
  of_restarting shutdown_requested h = simp transition_to_lem (refl, refl)
  of_restarting timeout h = simp transition_to_lem (refl, refl)
  of_restarting tunnel_died h = simp transition_to_lem (refl, refl)
  of_restarting _ h = cc

  of_stopped : (t : EventType) → Fails stopped t → ExitsClean cfg stopped (of_type t) d
  unfolding next
  of_stopped timeout h = cc
  of_stopped _ h = cc

-- An event that leads into FAILED from another state runs the whole teardown of the network, on top
-- of all that was done before, and then ends the process with exit code 1. Between the two nothing
-- else is done; no message is sent.
pub handle_exit :
    (cfg : Config) (s : State) (e : VpnEvent) (d : Daemon)
    → s ≢ failed
    → next s e.type d.context.fail_streak ≡ failed
    → ExitsClean cfg s e d
handle_exit cfg bootstrapping e d h k = of_bootstrapping cfg d e.payload e.type k
handle_exit cfg healthy e d h k = of_healthy cfg d e.payload e.type k
handle_exit cfg degraded e d h k = of_degraded cfg d e.payload e.type k
handle_exit cfg restarting e d h k = of_restarting cfg d e.payload e.type k
handle_exit cfg failed e d h k = absurd (h refl)
handle_exit cfg stopped e d h k = of_stopped cfg d e.payload e.type k
