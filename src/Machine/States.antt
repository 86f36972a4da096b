-- ===== src/Machine/States.antt =====
-- core/state_machine/states and `transition_to` of machine.py: what each state does when it is
-- entered and left, and how it handles an event.
pub mod Diagram
pub mod Transition
pub mod Exit
use virtual_private_network.Prelude.{
  ℕ, ◌+◌, String, ◌<>◌, Bool, false, Option, none, some, List, [], ◌∷◌, ◌++◌, decimal, leb, ◌==◌,
  str_eq, if◌then◌else◌,
}
use virtual_private_network.Ports.Effect.{
  M, ok, pure, raise, gets, modify, try_except, system_exit, ◌>>=◌, ◌>>◌,
}
use virtual_private_network.Ports.Env.{signal, notify}
use virtual_private_network.Orchestrator.Teardown.{teardown_network}
use virtual_private_network.World.{
  Daemon, Config, State, bootstrapping, healthy, degraded, restarting, failed, stopped,
  bootstrap_done, health_ok, health_fail, tunnel_died, singbox_died, shutdown_requested,
  server_change_requested, timeout, restart_requested, VpnEvent, Task, on_timeout, bootstrap,
  starting, RuntimeContext, lift, set_context, create_task,
}

abbrev pub bootstrap_timeout : ℕ
bootstrap_timeout = 60

abbrev pub restart_timeout : ℕ
restart_timeout = 10

-- `self._timeout_task = asyncio.create_task(self._on_timeout())`
unfoldable pub start_timer : ℕ → M Daemon (Unit {0})
start_timer seconds d = (
  ok tt,
  record d {
    timer = some d.next_task;
    tasks = d.tasks ++ on_timeout d.next_task seconds ∷ [];
    next_task = d.next_task + 1;
  },
)

abbrev pub is_timer : ℕ → Task → Bool
is_timer id (on_timeout j _) = id == j
is_timer id _ = false

-- `task.cancel()`; a timer that has fired is no task any more.
unfoldable pub cancel : ℕ → List Task → List Task
cancel id [] = []
cancel id (t ∷ ts) = let rest = cancel id ts in if is_timer id t then rest else t ∷ rest

abbrev pub cancel_some : Option ℕ → List Task → List Task
cancel_some none tasks = tasks
cancel_some (some id) tasks = cancel id tasks

unfoldable pub stop_timer : M Daemon (Unit {0})
stop_timer d = (ok tt, record d { tasks = cancel_some d.timer d.tasks; timer = none })

abbrev pub text_or : Option String → String → String
text_or none other = other
text_or (some s) other = if str_eq s "" then other else s

unfoldable pub greeting : RuntimeContext → String
greeting c =
    "VPN daemon started. Server: "
    <> text_or c.active_server "unknown"
    <> ", Gateway: "
    <> text_or c.gateway "unknown"

-- A failing teardown is logged, and the process exits all the same.
unfoldable pub enter_failed : Config → M Daemon (Unit {0})
enter_failed cfg = do lift (try_except (teardown_network cfg) (λ _. pure tt)); raise (system_exit 1)

unfoldable pub enter_bootstrapping : M Daemon (Unit {0})
unfolding start_timer
enter_bootstrapping = do start_timer bootstrap_timeout; create_task (bootstrap starting)

unfoldable pub enter_healthy : M Daemon (Unit {0})
unfolding greeting
enter_healthy = do
  set_context (λ c. record c { fail_streak = 0 })
  message ← gets (λ d. greeting d.context)
  lift (signal (notify message))

unfoldable pub enter_restarting : M Daemon (Unit {0})
unfolding start_timer
enter_restarting = do
  set_context (λ c. record c { recovery_count = c.recovery_count + 1 })
  start_timer restart_timeout

unfoldable pub on_enter : Config → State → M Daemon (Unit {0})
unfolding enter_bootstrapping enter_healthy enter_restarting enter_failed
on_enter cfg bootstrapping = enter_bootstrapping
on_enter cfg healthy = enter_healthy
on_enter cfg degraded = pure tt
on_enter cfg restarting = enter_restarting
on_enter cfg failed = enter_failed cfg
on_enter cfg stopped = pure tt

unfoldable pub on_exit : State → M Daemon (Unit {0})
unfolding stop_timer
on_exit bootstrapping = stop_timer
on_exit restarting = stop_timer
on_exit _ = pure tt

abbrev leave : Option State → M Daemon (Unit {0})
leave none = pure tt
leave (some s) = on_exit s

-- A new state object has no timer.
unfoldable pub transition_to : Config → State → M Daemon (Unit {0})
unfolding on_exit on_enter
transition_to cfg s = do
  current ← gets (λ d. d.state)
  leave current
  modify (λ d. record d { state = some s; timer = none })
  on_enter cfg s

abbrev pub count_failure : M Daemon (Unit {0})
count_failure = set_context (λ c. record c { fail_streak = c.fail_streak + 1 })

abbrev pub note_error : String → M Daemon (Unit {0})
note_error e = set_context (λ c. record c { last_error = some e })

-- `payload.get("server_name")`
abbrev pub payload_get : String → List (String × String) → Option String
payload_get k [] = none
payload_get k ((j, v) ∷ rest) = if str_eq j k then some v else payload_get k rest

-- `if self.ctx.fail_streak >= 3`
unfoldable pub check_streak : Config → M Daemon (Unit {0})
check_streak cfg = do
  streak ← gets (λ d. d.context.fail_streak)
  (if leb 3 streak then transition_to cfg restarting else pure tt)

unfoldable pub handle_bootstrapping : Config → VpnEvent → M Daemon (Unit {0})
handle_bootstrapping cfg e = elim e.type [
  | bootstrap_done ↦ transition_to cfg healthy
  | shutdown_requested ↦ transition_to cfg failed
  | singbox_died ↦ transition_to cfg restarting
  | timeout ↦ do
    note_error ("Bootstrap timed out after " <> decimal bootstrap_timeout <> "s")
    transition_to cfg failed
  | _ ↦ pure tt
]

unfoldable pub handle_healthy : Config → VpnEvent → M Daemon (Unit {0})
handle_healthy cfg e = elim e.type [
  | health_fail ↦ do count_failure; transition_to cfg degraded
  | shutdown_requested ↦ transition_to cfg failed
  | server_change_requested ↦ do
    set_context (λ c. record c { target_server = payload_get "server_name" e.payload })
    transition_to cfg bootstrapping
  | restart_requested ↦ transition_to cfg restarting
  | tunnel_died ↦ transition_to cfg restarting
  | _ ↦ pure tt
]

unfoldable pub handle_degraded : Config → VpnEvent → M Daemon (Unit {0})
unfolding check_streak
handle_degraded cfg e = elim e.type [
  | health_ok ↦ transition_to cfg healthy
  | health_fail ↦ do count_failure; check_streak cfg
  | shutdown_requested ↦ transition_to cfg failed
  | tunnel_died ↦ transition_to cfg restarting
  | _ ↦ pure tt
]

unfoldable pub handle_restarting : Config → VpnEvent → M Daemon (Unit {0})
handle_restarting cfg e = elim e.type [
  | bootstrap_done ↦ transition_to cfg healthy
  | timeout ↦ do
    note_error ("Restart timed out after " <> decimal restart_timeout <> "s")
    transition_to cfg failed
  | shutdown_requested ↦ transition_to cfg failed
  | tunnel_died ↦ do
    note_error "tun2socks died repeatedly during recovery"
    transition_to cfg failed
  | _ ↦ pure tt
]

unfoldable pub handle_stopped : Config → VpnEvent → M Daemon (Unit {0})
handle_stopped cfg e = elim e.type [
  | restart_requested ↦ transition_to cfg bootstrapping
  | _ ↦ pure tt
]

-- FAILED handles nothing.
unfoldable pub handle : Config → State → VpnEvent → M Daemon (Unit {0})
unfolding handle_bootstrapping handle_healthy handle_degraded handle_restarting handle_stopped
handle cfg bootstrapping e = handle_bootstrapping cfg e
handle cfg healthy e = handle_healthy cfg e
handle cfg degraded e = handle_degraded cfg e
handle cfg restarting e = handle_restarting cfg e
handle cfg failed e = pure tt
handle cfg stopped e = handle_stopped cfg e
