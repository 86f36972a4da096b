-- ===== src/Machine/States/Transition.antt =====
-- What a transition does: the timer of the state that is left is cancelled, the new state is
-- entered, and FAILED tears the network down and exits.
use virtual_private_network.Prelude.{ℕ, ◌+◌, ◌≡◌, refl, Option, none, some, List, [], ◌∷◌, ◌++◌}
use virtual_private_network.Ports.Effect.{Outcome, ok, raised, system_exit}
use virtual_private_network.Ports.Env.{notify, signal}
use virtual_private_network.Orchestrator.Teardown.Trace.{torn_down, teardown_network_lem}
use virtual_private_network.Machine.States.{
  transition_to, on_enter, cancel_some, greeting, bootstrap_timeout, restart_timeout,
}
use virtual_private_network.World.{
  Daemon, Config, State, bootstrapping, healthy, degraded, restarting, failed, stopped, on_timeout,
  bootstrap, starting, Task,
}

-- The tasks that are left when the state is left.
abbrev pub tasks_left : Option State → Option ℕ → List Task → List Task
tasks_left (some bootstrapping) timer tasks = cancel_some timer tasks
tasks_left (some restarting) timer tasks = cancel_some timer tasks
tasks_left _ timer tasks = tasks

-- The daemon between the two states: in the new one, which has done nothing yet.
abbrev pub placed : State → Daemon → Daemon
placed s d = record d { tasks = tasks_left d.state d.timer d.tasks; state = some s; timer = none }

abbrev pub timed : ℕ → Daemon → Daemon
timed seconds d = record d {
  timer = some d.next_task;
  tasks = d.tasks ++ on_timeout d.next_task seconds ∷ [];
  next_task = d.next_task + 1;
}

-- What the new state does when it is entered.
abbrev pub entered : Config → State → Daemon → Outcome (Unit {0}) × Daemon
entered cfg bootstrapping d =
    let d' = timed bootstrap_timeout d in
    (ok tt, record d' { tasks = d'.tasks ++ bootstrap starting ∷ [] })
entered cfg healthy d = (
  ok tt,
  record d {
    context = record d.context { fail_streak = 0 };
    history = notify (greeting (record d.context { fail_streak = 0 })) ∷ d.history;
  },
)
entered cfg degraded d = (ok tt, d)
entered cfg restarting d = (
  ok tt,
  timed restart_timeout
      (record d { context = record d.context { recovery_count = d.context.recovery_count + 1 } }),
)
entered cfg failed d = (raised (system_exit 1), record d { history = torn_down cfg d.history })
entered cfg stopped d = (ok tt, d)

on_enter-eq-entered : (cfg : Config) (s : State) (d : Daemon) → on_enter cfg s d ≡ entered cfg s d
unfolding on_enter signal
on_enter-eq-entered cfg bootstrapping d = refl
on_enter-eq-entered cfg healthy d = refl
on_enter-eq-entered cfg degraded d = refl
on_enter-eq-entered cfg restarting d = refl
on_enter-eq-entered cfg failed d = simp (teardown_network_lem)
on_enter-eq-entered cfg stopped d = refl

-- A transition is the cancelling of the old timer followed by the entry of the new state.
pub transition_to_lem :
    (cfg : Config) (s : State) (d : Daemon) → transition_to cfg s d ≡ entered cfg s (placed s d)
unfolding transition_to
transition_to_lem cfg s d = leaving d.state refl
  where
    leaving : (o : Option State) → d.state ≡ o → transition_to cfg s d ≡ entered cfg s (placed s d)
    leaving none h = rw (h, transition_to) (on_enter-eq-entered cfg s _)
    leaving (some bootstrapping) h = rw (h, transition_to) (on_enter-eq-entered cfg s _)
    leaving (some healthy) h = rw (h, transition_to) (on_enter-eq-entered cfg s _)
    leaving (some degraded) h = rw (h, transition_to) (on_enter-eq-entered cfg s _)
    leaving (some restarting) h = rw (h, transition_to) (on_enter-eq-entered cfg s _)
    leaving (some failed) h = rw (h, transition_to) (on_enter-eq-entered cfg s _)
    leaving (some stopped) h = rw (h, transition_to) (on_enter-eq-entered cfg s _)
