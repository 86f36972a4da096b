-- ===== src/Machine/Loop.antt =====
-- core/state_machine/machine.py, `run` and `_handle_rpc`; the tasks of the event loop (the `_run`
-- of the bootstrapping state, `_on_timeout`, `_watch_process`); and the wiring of __main__.py. One
-- step is what happens between two points where the code gives way to other tasks.
pub mod Invariant
pub mod Frame
pub mod Calls
pub mod Safety
pub mod Reachable
pub mod Checks
pub mod Wiring
pub mod Wired
use virtual_private_network.Prelude.{ℕ, ◌≡◌, String, Bool, Option, none, some, List, [], ◌∷◌, ◌++◌}
use virtual_private_network.Ports.Effect.{
  M, Outcome, ok, raised, Exn, pure, try_except, ◌>>=◌, ◌>>◌,
}
use virtual_private_network.Ports.Env.{Env, Provider}
use virtual_private_network.Orchestrator.Bootstrap.{start_phase, routing_phase, finishing_phase}
use virtual_private_network.Machine.States.{transition_to, handle}
use virtual_private_network.Machine.Replies.{Params}
use virtual_private_network.Machine.Rpc.{dispatch}
use virtual_private_network.World.{
  Daemon, Config, State, bootstrapping, VpnEvent, event, timeout, singbox_died, shutdown_requested,
  Phase, starting, routing, finishing, Task, on_timeout, bootstrap, watch, create_task, post,
  initial_context,
}

-- An event is handled by the state that is current when it is taken from the queue.
handle_in : Config → Option State → VpnEvent → M Daemon (Unit {0})
handle_in cfg none e = pure tt
handle_in cfg (some s) e = handle cfg s e

-- The body of the loop. An exception is logged; `SystemExit` goes through.
unfoldable pub process : Config → VpnEvent → M Daemon (Unit {0})
unfolding handle_in
process cfg e d = try_except (handle_in cfg d.state e) (λ _. pure tt) d

module _ (env : Env) (provider : Provider) (cfg : Config) where
  -- One stretch of the bootstrap; the next one is a task again.
  unfoldable pub run_phase : Phase → M Daemon (Unit {0})
  run_phase starting = do next ← start_phase env provider cfg; create_task (bootstrap next)
  run_phase (routing topology) = do
    next ← routing_phase env provider cfg topology
    create_task (bootstrap next)
  run_phase (finishing topology) = finishing_phase env provider cfg topology

  -- `except Exception: await events.put(VpnEvent(EventType.SINGBOX_DIED))`
  unfoldable pub run_bootstrap : Phase → M Daemon (Unit {0})
  unfolding run_phase
  run_bootstrap phase = try_except (run_phase phase) (λ _. post (event singbox_died))

  -- What can happen next, in a daemon that runs. A task may be taken in any order.
  pub data Step (before : String → String → Bool) : Daemon → Daemon → Type 0 where
    next_event :
        {d d' : Daemon} (e : VpnEvent) (q : List VpnEvent)
        → d.queue ≡ e ∷ q
        → process cfg e (record d { queue = q }) ≡ (ok tt, d')
        → Step before d d'
    call :
        (d : Daemon) (m : String) (params : Params)
        → Step before d (dispatch env provider cfg before m params d).1
    bootstraps :
        {d : Daemon} (phase : Phase) (ts us : List Task)
        → d.tasks ≡ ts ++ bootstrap phase ∷ us
        → Step before d (run_bootstrap phase (record d { tasks = ts ++ us })).1
    expires :
        {d : Daemon} (id seconds : ℕ) (ts us : List Task)
        → d.tasks ≡ ts ++ on_timeout id seconds ∷ us
        → Step before d (post (event timeout) (record d { tasks = ts ++ us })).1
    ends :
        {d : Daemon} (pid : ℕ) (e : VpnEvent) (ts us : List Task)
        → d.tasks ≡ ts ++ watch pid e ∷ us
        → Step before d (post e (record d { tasks = ts ++ us })).1
    signalled : (d : Daemon) → Step before d (post (event shutdown_requested) d).1

  pub data Reach (before : String → String → Bool) (d : Daemon) : Daemon → Type 0 where
    here : Reach before d d
    next : {t u : Daemon} → Reach before d t → Step before t u → Reach before d u

-- What `_main` starts with: the lists of the configuration, and nothing else.
unfoldable pub created : List String → List String → List String → List String → Daemon
created bypass domains wildcards subnets = record {
  context = initial_context;
  queue = [];
  state = none;
  timer = none;
  tasks = [];
  next_task = 0;
  tun2socks = none;
  profile = none;
  bypass_domains = bypass;
  vpn_domains = domains;
  vpn_wildcards = wildcards;
  vpn_subnets = subnets;
  history = [];
}

-- `machine.run()` enters the first state.
unfoldable pub started : Config → Daemon → Daemon
started cfg d = (transition_to cfg bootstrapping d).1
