-- ===== src/Machine/Loop/Wired.antt =====
-- Which events the running program can see at all. __main__.py creates the health checker and never
-- starts it, so nothing posts the results of health checks.
use virtual_private_network.Prelude.{
  String, ◌≡◌, refl, Bool, true, false, Option, none, some, List, [], ◌∷◌, ◌++◌, arith, Bool-cases,
  inl, inr, ap,
}
use virtual_private_network.Ports.Effect.{Outcome, ok, raised, is_exception, try_except, pure}
use virtual_private_network.Ports.Env.{Env, Provider}
use virtual_private_network.Machine.Power.{stop, start}
use virtual_private_network.Machine.Replies.{Params}
use virtual_private_network.Machine.Rpc.{
  Method, stop_vpn, start_vpn, method_of, dispatch_to, dispatch,
}
use virtual_private_network.Machine.States.{transition_to, handle}
use virtual_private_network.Machine.States.Transition.{transition_to_lem, entered, placed}
use virtual_private_network.Machine.Loop.{
  handle_in, process, Step, next_event, call, bootstraps, expires, ends, signalled, Reach, here,
  next, created, started,
}
use virtual_private_network.Machine.Loop.Frame.{is_wired, frame_rules}
use virtual_private_network.Machine.Loop.Calls.{dispatch_to-Frames, run_bootstrap-Frames}
use virtual_private_network.World.{
  Daemon, Config, State, bootstrapping, healthy, degraded, restarting, failed, stopped, EventType,
  VpnEvent, bootstrap_done, health_fail, tunnel_died, singbox_died, shutdown_requested,
  server_change_requested, timeout, restart_requested, Task, on_timeout, bootstrap, watch, starting,
}
use virtual_private_network.Machine.Loop.Wiring.{
  wired_events, wired_task, wired_tasks, is_degraded, Wired, wired_tasks-append, wired_tasks-add,
  wired_tasks-left, Wired-Insensitive, Keeps, Keeps-Frames, Keeps-bind,
}

module _ (cfg : Config) where
  Wired-entered :
      (s : State) (d : Daemon)
      → is_degraded (some s) ≡ false
      → Wired d
      → d.state ≡ some s
      → Wired (entered cfg s d).1
  Wired-entered bootstrapping d n w h = record {
    events = w.events;
    tasks =
        wired_tasks-add (d.tasks ++ on_timeout d.next_task 60 ∷ []) (bootstrap starting) refl
          (wired_tasks-add d.tasks (on_timeout d.next_task 60) refl w.tasks);
    state = w.state;
  }
  Wired-entered healthy d n w h = record { events = w.events; tasks = w.tasks; state = w.state }
  Wired-entered degraded d n w h = cc
  Wired-entered restarting d n w h = record {
    events = w.events;
    tasks = wired_tasks-add d.tasks (on_timeout d.next_task 10) refl w.tasks;
    state = w.state;
  }
  Wired-entered failed d n w h = record { events = w.events; tasks = w.tasks; state = w.state }
  Wired-entered stopped d n w h = record { events = w.events; tasks = w.tasks; state = w.state }

  Keeps-transition : (s : State) → is_degraded (some s) ≡ false → Keeps (transition_to cfg s)
  Keeps-transition s n = record {
    at = λ d w. rw transition_to_lem (
        Wired-entered s (placed s d) n
          (record {
            events = w.events;
            tasks = wired_tasks-left d.state d.timer d.tasks w.tasks;
            state = n;
          })
          refl);
  }

  to_bootstrapping : Keeps (transition_to cfg bootstrapping)
  to_bootstrapping = Keeps-transition bootstrapping refl

  to_stopped : Keeps (transition_to cfg stopped)
  to_stopped = Keeps-transition stopped refl

  stop-Keeps : Keeps (stop cfg)
  unfolding stop
  stop-Keeps = search (Keeps-bind, Keeps-Frames, frame_rules, to_stopped) depth 14

  start-Keeps : Keeps (start cfg)
  unfolding start
  start-Keeps = search (Keeps-bind, Keeps-Frames, frame_rules, to_bootstrapping) depth 14

  handle-Wired :
      (s : State) (t : EventType) (p : List (String × String)) (d : Daemon)
      → is_degraded (some s) ≡ false
      → is_wired t ≡ true
      → Wired d
      → Wired (handle cfg s (record { type = t; payload = p }) d).1
  unfolding handle
  handle-Wired bootstrapping bootstrap_done p d n h w = (Keeps-transition healthy refl).at d w
  handle-Wired bootstrapping shutdown_requested p d n h w = (Keeps-transition failed refl).at d w
  handle-Wired bootstrapping singbox_died p d n h w = (Keeps-transition restarting refl).at d w
  handle-Wired bootstrapping timeout p d n h w =
      (Keeps-transition failed refl).at _
        (record { events = w.events; tasks = w.tasks; state = w.state })
  handle-Wired bootstrapping _ p d n h w = w
  handle-Wired healthy shutdown_requested p d n h w = (Keeps-transition failed refl).at d w
  handle-Wired healthy restart_requested p d n h w = (Keeps-transition restarting refl).at d w
  handle-Wired healthy health_fail p d n h w = cc
  handle-Wired healthy server_change_requested p d n h w = cc
  handle-Wired healthy tunnel_died p d n h w = cc
  handle-Wired healthy _ p d n h w = w
  handle-Wired degraded t p d n h w = cc
  handle-Wired restarting bootstrap_done p d n h w = (Keeps-transition healthy refl).at d w
  handle-Wired restarting timeout p d n h w =
      (Keeps-transition failed refl).at _
        (record { events = w.events; tasks = w.tasks; state = w.state })
  handle-Wired restarting shutdown_requested p d n h w = (Keeps-transition failed refl).at d w
  handle-Wired restarting tunnel_died p d n h w = cc
  handle-Wired restarting _ p d n h w = w
  handle-Wired failed t p d n h w = w
  handle-Wired stopped restart_requested p d n h w = (Keeps-transition bootstrapping refl).at d w
  handle-Wired stopped _ p d n h w = w

  handle_in-Wired :
      (o : Option State) (e : VpnEvent) (d : Daemon)
      → is_degraded o ≡ false
      → is_wired e.type ≡ true
      → Wired d
      → Wired (handle_in cfg o e d).1
  unfolding handle_in
  handle_in-Wired none e d n h w = w
  handle_in-Wired (some s) e d n h w = handle-Wired s e.type e.payload d n h w

  caught :
      (r : Outcome (Unit {0})) (d : Daemon)
      → Wired d
      → Wired (try_except (λ s. (r, s)) (λ _. pure tt) d).1
  caught (ok a) d v = v
  caught (raised e) d v = elim (Bool-cases (is_exception e)) [ inl c ↦ rw c v | inr c ↦ rw c v ]

  process-Wired :
      (e : VpnEvent) (d : Daemon) → is_wired e.type ≡ true → Wired d → Wired (process cfg e d).1
  unfolding process
  process-Wired e d h w =
      caught (handle_in cfg d.state e d).0 (handle_in cfg d.state e d).1
        (handle_in-Wired d.state e d w.state h w)

-- Taking a task off the list.
without_task :
    (d : Daemon) (ts us : List Task) (t : Task)
    → d.tasks ≡ ts ++ t ∷ us
    → Wired d
    → (wired_task t ≡ true) × Wired (record d { tasks = ts ++ us })
without_task d ts us t k w =
    let all : wired_tasks (ts ++ t ∷ us) ≡ true = rw k at (w.tasks) in
    (
      ground (arith, wired_tasks-append ts (t ∷ us)),
      record {
        events = w.events;
        tasks = ground (arith, wired_tasks-append ts (t ∷ us), wired_tasks-append ts us);
        state = w.state;
      },
    )

module _ (env : Env) (provider : Provider) (cfg : Config) (before : String → String → Bool) where
  dispatch-Wired :
      (c : Method) (m : String) (params : Params) (d : Daemon)
      → Wired d
      → Wired (dispatch_to env provider cfg before c m params d).1
  unfolding dispatch_to
  dispatch-Wired stop_vpn m params d w = (stop-Keeps cfg).at d w
  dispatch-Wired start_vpn m params d w = (start-Keeps cfg).at d w
  dispatch-Wired c m params d w =
      (dispatch_to-Frames env provider cfg before c m params refl).at Wired Wired-Insensitive d w

  posted :
      (d : Daemon) (e : VpnEvent)
      → is_wired e.type ≡ true
      → Wired d
      → Wired (record d { queue = d.queue ++ e ∷ [] })
  posted d e h w = Wired-Insensitive.queued d e h w

  Step-Wired : {d d' : Daemon} → Step env provider cfg before d d' → Wired d → Wired d'
  unfolding dispatch
  Step-Wired (next_event {d} {d'} e q h k) w =
      let all : wired_events (e ∷ q) ≡ true = rw h at (w.events) in
      rw (ap (λ r. r.1) k) at (
        process-Wired cfg e (record d { queue = q }) (ground arith)
          (record { events = ground arith; tasks = w.tasks; state = w.state }))
  Step-Wired (call d m params) w = dispatch-Wired (method_of m) m params d w
  Step-Wired (bootstraps {d} phase ts us h) w =
      (run_bootstrap-Frames env provider cfg phase).at Wired Wired-Insensitive _
        (without_task d ts us _ h w).1
  Step-Wired (expires {d} id n ts us h) w = posted _ _ refl (without_task d ts us _ h w).1
  Step-Wired (ends {d} pid e ts us h) w =
      let (p, v) = without_task d ts us (watch pid e) h w in posted _ e p v
  Step-Wired (signalled d) w = posted d _ refl w

  started-Wired :
      (bypass domains wildcards subnets : List String)
      → Wired (started cfg (created bypass domains wildcards subnets))
  unfolding started created
  started-Wired bypass domains wildcards subnets =
      (to_bootstrapping cfg).at (created bypass domains wildcards subnets)
        (record { events = refl; tasks = refl; state = refl })

  -- As the program is wired, after any steps from the start, in any order: no result of a health
  -- check, no request to change the server and no death of the tunnel is ever waiting in the queue
  -- or about to be posted, and the state is never DEGRADED.
  pub Reach-Wired :
      (bypass domains wildcards subnets : List String) {d : Daemon}
      → Reach env provider cfg before (started cfg (created bypass domains wildcards subnets)) d
      → Wired d
  Reach-Wired bypass domains wildcards subnets here = started-Wired bypass domains wildcards subnets
  Reach-Wired bypass domains wildcards subnets (next r s) =
      Step-Wired s (Reach-Wired bypass domains wildcards subnets r)
