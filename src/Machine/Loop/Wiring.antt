-- ===== src/Machine/Loop/Wiring.antt =====
-- The events that the running program can see at all: the state of the daemon that says so, and the
-- methods that keep it. __main__.py creates the health checker and never starts it.
use virtual_private_network.Prelude.{
  ℕ, ◌≡◌, refl, Bool, true, false, ◌&&◌, Option, none, some, List, [], ◌∷◌, ◌++◌, arith,
}
use virtual_private_network.Ports.Effect.{M, Outcome, ok, raised, continue, ◌>>=◌}
use virtual_private_network.Machine.States.{cancel, cancel_some}
use virtual_private_network.Machine.States.Transition.{tasks_left}
use virtual_private_network.Machine.Loop.Frame.{Frames, Insensitive, is_wired, is_plain}
use virtual_private_network.World.{
  Daemon, State, bootstrapping, healthy, degraded, restarting, failed, stopped, VpnEvent, Task,
  on_timeout, bootstrap, watch, ru_updater,
}

abbrev pub wired_events : List VpnEvent → Bool
wired_events [] = true
wired_events (e ∷ es) = is_wired e.type && wired_events es

abbrev pub wired_task : Task → Bool
wired_task (watch _ e) = is_wired e.type
wired_task _ = true

abbrev pub wired_tasks : List Task → Bool
wired_tasks [] = true
wired_tasks (t ∷ ts) = wired_task t && wired_tasks ts

abbrev pub is_degraded : Option State → Bool
is_degraded (some degraded) = true
is_degraded _ = false

-- No event of a kind that nobody posts is waiting or will be posted by a task, and the state is not
-- DEGRADED.
pub record Wired (d : Daemon) : Type 0 where
  pub events : wired_events d.queue ≡ true
  pub tasks : wired_tasks d.tasks ≡ true
  pub state : is_degraded d.state ≡ false

wired_events-append :
    (es fs : List VpnEvent) → wired_events (es ++ fs) ≡ (wired_events es && wired_events fs)
wired_events-append [] fs = refl
wired_events-append (e ∷ es) fs = ground (arith, wired_events-append es fs)

pub wired_tasks-append :
    (ts us : List Task) → wired_tasks (ts ++ us) ≡ (wired_tasks ts && wired_tasks us)
wired_tasks-append [] us = refl
wired_tasks-append (t ∷ ts) us = ground (arith, wired_tasks-append ts us)

pub wired_tasks-add :
    (ts : List Task) (t : Task)
    → wired_task t ≡ true
    → wired_tasks ts ≡ true
    → wired_tasks (ts ++ t ∷ []) ≡ true
wired_tasks-add ts t h k = ground (arith, wired_tasks-append ts (t ∷ []))

wired_tasks-cancel :
    (id : ℕ) (ts : List Task) → wired_tasks ts ≡ true → wired_tasks (cancel id ts) ≡ true
unfolding cancel
wired_tasks-cancel id [] h = refl
wired_tasks-cancel id (t ∷ ts) h = ground (arith, wired_tasks-cancel id ts)

wired_tasks-cancel_some :
    (o : Option ℕ) (ts : List Task) → wired_tasks ts ≡ true → wired_tasks (cancel_some o ts) ≡ true
wired_tasks-cancel_some none ts h = h
wired_tasks-cancel_some (some id) ts h = wired_tasks-cancel id ts h

pub wired_tasks-left :
    (s : Option State) (o : Option ℕ) (ts : List Task)
    → wired_tasks ts ≡ true
    → wired_tasks (tasks_left s o ts) ≡ true
wired_tasks-left (some bootstrapping) o ts h = wired_tasks-cancel_some o ts h
wired_tasks-left (some restarting) o ts h = wired_tasks-cancel_some o ts h
wired_tasks-left none o ts h = h
wired_tasks-left (some healthy) o ts h = h
wired_tasks-left (some degraded) o ts h = h
wired_tasks-left (some failed) o ts h = h
wired_tasks-left (some stopped) o ts h = h

plain_task : (t : Task) → is_plain t ≡ true → wired_task t ≡ true
plain_task (on_timeout _ _) h = cc
plain_task (bootstrap _) h = refl
plain_task (watch _ _) h = h
plain_task ru_updater h = refl

pub Wired-Insensitive : Insensitive Wired
Wired-Insensitive = record {
  history = λ _ _ w. record { events = w.events; tasks = w.tasks; state = w.state };
  profile = λ _ _ w. record { events = w.events; tasks = w.tasks; state = w.state };
  context = λ _ _ _ w. record { events = w.events; tasks = w.tasks; state = w.state };
  tunnel = λ _ _ w. record { events = w.events; tasks = w.tasks; state = w.state };
  lists = λ _ _ _ _ _ w. record { events = w.events; tasks = w.tasks; state = w.state };
  queued = λ d e h w. record {
    events = ground (arith, wired_events-append d.queue (e ∷ []), w.events);
    tasks = w.tasks;
    state = w.state;
  };
  task = λ d t h w. record {
    events = w.events;
    tasks = wired_tasks-add d.tasks t (plain_task t h) w.tasks;
    state = w.state;
  };
}

-- The method keeps the property, whether it returns or raises.
pub record Keeps {R : Type 0} (m : M Daemon R) : Type 0 where
  pub at : (d : Daemon) → Wired d → Wired (m d).1

pub Keeps-Frames : {R : Type 0} (m : M Daemon R) → Frames m → Keeps m
Keeps-Frames m f = record { at = f.at Wired Wired-Insensitive }

module _ {R T : Type 0} where
  Keeps-continue :
      (r : Outcome R) (f : R → M Daemon T) (d : Daemon)
      → Wired d
      → ((a : R) → Keeps (f a))
      → Wired (continue r f d).1
  Keeps-continue (ok a) f d v q = (q a).at d v
  Keeps-continue (raised e) f d v q = v

  pub Keeps-bind :
      (m : M Daemon R) (f : R → M Daemon T) → Keeps m → ((a : R) → Keeps (f a)) → Keeps (m >>= f)
  Keeps-bind m f p q = record {
    at = λ d v. let (r, d') = m d in Keeps-continue r f d' (p.at d v) q;
  }
