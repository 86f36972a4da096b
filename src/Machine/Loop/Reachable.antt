-- ===== src/Machine/Loop/Reachable.antt =====
-- The invariant of the daemon holds from its start on, after every step: an event, a call from the
-- command line, a stretch of the bootstrap, a timer, the end of a process or a signal.
use virtual_private_network.Prelude.{
  ℕ, String, ◌≡◌, refl, List, [], ◌∷◌, ◌++◌, arith, inl, inr, Bool, ap, sym, ◌∙◌,
}
use virtual_private_network.Ports.Env.{Env, Provider}
use virtual_private_network.Machine.Replies.{Params}
use virtual_private_network.Machine.Rpc.{
  Method, stop_vpn, start_vpn, method_of, dispatch_to, dispatch,
}
use virtual_private_network.Machine.Loop.{
  Step, next_event, call, bootstraps, expires, ends, signalled, Reach, here, next, created, started,
}
use virtual_private_network.Machine.Loop.Invariant.{
  Inv, timers, timers-append, OneTimer, transition_to-Inv,
}
use virtual_private_network.Machine.Loop.Frame.{Frames-Frame, Frame-Inv}
use virtual_private_network.Machine.Loop.Calls.{dispatch_to-Frames, run_bootstrap-Frames}
use virtual_private_network.Machine.Loop.Safety.{stop-Safe, start-Safe, process-Inv}
use virtual_private_network.World.{watch, Daemon, Config, bootstrapping, Task, on_timeout}

timers_skip :
    (ts us : List Task) (t : Task)
    → timers (t ∷ []) ≡ []
    → timers (ts ++ t ∷ us) ≡ timers (ts ++ us)
timers_skip ts us t h =
    let plain : timers (t ∷ us) ≡ timers us =
      timers-append (t ∷ []) us ∙ ap (λ l. l ++ timers us) h in
    timers-append ts (t ∷ us) ∙ ap (λ l. timers ts ++ l) plain ∙ sym (timers-append ts us)

only_one : {A : Type 0} (xs ys : List A) (y z : A) → xs ++ y ∷ ys ≡ z ∷ [] → xs ++ ys ≡ []
only_one [] ys y z h = cc
only_one (x ∷ []) ys y z h = cc
only_one (x ∷ x' ∷ xs) ys y z h = cc

not_none : {A : Type 0} (xs ys : List A) (y : A) → xs ++ y ∷ ys ≡ [] → ⊥
not_none [] ys y h = cc
not_none (x ∷ xs) ys y h = cc

-- Taking a task that is no timer off the list, and taking the timer.
without_task :
    (d : Daemon) (ts us : List Task) (t : Task)
    → timers (t ∷ []) ≡ []
    → d.tasks ≡ ts ++ t ∷ us
    → Inv d
    → Inv (record d { tasks = ts ++ us })
without_task d ts us t h k v =
    let same : timers (ts ++ us) ≡ timers d.tasks = sym (ap timers k ∙ timers_skip ts us t h) in
    record { streak = v.streak; one_timer = rw same v.one_timer }

without_timer :
    (d : Daemon) (ts us : List Task) (id n : ℕ)
    → d.tasks ≡ ts ++ on_timeout id n ∷ us
    → Inv d
    → Inv (record d { tasks = ts ++ us })
without_timer d ts us id n k v = record { streak = v.streak; one_timer = inl (gone v.one_timer) }
  where
    parts : timers d.tasks ≡ timers ts ++ (id, n) ∷ timers us
    parts = ap timers k ∙ timers-append ts _

    gone : OneTimer d.state d.timer d.tasks → timers (ts ++ us) ≡ []
    gone (inl h) = absurd (not_none (timers ts) (timers us) (id, n) (sym parts ∙ h))
    gone (inr (i, m, h, _, _)) =
        timers-append ts us ∙ only_one (timers ts) (timers us) (id, n) (i, m) (sym parts ∙ h)

module _ (env : Env) (provider : Provider) (cfg : Config) (before : String → String → Bool) where
  dispatch-Inv :
      (c : Method) (m : String) (params : Params) (d : Daemon)
      → Inv d
      → Inv (dispatch_to env provider cfg before c m params d).1
  unfolding dispatch_to
  dispatch-Inv stop_vpn m params d v = (stop-Safe cfg).at d v
  dispatch-Inv start_vpn m params d v = (start-Safe cfg).at d v
  dispatch-Inv c m params d v =
      Frame-Inv (Frames-Frame (dispatch_to-Frames env provider cfg before c m params refl) d) v

  Step-Inv : {d d' : Daemon} → Step env provider cfg before d d' → Inv d → Inv d'
  unfolding dispatch
  Step-Inv (next_event {d} {d'} e q h k) v = rw (ap (λ r. r.1) k) at (
      process-Inv cfg e (record d { queue = q })
        (record { streak = v.streak; one_timer = v.one_timer }))
  Step-Inv (call d m params) v = dispatch-Inv (method_of m) m params d v
  Step-Inv (bootstraps {d} phase ts us h) v =
      Frame-Inv (Frames-Frame (run_bootstrap-Frames env provider cfg phase) _)
        (without_task d ts us _ refl h v)
  Step-Inv (expires {d} id n ts us h) v =
      let w = without_timer d ts us id n h v in
      record { streak = w.streak; one_timer = w.one_timer }
  Step-Inv (ends {d} pid e ts us h) v =
      let w = without_task d ts us (watch pid e) refl h v in
      record { streak = w.streak; one_timer = w.one_timer }
  Step-Inv (signalled d) v = record { streak = v.streak; one_timer = v.one_timer }

  started-Inv :
      (bypass domains wildcards subnets : List String)
      → Inv (started cfg (created bypass domains wildcards subnets))
  unfolding started created
  started-Inv bypass domains wildcards subnets =
      transition_to-Inv cfg bootstrapping (created bypass domains wildcards subnets) (omega arith)
        (inl refl)

  -- After any steps from the start, in any order: the streak of failures is 0 in HEALTHY, 1 or 2 in
  -- DEGRADED and at most 3 elsewhere; at most one timeout is pending, it is the current state's
  -- own, and it is the bootstrap's 60 seconds or the restart's 10.
  pub Reach-Inv :
      (bypass domains wildcards subnets : List String) {d : Daemon}
      → Reach env provider cfg before (started cfg (created bypass domains wildcards subnets)) d
      → Inv d
  Reach-Inv bypass domains wildcards subnets here = started-Inv bypass domains wildcards subnets
  Reach-Inv bypass domains wildcards subnets (next r s) =
      Step-Inv s (Reach-Inv bypass domains wildcards subnets r)
