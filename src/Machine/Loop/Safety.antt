-- ===== src/Machine/Loop/Safety.antt =====
-- The handlers of the states, and the methods that stop and start, keep the invariant.
use virtual_private_network.Prelude.{
  ℕ, String, ◌≡◌, refl, Option, none, some, List, arith, ◌≤◌, inl, inr, ◌+◌, leb, Bool-cases,
}
use virtual_private_network.Ports.Effect.{
  M, Outcome, ok, raised, continue, is_exception, try_except, pure, ◌>>=◌,
}
use virtual_private_network.Machine.Power.{stop, start}
use virtual_private_network.Machine.States.{transition_to, handle, check_streak}
use virtual_private_network.Machine.Loop.{handle_in, process}
use virtual_private_network.Machine.Loop.Invariant.{Inv, StreakFits, CanEnter, transition_to-Inv}
use virtual_private_network.Machine.Loop.Frame.{Frames-Frame, Frame-Inv, Frames, frame_rules}
use virtual_private_network.World.{
  Daemon, Config, State, bootstrapping, healthy, degraded, restarting, failed, stopped, EventType,
  VpnEvent, bootstrap_done, health_ok, health_fail, tunnel_died, singbox_died, shutdown_requested,
  server_change_requested, timeout, restart_requested,
}

-- The method keeps the invariant, whether it returns or raises.
pub record Safe {R : Type 0} (m : M Daemon R) : Type 0 where
  pub at : (d : Daemon) → Inv d → Inv (m d).1

streak-le : (d : Daemon) → Inv d → d.context.fail_streak ≤ 3
streak-le d v = below d.state (v.streak)
  where
    below : (s : Option State) → StreakFits s d.context.fail_streak → d.context.fail_streak ≤ 3
    below none h = h
    below (some bootstrapping) h = h
    below (some healthy) h = omega arith
    below (some degraded) h = omega arith
    below (some restarting) h = h
    below (some failed) h = h
    below (some stopped) h = h

Safe-Frames : {R : Type 0} (m : M Daemon R) → Frames m → Safe m
Safe-Frames m f = record { at = λ d v. Frame-Inv (Frames-Frame f d) v }

module _ {R T : Type 0} where
  Safe-continue :
      (r : Outcome R) (f : R → M Daemon T) (d : Daemon)
      → Inv d
      → ((a : R) → Safe (f a))
      → Inv (continue r f d).1
  Safe-continue (ok a) f d v q = (q a).at d v
  Safe-continue (raised e) f d v q = v

  Safe-bind :
      (m : M Daemon R) (f : R → M Daemon T) → Safe m → ((a : R) → Safe (f a)) → Safe (m >>= f)
  Safe-bind m f p q = record { at = λ d v. let (r, d') = m d in Safe-continue r f d' (p.at d v) q }

module _ (cfg : Config) where
  -- DEGRADED is entered from HEALTHY alone; the other states can be entered at any time.
  Safe-transition : (s : State) → ((n : ℕ) → n ≤ 3 → CanEnter s n) → Safe (transition_to cfg s)
  Safe-transition s p = record {
    at = λ d v. transition_to-Inv cfg s d (p _ (streak-le d v)) v.one_timer;
  }

  to_bootstrapping : Safe (transition_to cfg bootstrapping)
  to_bootstrapping = Safe-transition bootstrapping (λ n h. h)

  to_healthy : Safe (transition_to cfg healthy)
  to_healthy = Safe-transition healthy (λ n h. tt)

  to_restarting : Safe (transition_to cfg restarting)
  to_restarting = Safe-transition restarting (λ n h. h)

  to_failed : Safe (transition_to cfg failed)
  to_failed = Safe-transition failed (λ n h. h)

  to_stopped : Safe (transition_to cfg stopped)
  to_stopped = Safe-transition stopped (λ n h. h)

  pub stop-Safe : Safe (stop cfg)
  unfolding stop
  stop-Safe = search (Safe-bind, Safe-Frames, frame_rules, to_stopped) depth 14

  pub start-Safe : Safe (start cfg)
  unfolding start
  start-Safe = search (Safe-bind, Safe-Frames, frame_rules, to_bootstrapping) depth 14

-- A failure counted in HEALTHY or DEGRADED.
counted : Daemon → Daemon
counted d = record d { context = record d.context { fail_streak = d.context.fail_streak + 1 } }

module _ (cfg : Config) (d : Daemon) (v : Inv d) where
  first_failure : d.state ≡ some healthy → Inv (transition_to cfg degraded (counted d)).1
  unfolding counted
  first_failure h =
      let zero_streak : d.context.fail_streak ≡ 0 = rw h at (v.streak) in
      transition_to-Inv cfg degraded (counted d) (omega arith, omega arith) v.one_timer

  later_failure : d.state ≡ some degraded → Inv (check_streak cfg (counted d)).1
  unfolding counted check_streak
  later_failure h =
      let few : (1 ≤ d.context.fail_streak) × (d.context.fail_streak ≤ 2) = rw h at (v.streak) in
      elim (Bool-cases (leb 3 (d.context.fail_streak + 1))) [
        | inl c ↦ rw c (transition_to-Inv cfg restarting (counted d) (omega arith) v.one_timer)
        | inr c ↦
            rw c (record { streak = rw h (omega arith, ground arith); one_timer = v.one_timer })
      ]

module _ (cfg : Config) (d : Daemon) (v : Inv d) (p : List (String × String)) where
  abbrev of_type : EventType → VpnEvent
  of_type t = record { type = t; payload = p }

  safe_bootstrapping : (t : EventType) → Inv (handle cfg bootstrapping (of_type t) d).1
  unfolding handle
  safe_bootstrapping bootstrap_done = (to_healthy cfg).at d v
  safe_bootstrapping shutdown_requested = (to_failed cfg).at d v
  safe_bootstrapping singbox_died = (to_restarting cfg).at d v
  safe_bootstrapping timeout =
      (to_failed cfg).at _ (record { streak = v.streak; one_timer = v.one_timer })
  safe_bootstrapping _ = v

  safe_healthy : (t : EventType) → d.state ≡ some healthy → Inv (handle cfg healthy (of_type t) d).1
  unfolding handle counted
  safe_healthy health_fail h = first_failure cfg d v h
  safe_healthy shutdown_requested h = (to_failed cfg).at d v
  safe_healthy server_change_requested h =
      (to_bootstrapping cfg).at _ (record { streak = v.streak; one_timer = v.one_timer })
  safe_healthy restart_requested h = (to_restarting cfg).at d v
  safe_healthy tunnel_died h = (to_restarting cfg).at d v
  safe_healthy _ h = v

  safe_degraded :
      (t : EventType) → d.state ≡ some degraded → Inv (handle cfg degraded (of_type t) d).1
  unfolding handle counted
  safe_degraded health_ok h = (to_healthy cfg).at d v
  safe_degraded health_fail h = later_failure cfg d v h
  safe_degraded shutdown_requested h = (to_failed cfg).at d v
  safe_degraded tunnel_died h = (to_restarting cfg).at d v
  safe_degraded _ h = v

  safe_restarting : (t : EventType) → Inv (handle cfg restarting (of_type t) d).1
  unfolding handle
  safe_restarting bootstrap_done = (to_healthy cfg).at d v
  safe_restarting timeout =
      (to_failed cfg).at _ (record { streak = v.streak; one_timer = v.one_timer })
  safe_restarting shutdown_requested = (to_failed cfg).at d v
  safe_restarting tunnel_died =
      (to_failed cfg).at _ (record { streak = v.streak; one_timer = v.one_timer })
  safe_restarting _ = v

  safe_stopped : (t : EventType) → Inv (handle cfg stopped (of_type t) d).1
  unfolding handle
  safe_stopped restart_requested = (to_bootstrapping cfg).at d v
  safe_stopped _ = v

handle-Inv :
    (cfg : Config) (s : State) (e : VpnEvent) (d : Daemon)
    → d.state ≡ some s
    → Inv d
    → Inv (handle cfg s e d).1
unfolding handle
handle-Inv cfg bootstrapping e d h v = safe_bootstrapping cfg d v e.payload e.type
handle-Inv cfg healthy e d h v = safe_healthy cfg d v e.payload e.type h
handle-Inv cfg degraded e d h v = safe_degraded cfg d v e.payload e.type h
handle-Inv cfg restarting e d h v = safe_restarting cfg d v e.payload e.type
handle-Inv cfg failed e d h v = v
handle-Inv cfg stopped e d h v = safe_stopped cfg d v e.payload e.type

Safe-handle_in :
    (cfg : Config) (o : Option State) (e : VpnEvent) (d : Daemon)
    → d.state ≡ o
    → Inv d
    → Inv (handle_in cfg o e d).1
unfolding handle_in
Safe-handle_in cfg none e d h v = v
Safe-handle_in cfg (some s) e d h v = handle-Inv cfg s e d h v

caught :
    (r : Outcome (Unit {0})) (d : Daemon)
    → Inv d
    → Inv (try_except (λ s. (r, s)) (λ _. pure tt) d).1
caught (ok a) d v = v
caught (raised e) d v = elim (Bool-cases (is_exception e)) [ inl c ↦ rw c v | inr c ↦ rw c v ]

pub process-Inv : (cfg : Config) (e : VpnEvent) (d : Daemon) → Inv d → Inv (process cfg e d).1
unfolding process
process-Inv cfg e d v =
    caught (handle_in cfg d.state e d).0 (handle_in cfg d.state e d).1
      (Safe-handle_in cfg d.state e d refl v)
