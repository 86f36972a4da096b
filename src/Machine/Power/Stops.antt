-- ===== src/Machine/Power/Stops.antt =====
-- The method `stop` from any state.
use virtual_private_network.Prelude.{◌≡◌, refl, Option, none, some, ◌∷◌, ℕ}
use virtual_private_network.Ports.Effect.{ok}
use virtual_private_network.Ports.Env.{History, kill, exec, signal}
use virtual_private_network.Ports.Json.{str}
use virtual_private_network.Routing.Rules.{clear_all}
use virtual_private_network.Routing.Table
use virtual_private_network.Routing.Tun.{destroy}
use virtual_private_network.Firewall.Nat
use virtual_private_network.Firewall.Mss
use virtual_private_network.Firewall.Sysctl.{restore_ipv6}
use virtual_private_network.Orchestrator.Teardown.Kernel.{Kernel, IsLinux, after}
use virtual_private_network.Orchestrator.Teardown.Trace.{unwound}
use virtual_private_network.Orchestrator.Teardown.Restores.{Restored, unwound-Restored}
use virtual_private_network.Machine.States.Transition.{transition_to_lem, tasks_left}
use virtual_private_network.Machine.Replies.{single}
use virtual_private_network.Machine.Power.{stop}
use virtual_private_network.World.{Daemon, Config, stopped}

-- A process is killed where there is a handle.
abbrev pub killed : Option ℕ → History → History
killed none h = h
killed (some pid) h = kill pid ∷ h

-- The daemon after `stop`: the old timer is cancelled, and the network is taken back.
abbrev pub halted : Config → Daemon → Daemon
halted cfg d = record d {
  tasks = tasks_left d.state d.timer d.tasks;
  state = some stopped;
  timer = none;
  history = unwound cfg (killed d.context.tun2socks (killed d.context.singbox d.history));
}

stop_lem :
    (cfg : Config) (d : Daemon) (s t : Option ℕ)
    → d.context.singbox ≡ s
    → d.context.tun2socks ≡ t
    → stop cfg d ≡ (ok (single "status" (str "stopped")), halted cfg d)
unfolding stop unwound destroy Table.flush clear_all Nat.remove Mss.remove restore_ipv6 exec signal
stop_lem cfg d none none p q = rw (p, q) (simp transition_to_lem refl)
stop_lem cfg d none (some t) p q = rw (p, q) (simp transition_to_lem refl)
stop_lem cfg d (some s) none p q = rw (p, q) (simp transition_to_lem refl)
stop_lem cfg d (some s) (some t) p q = rw (p, q) (simp transition_to_lem refl)

module _ (K : Kernel) (L : IsLinux K) (start : K.Host) where
  after-killed : (o : Option ℕ) (h : History) → after K start (killed o h) ≡ after K start h
  after-killed none h = refl
  after-killed (some pid) h = refl

  -- In whatever state and whatever the commands answer: `stop` replies without raising and leaves
  -- the daemon in STOPPED without a timer, and, on a host whose kernel obeys the laws of `IsLinux`,
  -- the network as a teardown does.
  pub stop-Restored :
      (cfg : Config) (d : Daemon)
      → let (r, d') = stop cfg d in
        (r ≡ ok (single "status" (str "stopped")))
        × (d'.state ≡ some stopped)
        × (d'.timer ≡ none)
        × Restored K cfg (after K start d.history) (after K start d'.history)
  stop-Restored cfg d =
      let same = after-killed d.context.singbox d.history in
      let also = after-killed d.context.tun2socks (killed d.context.singbox d.history) in
      let r =
        unwound-Restored K L start cfg
          (killed d.context.tun2socks (killed d.context.singbox d.history)) in
      rw (stop_lem cfg d _ _ refl refl) (refl, refl, refl, (rw (also, same) at r))
