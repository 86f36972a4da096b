-- ===== src/World.antt =====
-- The mutable state of the daemon: core/events.py, core/state_machine/context.py, the fields of
-- `VpnStateMachine`, the shared configuration lists, and the tasks of the event loop.
use virtual_private_network.Prelude.{ℕ, String, Option, none, List, [], ◌∷◌, ◌++◌}
use virtual_private_network.Ports.Effect.{M, ok}
use virtual_private_network.Ports.Env.{History}
use virtual_private_network.Ports.Json.{Json}
use virtual_private_network.Routing.Tun.{TunInterface}
use virtual_private_network.Topology.Discovery.{Topology}

pub data EventType : Type 0 where
  bootstrap_done health_ok health_fail tunnel_died singbox_died : EventType
  shutdown_requested server_change_requested timeout restart_requested : EventType

pub record VpnEvent : Type 0 where
  pub type : EventType
  pub payload : List (String × String)

abbrev pub event : EventType → VpnEvent
event t = record { type = t; payload = [] }

-- The subclasses of `VpnState`.
pub data State : Type 0 where
  bootstrapping healthy degraded restarting failed stopped : State

-- A process handle is the process's id.
pub record RuntimeContext : Type 0 where
  pub gateway : Option String
  pub interface : Option String
  pub tun2socks : Option ℕ
  pub singbox : Option ℕ
  pub fail_streak : ℕ
  pub recovery_count : ℕ
  pub startup_time : ℕ
  pub active_server : Option String
  pub last_error : Option String
  pub route_ips : List (String × List String)
  pub target_server : Option String

-- How far a bootstrap has come: it gives way to other tasks twice.
pub data Phase : Type 0 where
  starting : Phase
  routing : Topology → Phase
  finishing : Topology → Phase

-- The tasks of the event loop, less the one that handles events.
pub data Task : Type 0 where
  on_timeout : ℕ → ℕ → Task
  bootstrap : Phase → Task
  watch : ℕ → VpnEvent → Task
  ru_updater : Task

-- `timer` is the `_timeout_task` of the current state object, `tun2socks` the handle that
-- `Tun2SocksManager` keeps, `profile` what the provider keeps.
pub record Daemon : Type 0 where
  pub context : RuntimeContext
  pub queue : List VpnEvent
  pub state : Option State
  pub timer : Option ℕ
  pub tasks : List Task
  pub next_task : ℕ
  pub tun2socks : Option ℕ
  pub profile : Option Json
  pub bypass_domains : List String
  pub vpn_domains : List String
  pub vpn_wildcards : List String
  pub vpn_subnets : List String
  pub history : History

-- The configuration that nothing changes.
pub record Config : Type 0 where
  pub table_id : String
  pub chain_name : String
  pub tun : TunInterface
  pub mss_value : ℕ
  pub dns_servers : List String
  pub lan_subnets : List String
  pub bypass_subnets : List String
  pub socks5_host : String
  pub socks5_port : ℕ
  pub profile_path : String
  pub config_dest : String
  pub profile_keys : Option String
  pub ru_subnets : Option String
  pub topology_retries : ℕ
  pub topology_delay : ℕ

module _ {A : Type 0} where
  -- A method of a component, run by the daemon.
  abbrev pub lift : M History A → M Daemon A
  lift m d = let (r, h) = m d.history in (r, record d { history = h })

  abbrev pub with_profile : (History → M (Option Json) A) → M Daemon A
  with_profile m d = let (r, p) = m d.history d.profile in (r, record d { profile = p })

abbrev pub set_context : (RuntimeContext → RuntimeContext) → M Daemon (Unit {0})
set_context f d = (ok tt, record d { context = f d.context })

-- `await self._event_queue.put(event)`; the queue has no bound.
abbrev pub post : VpnEvent → M Daemon (Unit {0})
post e d = (ok tt, record d { queue = d.queue ++ e ∷ [] })

abbrev pub create_task : Task → M Daemon (Unit {0})
create_task t d = (ok tt, record d { tasks = d.tasks ++ t ∷ [] })

abbrev pub initial_context : RuntimeContext
initial_context = record {
  gateway = none;
  interface = none;
  tun2socks = none;
  singbox = none;
  fail_streak = 0;
  recovery_count = 0;
  startup_time = 0;
  active_server = none;
  last_error = none;
  route_ips = [];
  target_server = none;
}
