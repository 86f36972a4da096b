-- ===== src/Machine/Power.antt =====
-- core/state_machine/machine.py, `_dispatch`: the methods `stop` and `start`.
pub mod Stops
use virtual_private_network.Ports.Command.{host, pkill, link, link_del, route, flush}
use virtual_private_network.Ports.Effect.{M, pure, gets, ◌>>=◌, ◌>>◌}
use virtual_private_network.Ports.Env.{exec}
use virtual_private_network.Ports.Json.{Json, str}
use virtual_private_network.Routing.Rules
use virtual_private_network.Routing.Table
use virtual_private_network.Routing.Tun
use virtual_private_network.Firewall.Nat
use virtual_private_network.Firewall.Mss
use virtual_private_network.Firewall.Sysctl
use virtual_private_network.Machine.Servers.{kill_some}
use virtual_private_network.Machine.States.{transition_to}
use virtual_private_network.World.{Daemon, Config, bootstrapping, stopped, lift}
use virtual_private_network.Machine.Replies.{single}

module _ (cfg : Config) where
  unfoldable pub stop : M Daemon Json
  stop = do
    singbox ← gets (λ d. d.context.singbox)
    lift (kill_some singbox)
    tun2socks ← gets (λ d. d.context.tun2socks)
    lift (kill_some tun2socks)
    lift Tun.destroy
    lift (Table.flush cfg.table_id)
    lift Rules.clear_all
    lift (Nat.remove cfg.chain_name)
    lift (Mss.remove cfg.mss_value)
    lift Sysctl.restore_ipv6
    transition_to cfg stopped
    pure (single "status" (str "stopped"))

  unfoldable pub start : M Daemon Json
  start = do
    lift (exec (link link_del))
    lift (exec (route (flush cfg.table_id)))
    lift (exec (host (pkill "sing-box")))
    lift (exec (host (pkill "tun2socks")))
    lift (Nat.remove cfg.chain_name)
    lift (Mss.remove cfg.mss_value)
    lift Rules.clear_all
    transition_to cfg bootstrapping
    pure (single "status" (str "starting"))
