-- ===== src/Orchestrator/Teardown.antt =====
-- core/orchestrator.py, `teardown_network`.
pub mod Trace
pub mod Kernel
pub mod Counts
pub mod Restores
use virtual_private_network.Ports.Command.{host, pkill}
use virtual_private_network.Ports.Effect.{M, ◌>>◌}
use virtual_private_network.Ports.Env.{History, exec}
use virtual_private_network.Routing.Rules
use virtual_private_network.Routing.Table
use virtual_private_network.Routing.Tun
use virtual_private_network.Firewall.Nat
use virtual_private_network.Firewall.Mss
use virtual_private_network.Firewall.Sysctl
use virtual_private_network.World.{Config}

-- No answer of the world is looked at.
unfoldable pub teardown_network : Config → M History (Unit {0})
teardown_network cfg = do
  exec (host (pkill "sing-box"))
  exec (host (pkill "tun2socks"))
  Tun.destroy
  Table.flush cfg.table_id
  Rules.clear_all
  Nat.remove cfg.chain_name
  Mss.remove cfg.mss_value
  Sysctl.restore_ipv6
