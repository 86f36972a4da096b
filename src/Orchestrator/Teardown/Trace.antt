-- ===== src/Orchestrator/Teardown/Trace.antt =====
-- What the teardown does, command by command.
use virtual_private_network.Prelude.{ℕ, ◌≡◌, refl, List, [], ◌∷◌, range, String}
use virtual_private_network.Ports.Command.{
  rule, link, route, firewall, host, pkill, link_down, tuntap_del, flush, clear, nat_unhook,
  nat_flush, nat_delete, mss_del, ipv6_on,
}
use virtual_private_network.Ports.Effect.{ok}
use virtual_private_network.Ports.Env.{History, shell, exec}
use virtual_private_network.Routing.Rules.{clear_all}
use virtual_private_network.Routing.Table
use virtual_private_network.Routing.Tun.{destroy}
use virtual_private_network.Firewall.Nat
use virtual_private_network.Firewall.Mss
use virtual_private_network.Firewall.Sysctl.{restore_ipv6}
use virtual_private_network.Orchestrator.Teardown.{teardown_network}
use virtual_private_network.World.{Config}

-- The priorities from `p` on, cleared one after the other.
abbrev pub clears : List ℕ → History → History
clears [] h = h
clears (p ∷ ps) h = clears ps (shell (rule (clear p)) ∷ h)

abbrev pub firewall_removed : String → ℕ → History → History
firewall_removed chain_name mss h =
    shell (firewall (mss_del mss))
    ∷ shell (firewall (nat_delete chain_name))
    ∷ shell (firewall (nat_flush chain_name))
    ∷ shell (firewall (nat_unhook chain_name))
    ∷ h

-- The history after the configuration of the network has been taken back.
unfoldable pub unwound : Config → History → History
unfolding range
unwound cfg h =
    shell (firewall ipv6_on)
    ∷ firewall_removed cfg.chain_name cfg.mss_value (
        clears (range 1 30) (
          shell (route (flush cfg.table_id))
          ∷ shell (link tuntap_del)
          ∷ shell (link link_down)
          ∷ h))

-- The history after a teardown, which first ends the programs.
abbrev pub torn_down : Config → History → History
torn_down cfg h =
    unwound cfg (shell (host (pkill "tun2socks")) ∷ shell (host (pkill "sing-box")) ∷ h)

-- The teardown never raises, and does the same whatever the commands answer.
pub teardown_network_lem :
    (cfg : Config) (h : History) → teardown_network cfg h ≡ (ok tt, torn_down cfg h)
unfolding teardown_network unwound destroy Table.flush clear_all Nat.remove Mss.remove restore_ipv6
    exec
teardown_network_lem cfg h = refl
