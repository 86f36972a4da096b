-- ===== src/Firewall/Sysctl.antt =====
-- core/firewall/sysctl.py: forwarding and IPv6.
use virtual_private_network.Ports.Command.{firewall, forward_on, ipv6_off, ipv6_lo_on, ipv6_on}
use virtual_private_network.Ports.Effect.{M, ◌>>◌}
use virtual_private_network.Ports.Env.{History, exec}

unfoldable pub enable_ip_forward : M History (Unit {0})
enable_ip_forward = exec (firewall forward_on)

unfoldable pub disable_ipv6_wan : M History (Unit {0})
disable_ipv6_wan = do exec (firewall ipv6_off); exec (firewall ipv6_lo_on)

unfoldable pub restore_ipv6 : M History (Unit {0})
restore_ipv6 = exec (firewall ipv6_on)
