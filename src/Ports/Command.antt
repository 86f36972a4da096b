-- ===== src/Ports/Command.antt =====
-- The shell commands that the daemon issues, one constructor for each command text of the source,
-- and the texts themselves. A constructor's arguments are what the source puts in by `%`.
use virtual_private_network.Prelude.{ℕ, String, ◌<>◌, decimal}

-- core/routing/rule_manager.py
pub data RuleCommand : Type 0 where
  del_to : String → RuleCommand
  add_to : String → ℕ → RuleCommand
  add_lan : String → ℕ → RuleCommand
  del_mark : ℕ → RuleCommand
  add_mark : ℕ → RuleCommand
  add_catchall : String → ℕ → RuleCommand
  clear : ℕ → RuleCommand

-- core/routing/tun_interface.py, and the first line of the `start` method's cleanup
pub data LinkCommand : Type 0 where
  tuntap_add : LinkCommand
  addr_add : String → LinkCommand
  link_up : ℕ → LinkCommand
  link_down : LinkCommand
  tuntap_del : LinkCommand
  link_del : LinkCommand

-- core/routing/route_table.py and the `route` methods of the machine
pub data RouteCommand : Type 0 where
  batch : String → RouteCommand
  add_default : String → RouteCommand
  flush : String → RouteCommand
  add_route : String → String → RouteCommand
  del_route : String → String → RouteCommand

-- core/firewall
pub data FirewallCommand : Type 0 where
  nat_new : String → FirewallCommand
  nat_empty : String → FirewallCommand
  nat_masquerade : String → String → FirewallCommand
  nat_list : FirewallCommand
  nat_hook : String → FirewallCommand
  nat_unhook : String → FirewallCommand
  nat_flush : String → FirewallCommand
  nat_delete : String → FirewallCommand
  mss_add : ℕ → FirewallCommand
  mss_del : ℕ → FirewallCommand
  forward_on : FirewallCommand
  ipv6_off : FirewallCommand
  ipv6_lo_on : FirewallCommand
  ipv6_on : FirewallCommand

-- process control and queries of the host
pub data HostCommand : Type 0 where
  pkill : String → HostCommand
  default_route : HostCommand
  getent : String → HostCommand
  listeners : ℕ → HostCommand
  curl : ℕ → String → String → HostCommand
  speedtest : String → HostCommand
  tunnel_probe : HostCommand
  download : String → HostCommand

pub data Command : Type 0 where
  rule : RuleCommand → Command
  link : LinkCommand → Command
  route : RouteCommand → Command
  firewall : FirewallCommand → Command
  host : HostCommand → Command

abbrev quiet : String
quiet = " 2>/dev/null || true"

unfoldable pub rule_text : RuleCommand → String
rule_text (del_to ip) = "ip rule del to " <> ip <> quiet
rule_text (add_to ip p) = "ip rule add to " <> ip <> " table main priority " <> decimal p
rule_text (add_lan net p) =
    "ip rule add to " <> net <> " table main priority " <> decimal p <> quiet
rule_text (del_mark p) = "ip rule del fwmark 1 table main priority " <> decimal p <> quiet
rule_text (add_mark p) = "ip rule add fwmark 1 table main priority " <> decimal p
rule_text (add_catchall t p) =
    "ip rule add from all table " <> t <> " priority " <> decimal p <> quiet
rule_text (clear p) = "while ip rule del priority " <> decimal p <> " 2>/dev/null; do :; done"

unfoldable pub link_text : LinkCommand → String
link_text tuntap_add = "ip tuntap add mode tun dev tun0" <> quiet
link_text (addr_add a) = "ip addr add " <> a <> " dev tun0" <> quiet
link_text (link_up mtu) = "ip link set dev tun0 mtu " <> decimal mtu <> " up"
link_text link_down = "ip link set dev tun0 down" <> quiet
link_text tuntap_del = "ip tuntap del mode tun dev tun0" <> quiet
link_text link_del = "ip link del tun0" <> quiet

unfoldable pub route_text : RouteCommand → String
route_text (batch path) = "ip -force -batch " <> path <> " 2>/dev/null"
route_text (add_default t) = "ip route add default dev tun0 table " <> t <> quiet
route_text (flush t) = "ip route flush table " <> t <> quiet
route_text (add_route net t) = "ip route add " <> net <> " dev tun0 table " <> t <> quiet
route_text (del_route net t) = "ip route del " <> net <> " table " <> t <> quiet

abbrev mss_rule : ℕ → String
mss_rule v = " FORWARD -p tcp --tcp-flags SYN,RST SYN -j TCPMSS --set-mss " <> decimal v <> quiet

unfoldable pub firewall_text : FirewallCommand → String
firewall_text (nat_new c) = "iptables -t nat -N " <> c <> quiet
firewall_text (nat_empty c) = "iptables -t nat -F " <> c
firewall_text (nat_masquerade c dev) =
    "iptables -t nat -A " <> c <> " -o " <> dev <> " -j MASQUERADE"
firewall_text nat_list = "iptables -t nat -S POSTROUTING"
firewall_text (nat_hook c) = "iptables -t nat -I POSTROUTING 1 -j " <> c
firewall_text (nat_unhook c) = "iptables -t nat -D POSTROUTING -j " <> c <> quiet
firewall_text (nat_flush c) = "iptables -t nat -F " <> c <> quiet
firewall_text (nat_delete c) = "iptables -t nat -X " <> c <> quiet
firewall_text (mss_add v) = "iptables -t mangle -A" <> mss_rule v
firewall_text (mss_del v) = "iptables -t mangle -D" <> mss_rule v
firewall_text forward_on = "sysctl -w net.ipv4.ip_forward=1 >/dev/null"
firewall_text ipv6_off = "sysctl -w net.ipv6.conf.all.disable_ipv6=1 >/dev/null"
firewall_text ipv6_lo_on = "sysctl -w net.ipv6.conf.lo.disable_ipv6=0 >/dev/null"
firewall_text ipv6_on = "sysctl -w net.ipv6.conf.all.disable_ipv6=0 >/dev/null"

unfoldable pub host_text : HostCommand → String
host_text (pkill name) = "pkill " <> name <> quiet
host_text default_route = "ip -4 route show default"
host_text (getent name) = "getent ahosts " <> name
host_text (listeners port) = "ss -ltnH 'sport = :" <> decimal port <> "' 2>/dev/null"
host_text (curl seconds agent url) =
    "curl -sI --max-time " <> decimal seconds <> " -A '" <> agent <> "' " <> url
host_text (speedtest binary) = binary <> " -f json --accept-license --accept-gdpr --progress=no"
host_text tunnel_probe = "curl -s -m 8 -o /dev/null -w '%{http_code}' https://ifconfig.me/ip"
host_text (download quoted) = "curl -fsSL -m 60 " <> quoted

-- What `ShellPort.run` is given.
unfoldable pub text : Command → String
unfolding rule_text link_text route_text firewall_text host_text
text (rule c) = rule_text c
text (link c) = link_text c
text (route c) = route_text c
text (firewall c) = firewall_text c
text (host c) = host_text c
