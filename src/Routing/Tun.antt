-- ===== src/Routing/Tun.antt =====
-- core/routing/tun_interface.py: the life of tun0.
use virtual_private_network.Prelude.{ℕ, String}
use virtual_private_network.Ports.Command.{
  link, tuntap_add, addr_add, link_up, link_down, tuntap_del,
}
use virtual_private_network.Ports.Effect.{M, ◌>>◌}
use virtual_private_network.Ports.Env.{History, exec}

pub record TunInterface : Type 0 where
  pub address : String
  pub mtu : ℕ

unfoldable pub create : TunInterface → M History (Unit {0})
create tun = do
  exec (link tuntap_add)
  exec (link (addr_add tun.address))
  exec (link (link_up tun.mtu))

unfoldable pub destroy : M History (Unit {0})
destroy = do exec (link link_down); exec (link tuntap_del)
