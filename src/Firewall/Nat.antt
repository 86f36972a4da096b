-- ===== src/Firewall/Nat.antt =====
-- core/firewall/nat.py: the NAT chain and its hook in POSTROUTING.
use virtual_private_network.Ports.Command.{
  firewall, nat_new, nat_empty, nat_masquerade, nat_list, nat_hook, nat_unhook, nat_flush,
  nat_delete,
}
use virtual_private_network.Ports.Effect.{M, pure, ◌>>=◌, ◌>>◌}
use virtual_private_network.Ports.Env.{Env, History, exec, run, Completed}
use virtual_private_network.Prelude.{String, Option, none, some, contains_text, if◌then◌else◌}

-- `result.stdout if result else ""`; the output is captured, so it is a text.
abbrev pub captured : Option Completed → String
captured none = ""
captured (some r) = elim r.stdout [ none ↦ "" | some s ↦ s ]

-- The hook goes in unless POSTROUTING names the chain already.
unfoldable pub hook : String → String → M History (Unit {0})
hook chain_name current =
    if contains_text chain_name current then pure tt else exec (firewall (nat_hook chain_name))

unfoldable pub apply : Env → String → String → M History (Unit {0})
unfolding hook
apply env chain_name wan_interface = do
  exec (firewall (nat_new chain_name))
  exec (firewall (nat_empty chain_name))
  exec (firewall (nat_masquerade chain_name "tun0"))
  exec (firewall (nat_masquerade chain_name wan_interface))
  result ← run env (firewall nat_list)
  hook chain_name (captured result)

unfoldable pub remove : String → M History (Unit {0})
remove chain_name = do
  exec (firewall (nat_unhook chain_name))
  exec (firewall (nat_flush chain_name))
  exec (firewall (nat_delete chain_name))
