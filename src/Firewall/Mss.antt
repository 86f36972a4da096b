-- ===== src/Firewall/Mss.antt =====
-- core/firewall/mss.py: the MSS clamp.
use virtual_private_network.Ports.Command.{firewall, mss_add, mss_del}
use virtual_private_network.Ports.Effect.{M}
use virtual_private_network.Ports.Env.{History, exec}
use virtual_private_network.Prelude.{ℕ}

unfoldable pub apply : ℕ → M History (Unit {0})
apply value = exec (firewall (mss_add value))

unfoldable pub remove : ℕ → M History (Unit {0})
remove value = exec (firewall (mss_del value))
