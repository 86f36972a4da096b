-- ===== src/Routing/Rules.antt =====
-- core/routing/rule_manager.py: the priorities and the methods of `RuleManager`.
use virtual_private_network.Prelude.{ℕ, String, range}
use virtual_private_network.Ports.Command.{
  rule, del_to, add_to, add_lan, del_mark, add_mark, add_catchall as catchall, clear,
}
use virtual_private_network.Ports.Effect.{M, ◌>>◌, for_each}
use virtual_private_network.Ports.Env.{History, exec}

abbrev pub prio_server_ips : ℕ
prio_server_ips = 1

abbrev pub prio_dns_start : ℕ
prio_dns_start = 3

abbrev pub prio_dns_end : ℕ
prio_dns_end = 6

abbrev pub prio_lan_start : ℕ
prio_lan_start = 10

abbrev pub prio_lan_end : ℕ
prio_lan_end = 12

abbrev pub prio_torrent : ℕ
prio_torrent = 20

abbrev pub prio_catchall : ℕ
prio_catchall = 30

unfoldable pub add_server_bypass : String → M History (Unit {0})
add_server_bypass ip = do exec (rule (del_to ip)); exec (rule (add_to ip prio_server_ips))

unfoldable pub add_dns_bypass : String → ℕ → M History (Unit {0})
add_dns_bypass ip priority = do exec (rule (del_to ip)); exec (rule (add_to ip priority))

unfoldable pub add_lan_bypass : String → ℕ → M History (Unit {0})
add_lan_bypass subnet priority = exec (rule (add_lan subnet priority))

unfoldable pub add_torrent_bypass : M History (Unit {0})
add_torrent_bypass = do exec (rule (del_mark prio_torrent)); exec (rule (add_mark prio_torrent))

unfoldable pub add_catchall : String → M History (Unit {0})
add_catchall table_id = exec (rule (catchall table_id prio_catchall))

-- `for p in range(1, 31)`
unfoldable pub clear_all : M History (Unit {0})
unfolding for_each range
clear_all = for_each (λ p. exec (rule (clear p))) (range 1 30)

unfoldable pub clear_server_bypasses : M History (Unit {0})
clear_server_bypasses = exec (rule (clear 1))
