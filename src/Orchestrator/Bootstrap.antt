-- ===== src/Orchestrator/Bootstrap.antt =====
-- core/orchestrator.py: `bootstrap`, cut at the two places where it gives way to other tasks, and
-- the wait for the SOCKS port.
pub mod SocksWait
use virtual_private_network.Prelude.{
  ℕ, zero, suc, ◌+◌, ◌*◌, String, ◌<>◌, Bool, true, false, not, Option, none, some, List, [], ◌∷◌,
  decimal, ltb, strip, is_empty, if◌then◌else◌,
}
use virtual_private_network.Ports.Command.{host, listeners}
use virtual_private_network.Ports.Effect.{M, pure, gets, modify, ◌>>=◌, ◌>>◌, for_each}
use virtual_private_network.Ports.Env.{
  Env, Provider, History, ServerInfo, Completed, spawn, run, sleep_ms,
}
use virtual_private_network.Routing.Rules
use virtual_private_network.Routing.Rules.{prio_dns_start, prio_lan_start}
use virtual_private_network.Routing.Table
use virtual_private_network.Routing.Tun
use virtual_private_network.Routing.Bypass.{Sources, load_all}
use virtual_private_network.Firewall.Nat
use virtual_private_network.Firewall.Mss
use virtual_private_network.Firewall.Sysctl
use virtual_private_network.Topology.Discovery.{Topology, discover}
use virtual_private_network.Topology.Resolver.{resolve_all}
use virtual_private_network.Tunnel.Tun2Socks
use virtual_private_network.Deployer.{deploy}
use virtual_private_network.Orchestrator.Teardown.{teardown_network}
use virtual_private_network.World.{
  Daemon, Config, Phase, routing, finishing, event, bootstrap_done, singbox_died, watch, ru_updater,
  lift, with_profile, set_context, post, create_task,
}

abbrev pub sing_box_command : List String
sing_box_command =
    "sing-box" ∷ "run" ∷ "-c" ∷ "/etc/sing-box/config.json" ∷ "-D" ∷ "/var/lib/sing-box" ∷ []

-- `for i, ip in enumerate(dns_servers)`: the priorities count up from the first.
unfoldable pub add_dns_from : ℕ → List String → M History (Unit {0})
add_dns_from priority [] = pure tt
add_dns_from priority (ip ∷ ips) = do
  Rules.add_dns_bypass ip priority
  add_dns_from (priority + 1) ips

unfoldable pub add_lan_from : ℕ → List String → M History (Unit {0})
add_lan_from priority [] = pure tt
add_lan_from priority (subnet ∷ subnets) = do
  Rules.add_lan_bypass subnet priority
  add_lan_from (priority + 1) subnets

-- `self._paths.get(key, default)`
abbrev pub path_or : Option String → String → String
path_or none default = default
path_or (some path) default = path

-- `servers[0].name if servers else "unknown"`
abbrev pub first_name : List ServerInfo → String
first_name [] = "unknown"
first_name (s ∷ _) = s.name

-- `self._tun2socks.start(...)`, which keeps the handle too
unfoldable pub start_tunnel : Env → String → M Daemon (Unit {0})
start_tunnel env proxy_url = do
  old ← gets (λ d. d.tun2socks)
  pid ← lift (Tun2Socks.start env old proxy_url)
  modify (λ d. record d { tun2socks = some pid })
  set_context (λ c. record c { tun2socks = some pid })

module _ (env : Env) (provider : Provider) (cfg : Config) where
  -- Steps 0 to 3. The result of the deployment is not looked at.
  unfoldable pub start_phase : M Daemon Phase
  start_phase = do
    lift (teardown_network cfg)
    deployed ← lift (deploy env provider cfg.profile_path cfg.config_dest)
    pid ← lift (spawn env sing_box_command)
    set_context (λ c. record c { singbox = some pid })
    create_task (watch pid (event singbox_died))
    topology ← lift (discover env cfg.topology_retries cfg.topology_delay)
    set_context
        (λ c. record c { gateway = some topology.gateway; interface = some topology.interface })
    pure (routing topology)

  abbrev pub sources : Daemon → Sources
  sources d = record {
    ru_cache_path = path_or cfg.ru_subnets "cache/ru-subnets.txt";
    bypass_domains = d.bypass_domains;
    bypass_subnets = cfg.bypass_subnets;
    vpn_domains = d.vpn_domains;
    vpn_wildcards = d.vpn_wildcards;
    vpn_subnets = d.vpn_subnets;
  }

  -- Step 4, on the history alone: the lists of the configuration are read first.
  unfoldable pub configure_routing : Sources → Topology → M History (Unit {0})
  unfolding add_dns_from add_lan_from
  configure_routing s topology = do
    Tun.create cfg.tun
    server_ips ← resolve_all env (path_or cfg.profile_keys "")
    for_each Rules.add_server_bypass (env.set_order server_ips)
    add_dns_from prio_dns_start cfg.dns_servers
    add_lan_from prio_lan_start cfg.lan_subnets
    routes ← load_all env s topology.gateway topology.interface cfg.table_id
    loaded ← Table.load_batch env routes cfg.table_id
    Rules.add_catchall cfg.table_id
    Table.set_default cfg.table_id
    Rules.add_torrent_bypass

  unfoldable pub routing_phase : Topology → M Daemon Phase
  routing_phase topology = do
    s ← gets sources
    lift (configure_routing s topology)
    pure (finishing topology)

  -- Step 5
  unfoldable pub apply_firewall : Topology → M History (Unit {0})
  apply_firewall topology = do
    Nat.apply env cfg.chain_name topology.interface
    Mss.apply cfg.mss_value
    Sysctl.enable_ip_forward
    Sysctl.disable_ipv6_wan

  -- Steps 5 to 7
  unfoldable pub finishing_phase : Topology → M Daemon (Unit {0})
  unfolding apply_firewall start_tunnel
  finishing_phase topology = do
    lift (apply_firewall topology)
    start_tunnel env ("socks5://" <> cfg.socks5_host <> ":" <> decimal cfg.socks5_port)
    now ← gets (λ d. env.time d.history)
    set_context (λ c. record c { startup_time = now })
    servers ← with_profile provider.list_servers
    set_context (λ c. record c { active_server = some (first_name servers) })
    create_task ru_updater
    post (event bootstrap_done)

abbrev listening : Option Completed → Bool
listening none = false
listening (some r) = elim r.stdout [ none ↦ false | some out ↦ not (is_empty (strip out)) ]

module _ (env : Env) (port : ℕ) where
  -- The loop, on fuel; `none` means that the fuel ran out.
  unfoldable pub wait_until : ℕ → ℕ → M History (Option Bool)
  wait_until deadline zero h = pure none h
  wait_until deadline (suc fuel) h =
      let probe = run env (host (listeners port)) h in
      let later = (do sleep_ms 250; wait_until deadline fuel) probe.1 in
      if ltb (env.monotonic h) deadline
      then (if listening (env.run h (host (listeners port)))
          then pure (some true) probe.1
          else later)
      else pure (some false) h

  -- Four rounds a second, and one that finds the time over.
  unfoldable pub wait_for_socks_port : ℕ → M History (Option Bool)
  unfolding wait_until
  wait_for_socks_port seconds h = wait_until (env.monotonic h + 1000 * seconds) (4 * seconds + 1) h
