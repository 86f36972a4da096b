-- ===== src/Machine/Servers.antt =====
-- core/state_machine/machine.py: `_apply_server` and `_reload_config`.
pub mod Commit
use virtual_private_network.Prelude.{
  ℕ, String, Bool, true, false, Option, none, some, List, [], ◌∷◌, map, contains, length,
  if◌then◌else◌,
}
use virtual_private_network.Ports.Effect.{
  M, pure, raise, gets, modify, runtime_error, for_each, ◌>>=◌, ◌>>◌,
}
use virtual_private_network.Ports.Env.{Env, Provider, History, signal, kill, spawn}
use virtual_private_network.Routing.Rules
use virtual_private_network.Topology.Resolver.{resolve_all}
use virtual_private_network.Orchestrator.Bootstrap.{
  sing_box_command, start_tunnel, wait_for_socks_port, path_or,
}
use virtual_private_network.Switcher.{switch}
use virtual_private_network.World.{Daemon, Config, lift, with_profile, set_context}

abbrev pub kill_some : Option ℕ → M History (Unit {0})
kill_some none = pure tt
kill_some (some pid) = signal (kill pid)

-- `raise RuntimeError` unless the port opened. The wait does not run out of its fuel.
abbrev pub require_open : Option Bool → M History (Unit {0})
require_open (some true) = pure tt
require_open _ = raise (
    runtime_error
      "sing-box did not open the SOCKS listener within 30s; the profile was written but not applied")

-- `sorted(names)`: insertion sort by the order of the environment on texts.
module _ (before : String → String → Bool) where
  unfoldable pub insert_sorted : String → List String → List String
  insert_sorted x [] = x ∷ []
  insert_sorted x (y ∷ ys) =
      let rest = y ∷ insert_sorted x ys in if before y x then rest else x ∷ y ∷ ys

  unfoldable pub sorted : List String → List String
  unfolding insert_sorted
  sorted [] = []
  sorted (x ∷ xs) = insert_sorted x (sorted xs)

module _ (env : Env) (provider : Provider) (cfg : Config) where
  -- The rules of the server addresses are replaced as a whole.
  unfoldable pub replace_bypasses : M History (Unit {0})
  replace_bypasses = do
    server_ips ← resolve_all env (path_or cfg.profile_keys "")
    Rules.clear_server_bypasses
    for_each Rules.add_server_bypass (env.set_order server_ips)

  unfoldable pub restart_sing_box : M Daemon (Unit {0})
  restart_sing_box = do
    old ← gets (λ d. d.context.singbox)
    lift (kill_some old)
    pid ← lift (spawn env sing_box_command)
    set_context (λ c. record c { singbox = some pid })

  unfoldable pub apply_server : String → M Daemon String
  unfolding restart_sing_box replace_bypasses start_tunnel
  apply_server name = do
    result ← switch env provider cfg.config_dest name false
    restart_sing_box
    opened ← lift (wait_for_socks_port env cfg.socks5_port 30)
    lift (require_open opened)
    start_tunnel env "socks5://127.0.0.1:3066"
    lift replace_bypasses
    set_context (λ c. record c { active_server = some name })
    pure result

  -- `current if current in servers else servers[0]`; no server is named `None`.
  abbrev pub keep_or_first : Option String → String → List String → String
  keep_or_first none first servers = first
  keep_or_first (some current) first servers = if contains current servers then current else first

  abbrev pub chosen : Option String → List String → M Daemon String
  chosen current [] = raise (runtime_error "no servers found in the updated profile")
  chosen current (first ∷ more) = pure (keep_or_first current first (first ∷ more))

  -- `akonit_profile.reload()`
  unfoldable pub reload_profile : M Daemon (Unit {0})
  reload_profile = modify (λ d. record d { profile = provider.reload d.profile })

  -- The server and the number of servers.
  unfoldable pub reload_config : (String → String → Bool) → M Daemon (String × ℕ)
  unfolding sorted reload_profile
  reload_config before = do
    reload_profile
    infos ← with_profile provider.list_servers
    let servers = sorted before (map (λ s. s.name) infos)
    current ← gets (λ d. d.context.active_server)
    target ← chosen current servers
    tag ← apply_server target
    pure (target, length servers)
