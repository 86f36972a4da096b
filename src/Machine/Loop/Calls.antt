-- ===== src/Machine/Loop/Calls.antt =====
-- The bootstrap, the switch of servers and the methods on lists keep the frame.
use virtual_private_network.Prelude.{
  String, ◌≡◌, Option, none, some, List, [], ◌∷◌, Bool, true, false,
}
use virtual_private_network.Ports.Effect.{M}
use virtual_private_network.Ports.Env.{Env, Provider}
use virtual_private_network.Ports.Json.{Json}
use virtual_private_network.Orchestrator.Bootstrap.{
  start_phase, routing_phase, finishing_phase, start_tunnel,
}
use virtual_private_network.Switcher.{switch}
use virtual_private_network.Machine.Servers.{apply_server, chosen, reload_profile, reload_config}
use virtual_private_network.Machine.Replies.{Params, required, removed, param}
use virtual_private_network.Machine.Lists.{
  status, bypass_list, bypass_add, bypass_remove, route_list, add_domain, add_wildcard, add_subnet,
  remove_domain, remove_wildcard, remove_subnet, by_key,
}
use virtual_private_network.Machine.Rpc.{
  Method, server_list, server_current, server_change, config_reload, status_of, bypass_list_of,
  bypass_add_to, bypass_remove_from, stop_vpn, start_vpn, route_list_of, route_add, route_remove,
  restart, unknown, dispatch_to,
}
use virtual_private_network.Machine.Loop.{run_phase, run_bootstrap}
use virtual_private_network.Machine.Loop.Frame.{Frames, Frames-bind, Frames-profile, frame_rules}
use virtual_private_network.World.{Daemon, Config, Phase, starting, routing, finishing}

Frames-required : (k : String) (o : Option String) → Frames (required k o)
Frames-required k none = search frame_rules
Frames-required k (some v) = search frame_rules

Frames-removed : (o : Option (List String)) → Frames (removed o)
Frames-removed none = search frame_rules
Frames-removed (some v) = search frame_rules

module _ (env : Env) where
  start_tunnel-Frames : (proxy_url : String) → Frames (start_tunnel env proxy_url)
  unfolding start_tunnel
  start_tunnel-Frames proxy_url = search frame_rules depth 9

module _ (env : Env) (provider : Provider) (cfg : Config) where
  run_phase-Frames : (phase : Phase) → Frames (run_phase env provider cfg phase)
  unfolding run_phase start_phase routing_phase finishing_phase
  run_phase-Frames starting = search frame_rules depth 14
  run_phase-Frames (routing topology) = search frame_rules depth 14
  run_phase-Frames (finishing topology) = search (frame_rules, start_tunnel-Frames) depth 14

  -- A stretch of the bootstrap, also one that crashes.
  pub run_bootstrap-Frames : (phase : Phase) → Frames (run_bootstrap env provider cfg phase)
  unfolding run_bootstrap
  run_bootstrap-Frames phase = search (frame_rules, run_phase-Frames phase)

  switch-Frames : (name : String) → Frames (switch env provider cfg.config_dest name false)
  unfolding switch
  switch-Frames name = search frame_rules depth 9

  apply_server-Frames : (name : String) → Frames (apply_server env provider cfg name)
  unfolding apply_server
  apply_server-Frames name = search (frame_rules, switch-Frames, start_tunnel-Frames) depth 20

  chosen-Frames :
      (current : Option String) (l : List String) → Frames (chosen env provider cfg current l)
  chosen-Frames current [] = search frame_rules
  chosen-Frames current (s ∷ ss) = search frame_rules

  reload_profile-Frames : Frames (reload_profile env provider cfg)
  unfolding reload_profile
  reload_profile-Frames = Frames-profile provider.reload

  reload_config-Frames :
      (before : String → String → Bool) → Frames (reload_config env provider cfg before)
  unfolding reload_config
  reload_config-Frames before =
      search (frame_rules, reload_profile-Frames, chosen-Frames, apply_server-Frames) depth 12

bypass_add-Frames : (params : Params) → Frames (bypass_add params)
unfolding bypass_add
bypass_add-Frames params = search (frame_rules, Frames-required) depth 9

bypass_remove-Frames : (params : Params) → Frames (bypass_remove params)
unfolding bypass_remove
bypass_remove-Frames params = search (frame_rules, Frames-required, Frames-removed) depth 9

add_wildcard-Frames : (w : String) → Frames (add_wildcard w)
unfolding add_wildcard
add_wildcard-Frames w = search frame_rules depth 9

remove_wildcard-Frames : (w : String) → Frames (remove_wildcard w)
unfolding remove_wildcard
remove_wildcard-Frames w = search (frame_rules, Frames-removed) depth 9

module _ (cfg : Config) where
  add_subnet-Frames : (net : String) → Frames (add_subnet cfg net)
  unfolding add_subnet
  add_subnet-Frames net = search frame_rules depth 9

  remove_subnet-Frames : (net : String) → Frames (remove_subnet cfg net)
  unfolding remove_subnet
  remove_subnet-Frames net = search (frame_rules, Frames-removed) depth 9

  remove_domain-Frames : (domain : String) → Frames (remove_domain cfg domain)
  unfolding remove_domain
  remove_domain-Frames domain = search (frame_rules, Frames-removed) depth 9

  add_domain-Frames : (env : Env) (domain : String) → Frames (add_domain env cfg domain)
  unfolding add_domain
  add_domain-Frames env domain = search frame_rules depth 9

by_key-Frames :
    (params : Params) (f g k : String → M Daemon Json) (m : M Daemon Json)
    → ((v : String) → Frames (f v))
    → ((v : String) → Frames (g v))
    → ((v : String) → Frames (k v))
    → Frames m
    → Frames (by_key params f g k m)
unfolding by_key
by_key-Frames params f g k m p q r t =
    by_domain (param "domain" params) (param "wildcard" params) (param "subnet" params)
  where
    by_domain :
        (o o' o'' : Option String)
        → Frames (elim o as (λ _. M Daemon Json) [
          | some v ↦ f v
          | none ↦ elim o' as (λ _. M Daemon Json) [
            | some v ↦ g v
            | none ↦ elim o'' as (λ _. M Daemon Json) [ some v ↦ k v | none ↦ m ]
          ]
        ])
    by_domain (some v) o' o'' = p v
    by_domain none (some v) o'' = q v
    by_domain none none (some v) = r v
    by_domain none none none = t

-- The methods that do not move the state machine.
abbrev pub moves : Method → Bool
moves stop_vpn = true
moves start_vpn = true
moves _ = false

module _ (env : Env) (provider : Provider) (cfg : Config) (before : String → String → Bool) where
  pub dispatch_to-Frames :
      (c : Method) (m : String) (params : Params)
      → moves c ≡ false
      → Frames (dispatch_to env provider cfg before c m params)
  unfolding dispatch_to status bypass_list route_list
  dispatch_to-Frames server_list m params h = search frame_rules
  dispatch_to-Frames server_current m params h = search frame_rules
  dispatch_to-Frames server_change m params h =
      search (frame_rules, Frames-required, apply_server-Frames)
  dispatch_to-Frames config_reload m params h =
      Frames-bind _ _ (reload_config-Frames env provider cfg before) (λ r. search frame_rules)
  dispatch_to-Frames status_of m params h = search frame_rules
  dispatch_to-Frames bypass_list_of m params h = search frame_rules
  dispatch_to-Frames bypass_add_to m params h = bypass_add-Frames params
  dispatch_to-Frames bypass_remove_from m params h = bypass_remove-Frames params
  dispatch_to-Frames stop_vpn m params h = cc
  dispatch_to-Frames start_vpn m params h = cc
  dispatch_to-Frames route_list_of m params h = search frame_rules
  dispatch_to-Frames route_add m params h =
      by_key-Frames params _ _ _ _ (add_domain-Frames cfg env) add_wildcard-Frames
        (add_subnet-Frames cfg) (search frame_rules)
  dispatch_to-Frames route_remove m params h =
      by_key-Frames params _ _ _ _ (remove_domain-Frames cfg) remove_wildcard-Frames
        (remove_subnet-Frames cfg) (search frame_rules)
  dispatch_to-Frames restart m params h = search frame_rules
  dispatch_to-Frames unknown m params h = search frame_rules
