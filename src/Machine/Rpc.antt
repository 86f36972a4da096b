-- ===== src/Machine/Rpc.antt =====
-- core/state_machine/machine.py: `_dispatch`, the methods that the command line calls.
use virtual_private_network.Prelude.{String, ◌<>◌, Bool, str_eq, if◌then◌else◌}
use virtual_private_network.Ports.Effect.{M, pure, raise, gets, value_error, ◌>>=◌, ◌>>◌}
use virtual_private_network.Ports.Env.{Env, Provider}
use virtual_private_network.Ports.Json.{Json, num, str, arr, obj, end, field}
use virtual_private_network.Machine.Servers.{apply_server, reload_config}
use virtual_private_network.World.{Daemon, Config, event, restart_requested, with_profile, post}
use virtual_private_network.Machine.Replies.{
  Params, param, required, optional, server_items, single,
}
use virtual_private_network.Machine.Power.{stop, start}
use virtual_private_network.Machine.Lists.{
  status, bypass_list, bypass_add, bypass_remove, route_list, add_domain, add_wildcard, add_subnet,
  remove_domain, remove_wildcard, remove_subnet, by_key,
}

pub data Method : Type 0 where
  server_list server_current server_change config_reload status_of : Method
  bypass_list_of bypass_add_to bypass_remove_from stop_vpn start_vpn : Method
  route_list_of route_add route_remove restart unknown : Method

unfoldable pub method_of : String → Method
method_of m =
    if str_eq m "server.list"
    then server_list
    else if str_eq m "server.current"
    then server_current
    else if str_eq m "server.change"
    then server_change
    else if str_eq m "config.reload"
    then config_reload
    else if str_eq m "status"
    then status_of
    else if str_eq m "bypass.list"
    then bypass_list_of
    else if str_eq m "bypass.add"
    then bypass_add_to
    else if str_eq m "bypass.remove"
    then bypass_remove_from
    else if str_eq m "stop"
    then stop_vpn
    else if str_eq m "start"
    then start_vpn
    else if str_eq m "route.list"
    then route_list_of
    else if str_eq m "route.add"
    then route_add
    else if str_eq m "route.remove"
    then route_remove
    else if str_eq m "restart"
    then restart
    else unknown

module _ (env : Env) (provider : Provider) (cfg : Config) (before : String → String → Bool) where
  abbrev pub unknown_method : String → M Daemon Json
  unknown_method m = raise (value_error ("Unknown method: " <> m))

  unfoldable pub dispatch_to : Method → String → Params → M Daemon Json
  unfolding by_key param
  dispatch_to server_list m params = do
    servers ← with_profile provider.list_servers
    pure (arr (server_items servers))
  dispatch_to server_current m params =
      gets (λ d. single "server" (optional d.context.active_server))
  dispatch_to server_change m params = do
    name ← required "name" (param "name" params)
    tag ← apply_server env provider cfg name
    pure (str tag)
  dispatch_to config_reload m params = do
    (target, count) ← reload_config env provider cfg before
    pure (obj (field "server" (str target) (field "count" (num count) end)))
  dispatch_to status_of m params = status
  dispatch_to bypass_list_of m params = bypass_list
  dispatch_to bypass_add_to m params = bypass_add params
  dispatch_to bypass_remove_from m params = bypass_remove params
  dispatch_to stop_vpn m params = stop cfg
  dispatch_to start_vpn m params = start cfg
  dispatch_to route_list_of m params = route_list
  dispatch_to route_add m params =
      by_key params (add_domain env cfg) add_wildcard (add_subnet cfg) (unknown_method m)
  dispatch_to route_remove m params =
      by_key params (remove_domain cfg) remove_wildcard (remove_subnet cfg) (unknown_method m)
  dispatch_to restart m params = do
    post (event restart_requested)
    pure (single "status" (str "restarting"))
  dispatch_to unknown m params = unknown_method m

  unfoldable pub dispatch : String → Params → M Daemon Json
  unfolding method_of dispatch_to
  dispatch m params = dispatch_to (method_of m) m params
