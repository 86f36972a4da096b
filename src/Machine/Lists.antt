-- ===== src/Machine/Lists.antt =====
-- core/state_machine/machine.py, `_dispatch`: the `status`, `bypass` and `route` methods.
pub mod RoundTrip
use virtual_private_network.Prelude.{String, false, none, some, [], ◌∷◌, ◌++◌, remove, is_some}
use virtual_private_network.Ports.Command.{route, add_route, del_route}
use virtual_private_network.Ports.Effect.{M, pure, gets, modify, for_each, ◌>>=◌, ◌>>◌}
use virtual_private_network.Ports.Env.{Env, exec}
use virtual_private_network.Ports.Json.{Json, bool, str, arr, obj, end, field}
use virtual_private_network.Topology.Resolver.{resolve_ipv4}
use virtual_private_network.World.{Daemon, Config, lift, set_context}
use virtual_private_network.Machine.Replies.{
  Params, param, required, texts, optional, single, removed, lookup_ips, drop_ips,
}

unfoldable pub status : M Daemon Json
status = gets (λ d. obj (
    field "gateway" (optional d.context.gateway) (
      field "interface" (optional d.context.interface)
        (field "tun2socks_alive" (bool (is_some d.context.tun2socks)) end))))

unfoldable pub bypass_list : M Daemon Json
unfolding texts
bypass_list = gets (λ d. arr (texts d.bypass_domains))

unfoldable pub bypass_add : Params → M Daemon Json
unfolding param bypass_list
bypass_add params = do
  domain ← required "domain" (param "domain" params)
  modify (λ d. record d { bypass_domains = d.bypass_domains ++ domain ∷ [] })
  bypass_list

unfoldable pub bypass_remove : Params → M Daemon Json
unfolding param bypass_list
bypass_remove params = do
  domain ← required "domain" (param "domain" params)
  domains ← gets (λ d. d.bypass_domains)
  rest ← removed (remove domain domains)
  modify (λ d. record d { bypass_domains = rest })
  bypass_list

unfoldable pub route_list : M Daemon Json
unfolding texts
route_list = gets (λ d. obj (
    field "domains" (arr (texts d.vpn_domains)) (
      field "wildcards" (arr (texts d.vpn_wildcards))
        (field "subnets" (arr (texts d.vpn_subnets)) end))))

unfoldable pub add_wildcard : String → M Daemon Json
add_wildcard wildcard = do
  modify (λ d. record d { vpn_wildcards = d.vpn_wildcards ++ wildcard ∷ [] })
  pure (
      obj (
        field "wildcard" (str wildcard)
          (field "applied" (bool false) (field "note" (str "takes effect on next restart") end))))

unfoldable pub remove_wildcard : String → M Daemon Json
remove_wildcard wildcard = do
  wildcards ← gets (λ d. d.vpn_wildcards)
  rest ← removed (remove wildcard wildcards)
  modify (λ d. record d { vpn_wildcards = rest })
  pure (single "wildcard" (str wildcard))

module _ (cfg : Config) where
  unfoldable pub add_subnet : String → M Daemon Json
  add_subnet subnet = do
    lift (exec (route (add_route subnet cfg.table_id)))
    modify (λ d. record d { vpn_subnets = d.vpn_subnets ++ subnet ∷ [] })
    pure (single "subnet" (str subnet))

  unfoldable pub remove_subnet : String → M Daemon Json
  remove_subnet subnet = do
    lift (exec (route (del_route subnet cfg.table_id)))
    subnets ← gets (λ d. d.vpn_subnets)
    rest ← removed (remove subnet subnets)
    modify (λ d. record d { vpn_subnets = rest })
    pure (single "subnet" (str subnet))

  unfoldable pub remove_domain : String → M Daemon Json
  unfolding lookup_ips drop_ips
  remove_domain domain = do
    ips ← gets (λ d. lookup_ips domain d.context.route_ips)
    set_context (λ c. record c { route_ips = drop_ips domain c.route_ips })
    lift (for_each (λ ip. exec (route (del_route ip cfg.table_id))) ips)
    domains ← gets (λ d. d.vpn_domains)
    rest ← removed (remove domain domains)
    modify (λ d. record d { vpn_domains = rest })
    pure (single "domain" (str domain))

module _ (env : Env) (cfg : Config) where
  unfoldable pub add_domain : String → M Daemon Json
  unfolding texts drop_ips
  add_domain domain = do
    ips ← lift (resolve_ipv4 env domain)
    lift (for_each (λ ip. exec (route (add_route ip cfg.table_id))) ips)
    modify (λ d. record d { vpn_domains = d.vpn_domains ++ domain ∷ [] })
    set_context (λ c. record c { route_ips = (domain, ips) ∷ drop_ips domain c.route_ips })
    pure (obj (field "domain" (str domain) (field "ips" (arr (texts ips)) end)))

-- The first of the three keys that is there; with none of them the code falls through to the end.
unfoldable pub by_key :
    Params
    → (String → M Daemon Json)
    → (String → M Daemon Json)
    → (String → M Daemon Json)
    → M Daemon Json
    → M Daemon Json
unfolding param
by_key params domain wildcard subnet missing = elim (param "domain" params) [
  | some v ↦ domain v
  | none ↦ elim (param "wildcard" params) [
    | some v ↦ wildcard v
    | none ↦ elim (param "subnet" params) [ some v ↦ subnet v | none ↦ missing ]
  ]
]
