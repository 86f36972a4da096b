-- ===== src/Machine/Lists/RoundTrip.antt =====
-- Adding to a list of the configuration and taking away again, core/state_machine/machine.py,
-- `_dispatch`.
use virtual_private_network.Prelude.{
  String, ◌≡◌, refl, false, some, none, List, [], ◌∷◌, contains, remove, remove-append_self, eq_iff,
  arith,
}
use virtual_private_network.Ports.Command.{RouteCommand, route, add_route, del_route}
use virtual_private_network.Ports.Effect.{ok, for_each, ◌>>=◌}
use virtual_private_network.Ports.Env.{Env, History, shell, exec}
use virtual_private_network.Ports.Json.{arr, str}
use virtual_private_network.Topology.Resolver.{resolve_ipv4}
use virtual_private_network.World.{Daemon, Config}
use virtual_private_network.Machine.Replies.{Params, param, texts, single, lookup_ips, drop_ips}
use virtual_private_network.Machine.Lists.{
  bypass_add, bypass_remove, bypass_list, add_subnet, remove_subnet, add_domain, remove_domain,
}

-- A domain that is not in the bypass list, added and then removed: the whole daemon is as it was,
-- and the reply is the list.
pub bypass_add-bypass_remove :
    (params : Params) (domain : String) (d : Daemon)
    → param "domain" params ≡ some domain
    → contains domain d.bypass_domains ≡ false
    → (bypass_add params >>= (λ _. bypass_remove params)) d ≡ (ok (arr (texts d.bypass_domains)), d)
unfolding bypass_add bypass_remove bypass_list
bypass_add-bypass_remove params domain d h k =
    rw (h, remove-append_self domain d.bypass_domains k) refl

remove-none : (x : String) (xs : List String) → contains x xs ≡ false → remove x xs ≡ none
unfolding remove
remove-none x [] h = refl
remove-none x (y ∷ xs) h = ground (arith, remove-none x xs)

-- The commands on some addresses, one after the other.
abbrev pub shells : (String → RouteCommand) → List String → History → History
shells c [] h = h
shells c (ip ∷ ips) h = shells c ips (shell (route (c ip)) ∷ h)

for_each-shells :
    (c : String → RouteCommand) (ips : List String) (h : History)
    → for_each (λ ip. exec (route (c ip))) ips h ≡ (ok tt, shells c ips h)
unfolding for_each exec
for_each-shells c [] h = refl
for_each-shells c (ip ∷ ips) h = for_each-shells c ips (shell (route (c ip)) ∷ h)

lookup_found :
    (k : String) (v : List String) (l : List (String × List String)) → lookup_ips k ((k, v) ∷ l) ≡ v
unfolding lookup_ips
lookup_found k v l = ground (arith, eq_iff k k)

drop-drop :
    (k : String) (l : List (String × List String)) → drop_ips k (drop_ips k l) ≡ drop_ips k l
unfolding drop_ips
drop-drop k [] = refl
drop-drop k ((j, v) ∷ l) = ground (arith, drop-drop k l)

drop_added :
    (k : String) (v : List String) (l : List (String × List String))
    → drop_ips k ((k, v) ∷ drop_ips k l) ≡ drop_ips k l
unfolding drop_ips
drop_added k v l = ground (arith, eq_iff k k, drop-drop k l)

module _ (cfg : Config) where
  -- A subnet that is not in the list, added and then removed: the list is as it was, and the one
  -- route that was put into the table is deleted from the same table.
  pub add_subnet-remove_subnet :
      (net : String) (d : Daemon)
      → contains net d.vpn_subnets ≡ false
      → (add_subnet cfg net >>= (λ _. remove_subnet cfg net)) d ≡ (
        ok (single "subnet" (str net)),
        record d {
          history =
              shell (route (del_route net cfg.table_id))
              ∷ shell (route (add_route net cfg.table_id))
              ∷ d.history;
        },
      )
  unfolding add_subnet remove_subnet exec
  add_subnet-remove_subnet net d h = rw (remove-append_self net d.vpn_subnets h) refl

  -- A domain that is not in the list and resolves to some addresses, added and then removed: the
  -- list is as it was, the domain has no addresses left in the context, and a route was added, and
  -- then deleted, for exactly these addresses, in the daemon's table.
  pub add_domain-remove_domain :
      (env : Env) (domain : String) (d : Daemon) (ips : List String) (h : History)
      → contains domain d.vpn_domains ≡ false
      → resolve_ipv4 env domain d.history ≡ (ok ips, h)
      → (add_domain env cfg domain >>= (λ _. remove_domain cfg domain)) d ≡ (
        ok (single "domain" (str domain)),
        record d {
          context = record d.context { route_ips = drop_ips domain d.context.route_ips };
          history =
              shells
                (λ ip. del_route ip cfg.table_id)
                ips
                (shells (λ ip. add_route ip cfg.table_id) ips h);
        },
      )
  unfolding add_domain remove_domain
  add_domain-remove_domain env domain d ips h n r =
      rw
        (
          r,
          for_each-shells (λ ip. add_route ip cfg.table_id) ips h,
          lookup_found domain ips (drop_ips domain d.context.route_ips),
          drop_added domain ips d.context.route_ips,
          for_each-shells (λ ip. del_route ip cfg.table_id) ips
              (shells (λ ip. add_route ip cfg.table_id) ips h),
          remove-append_self domain d.vpn_domains n,
        )
        refl
