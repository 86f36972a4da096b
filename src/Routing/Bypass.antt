-- ===== src/Routing/Bypass.antt =====
-- core/routing/bypass_loader.py: `BypassLoader.load_all`, all routes from all sources. The set
-- `added` holds the subnets of the entries, which is how the code keeps it.
pub mod Sound
pub mod Loads
use Prim.Native.Char.{code}
use Prim.Native.String.{String}
use virtual_private_network.Prelude.{
  Bool, true, false, ◌&&◌, Option, none, some, List, [], ◌∷◌, ◌++◌, ◌<>◌, contains, contains_text,
  strip, splitlines, ◌==◌, if◌then◌else◌, map,
}
use virtual_private_network.Ports.Effect.{M, pure, gets, ◌>>=◌}
use virtual_private_network.Ports.Env.{Env, History, read}
use virtual_private_network.Routing.Table.{RouteEntry}
use virtual_private_network.Topology.Patterns.{is_ipv4}
use virtual_private_network.Topology.Resolver.{resolve_ipv4}

abbrev pub common_tlds : List String
common_tlds = "lu" ∷ "is" ∷ "fi" ∷ "nl" ∷ "me" ∷ "shop" ∷ "cc" ∷ "to" ∷ "li" ∷ "se" ∷ "ch" ∷ []

-- Where the routes of a source go: through the gateway, or into the tunnel.
pub record Target : Type 0 where
  pub via : Option String
  pub dev : String

-- The lists `entries` and `added`.
pub record Loaded : Type 0 where
  pub entries : List RouteEntry
  pub added : List String

abbrev pub nothing_loaded : Loaded
nothing_loaded = record { entries = []; added = [] }

abbrev pub entry : Target → String → String → RouteEntry
entry t table_id subnet = record { subnet = subnet; via = t.via; dev = t.dev; table_id = table_id }

-- `if subnet not in added: entries.append(...); added.add(subnet)`
unfoldable pub add_route : Target → String → String → Loaded → Loaded
add_route t table_id subnet l = if contains subnet l.added then l else record l {
  entries = l.entries ++ entry t table_id subnet ∷ [];
  added = l.added ++ subnet ∷ [];
}

module _ (env : Env) (table_id : String) where
  -- The loops over subnets that are given as such.
  unfoldable pub add_subnets : Target → List String → Loaded → Loaded
  unfolding add_route
  add_subnets t [] l = l
  add_subnets t (subnet ∷ more) l =
      add_subnets t more
        (if is_ipv4 env.is_decimal subnet then add_route t table_id subnet l else l)

  unfoldable pub add_ips : Target → List String → Loaded → Loaded
  unfolding add_route
  add_ips t [] l = l
  add_ips t (ip ∷ more) l = add_ips t more (add_route t table_id (ip <> "/32") l)

  unfoldable pub resolve_and_add : Bool → Target → String → Loaded → M History Loaded
  unfolding add_ips
  resolve_and_add false t domain l = pure l
  resolve_and_add true t domain l = do ips ← resolve_ipv4 env domain; pure (add_ips t ips l)

  unfoldable pub add_domains : Bool → Target → List String → Loaded → M History Loaded
  unfolding resolve_and_add
  add_domains dns_ok t [] l = pure l
  add_domains dns_ok t (domain ∷ more) l = do
    l' ← resolve_and_add dns_ok t domain l
    add_domains dns_ok t more l'

-- `wildcard.replace(".*", "")`
unfoldable pub drop_stars : String → String
drop_stars String.[] = String.[]
drop_stars (String.◌∷◌ c String.[]) = String.◌∷◌ c String.[]
drop_stars (String.◌∷◌ c (String.◌∷◌ d s)) = elim (code c == b'.' && code d == b'*') [
  | true ↦ drop_stars s
  | false ↦ String.◌∷◌ c (drop_stars (String.◌∷◌ d s))
]

-- The domains that a wildcard stands for.
unfoldable pub expand : String → List String
unfolding drop_stars
expand wildcard =
    if contains_text ".*" wildcard
    then map (λ tld. drop_stars wildcard <> "." <> tld) common_tlds
    else []

unfoldable pub expand_all : List String → List String
unfolding expand
expand_all [] = []
expand_all (wildcard ∷ more) = expand wildcard ++ expand_all more

-- The configured lists that are the arguments of `load_all`.
pub record Sources : Type 0 where
  pub ru_cache_path : String
  pub bypass_domains : List String
  pub bypass_subnets : List String
  pub vpn_domains : List String
  pub vpn_wildcards : List String
  pub vpn_subnets : List String

abbrev pub bypass : String → String → Target
bypass gateway interface = record { via = some gateway; dev = interface }

abbrev pub tunnel : Target
tunnel = record { via = none; dev = "tun0" }

module _ (env : Env) where
  -- The lines of the RU cache, if the file is there.
  unfoldable pub ru_subnets : Bool → String → M History (List String)
  ru_subnets false path = pure []
  ru_subnets true path = do content ← read env path; pure (map strip (splitlines content))

  -- The sources one after the other, when the cache has been read.
  unfoldable pub load_sources :
      Sources → Target → String → Bool → List String → M History (List RouteEntry)
  unfolding add_subnets add_domains expand_all
  load_sources s out table_id dns_ok ru = do
    let l₂ =
        add_subnets env table_id out s.bypass_subnets
          (add_subnets env table_id out ru nothing_loaded)
    l₃ ← add_domains env table_id dns_ok out s.bypass_domains l₂
    let l₄ = add_subnets env table_id tunnel s.vpn_subnets l₃
    l₅ ← add_domains env table_id dns_ok tunnel s.vpn_domains l₄
    l₆ ← add_domains env table_id dns_ok tunnel (expand_all s.vpn_wildcards) l₅
    pure l₆.entries

  unfoldable pub load_all : Sources → String → String → String → M History (List RouteEntry)
  unfolding ru_subnets load_sources
  load_all s gateway interface table_id = do
    dns_ok ← gets (λ h. env.dns_reachable h)
    cached ← gets (λ h. env.exists h s.ru_cache_path)
    ru ← ru_subnets cached s.ru_cache_path
    load_sources s (bypass gateway interface) table_id dns_ok ru
