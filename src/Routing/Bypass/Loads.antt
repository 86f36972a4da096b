-- ===== src/Routing/Bypass/Loads.antt =====
-- What `load_all` returns: no subnet twice, each on one of the two ways out of the host, and the
-- configured bypass subnets before all that comes later.
use virtual_private_network.Prelude.{
  String, ◌≡◌, refl, Bool, true, false, Option, none, some, List, [], ◌⊎◌, inl, inr, contains, All,
  map, strip, splitlines,
}
use virtual_private_network.Ports.Effect.{ok}
use virtual_private_network.Ports.Env.{Env, History, read}
use virtual_private_network.Routing.Table.{RouteEntry}
use virtual_private_network.Topology.Patterns.{is_ipv4}
use virtual_private_network.Routing.Bypass.{
  Target, nothing_loaded, entry, add_subnets, expand_all, Sources, bypass, tunnel, ru_subnets,
  load_sources, load_all,
}
use virtual_private_network.Routing.Bypass.Sound.{
  Yields, Yields-bind, Yields-pure, distinct, find, OnTargets, Past, Placed, add_route-Placed,
  add_subnets-Past, add_subnets-contains, add_subnets-keeps, add_domains-Yields,
}

-- The cache file is there and cannot be read.
abbrev pub Unreadable : Env → Sources → History → Type 0
Unreadable env s h =
    (env.exists h s.ru_cache_path ≡ true) × (env.read_text h s.ru_cache_path ≡ none)

module _ (env : Env) (s : Sources) (table_id : String) where
  abbrev Configured : String → Type 0
  Configured x = (contains x s.bypass_subnets ≡ true) × (is_ipv4 env.is_decimal x ≡ true)

  nothing-Past : (out : Target) → Past table_id out nothing_loaded
  nothing-Past out = record {
    sound = record { subnets = refl; distinct_added = refl; on_targets = tt };
    first = λ x h. cc;
  }

  -- The RU cache and the configured bypass subnets have been read.
  subnets-Placed :
      (out : Target) (ru : List String)
      → Placed table_id out Configured (
          add_subnets env table_id out s.bypass_subnets
            (add_subnets env table_id out ru nothing_loaded))
  subnets-Placed out ru =
      let l = add_subnets env table_id out ru nothing_loaded in
      let p = add_subnets-Past table_id out env ru nothing_loaded (nothing-Past out) in
      let q = add_subnets-Past table_id out env s.bypass_subnets l p in
      record {
        sound = q.sound;
        found =
            λ x c. q.first x (add_subnets-contains table_id out env x s.bypass_subnets l c.0 c.1);
      }

  -- What the entries are like when all sources have been read.
  record GoodRoutes (out : Target) (es : List RouteEntry) : Type 0 where
    pub unique : distinct (map (λ e. e.subnet) es) ≡ true
    pub on_targets : All (OnTargets table_id out) es
    pub first : (x : String) → Configured x → find x es ≡ some (entry out table_id x)

  load_sources-Good :
      (out : Target) (dns_ok : Bool) (ru : List String)
      → Yields (GoodRoutes out) (load_sources env s out table_id dns_ok ru)
  unfolding load_sources
  load_sources-Good out dns_ok ru =
      let closed = add_route-Placed table_id out Configured in
      let P = Placed table_id out Configured in
      Yields-bind _ _
        (add_domains-Yields table_id out env P closed out (inl refl) dns_ok s.bypass_domains _
          (subnets-Placed out ru))
        (λ l₃ p₃.
          Yields-bind _ _
            (add_domains-Yields table_id out env P closed tunnel (inr refl) dns_ok s.vpn_domains _
              (add_subnets-keeps table_id out env P closed tunnel (inr refl) s.vpn_subnets l₃ p₃))
            (λ l₅ p₅.
              Yields-bind _ _
                (add_domains-Yields table_id out env P closed tunnel (inr refl) dns_ok
                  (expand_all s.vpn_wildcards) l₅ p₅)
                (λ l₆ p₆. Yields-pure _ _ (record {
                  unique = rw p₆.sound.subnets p₆.sound.distinct_added;
                  on_targets = p₆.sound.on_targets;
                  first = p₆.found;
                }))))

  -- The list of routes that comes with a good outcome.
  abbrev Loads : String → String → History → Type 0
  Loads gateway interface h =
      (es : List RouteEntry) × ((load_all env s gateway interface table_id h).0 ≡ ok es)
      × GoodRoutes (bypass gateway interface) es

  ru_subnets-read :
      (path content : String) (h : History)
      → env.read_text h path ≡ some content
      → ru_subnets env true path h ≡ (ok (map strip (splitlines content)), h)
  unfolding ru_subnets read
  ru_subnets-read path content h k = rw (k, read) refl

  load_all-Loads :
      (gateway interface : String) (h : History) (b : Bool) (o : Option String)
      → env.exists h s.ru_cache_path ≡ b
      → env.read_text h s.ru_cache_path ≡ o
      → Loads gateway interface h ⊎ Unreadable env s h
  unfolding load_all
  load_all-Loads gateway interface h false o e k = inl (
      rw (e, load_all, ru_subnets)
        ((load_sources-Good (bypass gateway interface) (env.dns_reachable h) []).at h))
  load_all-Loads gateway interface h true none e k = inr (e, k)
  load_all-Loads gateway interface h true (some content) e k = inl (
      rw (e, ru_subnets-read s.ru_cache_path content h k)
        ((load_sources-Good (bypass gateway interface) (env.dns_reachable h)
            (map strip (splitlines content))).at
          h))

  -- `load_all` raises only where the RU cache is there and cannot be read. Else it returns, also
  -- when DNS does not work, and no subnet has two routes, and every route is in the daemon's table
  -- and goes either through the gateway or into tun0.
  pub load_all_routes :
      (gateway interface : String) (h : History)
      → ((es : List RouteEntry) × ((load_all env s gateway interface table_id h).0 ≡ ok es)
          × (distinct (map (λ e. e.subnet) es) ≡ true)
          × All (OnTargets table_id (bypass gateway interface)) es)
        ⊎ Unreadable env s h
  load_all_routes gateway interface h = elim (load_all-Loads gateway interface h _ _ refl refl) [
    | inl (es, e, g) ↦ inl (es, e, g.unique, g.on_targets)
    | inr u ↦ inr u
  ]

  -- A configured bypass subnet of a valid form goes through the gateway, whatever the later sources
  -- say of it and whether DNS works or not, unless the RU cache is there and cannot be read.
  pub load_all_first :
      (gateway interface : String) (h : History) (x : String)
      → contains x s.bypass_subnets ≡ true
      → is_ipv4 env.is_decimal x ≡ true
      → ((es : List RouteEntry) × ((load_all env s gateway interface table_id h).0 ≡ ok es)
          × (find x es ≡ some (entry (bypass gateway interface) table_id x)))
        ⊎ Unreadable env s h
  load_all_first gateway interface h x c v =
      elim (load_all-Loads gateway interface h _ _ refl refl) [
        | inl (es, e, g) ↦ inl (es, e, g.first x (c, v))
        | inr u ↦ inr u
      ]
