-- ===== src/Routing/Bypass/Sound.antt =====
-- Each step of the loader keeps the subnets distinct and the routes on their two ways, and what was
-- loaded first.
use virtual_private_network.Prelude.{
  String, ◌<>◌, ◌≡◌, refl, Bool, true, false, not, ◌&&◌, Option, none, some, List, [], ◌∷◌, ◌++◌,
  arith, ◌⊎◌, inl, inr, contains, contains-append, str_eq, eq_iff, All, All-append, map, Bool-cases,
  if◌then◌else◌, ap, ◌∙◌,
}
use virtual_private_network.Ports.Effect.{M, Outcome, ok, pure, continue, ◌>>=◌}
use virtual_private_network.Ports.Env.{Env, History, run}
use virtual_private_network.Routing.Table.{RouteEntry}
use virtual_private_network.Topology.Patterns.{is_domain, is_ipv4}
use virtual_private_network.Topology.Resolver.{resolve_ipv4, looked_up}
use virtual_private_network.Routing.Bypass.{
  Target, Loaded, entry, add_route, add_subnets, add_ips, resolve_and_add, add_domains, tunnel,
}

-- A method that returns, with a result of this kind.
pub record Yields {A : Type 0} (P : A → Type 0) (m : M History A) : Type 0 where
  pub at : (h : History) → (a : A) × ((m h).0 ≡ ok a) × P a

module _ {A B : Type 0} {P : A → Type 0} {Q : B → Type 0} where
  continue-Yields :
      (r : Outcome A) (a : A) (f : A → M History B) (h : History)
      → r ≡ ok a
      → P a
      → ((a : A) → P a → Yields Q (f a))
      → (b : B) × ((continue r f h).0 ≡ ok b) × Q b
  continue-Yields r a f h e p q = rw e ((q a p).at h)

  pub Yields-bind :
      (m : M History A) (f : A → M History B)
      → Yields P m
      → ((a : A) → P a → Yields Q (f a))
      → Yields Q (m >>= f)
  Yields-bind m f p q = record {
    at = λ h. let (a, e, x) = p.at h in let (r, h') = m h in continue-Yields r a f h' e x q;
  }

abbrev pub Any : {A : Type 0} → A → Type 0
Any a = Unit

pub Yields-pure : {A : Type 0} (P : A → Type 0) (a : A) → P a → Yields P (pure a)
Yields-pure P a p = record { at = λ h. (a, refl, p) }

module _ (env : Env) where
  looked_up-Yields :
      (hostname : String) (found : Option (List String)) → Yields Any (looked_up env hostname found)
  unfolding looked_up run
  looked_up-Yields hostname none = record { at = λ h. (_, refl, tt) }
  looked_up-Yields hostname (some ips) = record { at = λ h. (_, refl, tt) }

  -- A name is always resolved to some list, if an empty one.
  resolve_ipv4-Yields : (hostname : String) → Yields Any (resolve_ipv4 env hostname)
  unfolding resolve_ipv4
  resolve_ipv4-Yields hostname = elim (Bool-cases (is_domain hostname)) [
    | inl c ↦ rw c (record {
      at = λ h.
          (Yields-bind _ _ (looked_up-Yields hostname (env.getaddrinfo h hostname))
              (λ ips _. Yields-pure Any _ tt)).at
            h;
    })
    | inr c ↦ rw c (Yields-pure Any _ tt)
  ]

abbrev pub distinct : List String → Bool
distinct [] = true
distinct (x ∷ xs) = not (contains x xs) && distinct xs

distinct-add :
    (x : String) (xs : List String)
    → contains x xs ≡ false
    → distinct xs ≡ true
    → distinct (xs ++ x ∷ []) ≡ true
distinct-add x [] h k = refl
distinct-add x (y ∷ xs) h k =
    ground (arith, distinct-add x xs, contains-append y xs (x ∷ []), eq_iff x y, eq_iff y x)

-- The first entry for a subnet.
abbrev pub find : String → List RouteEntry → Option RouteEntry
find subnet [] = none
find subnet (e ∷ es) = if str_eq e.subnet subnet then some e else find subnet es

find-append :
    (x : String) (e : RouteEntry) (es fs : List RouteEntry)
    → find x es ≡ some e
    → find x (es ++ fs) ≡ some e
find-append x e [] fs h = cc
find-append x e (f ∷ es) fs h = ground (arith, find-append x e es fs)

find_new :
    (x : String) (e : RouteEntry) (es : List RouteEntry)
    → contains x (map (λ f. f.subnet) es) ≡ false
    → e.subnet ≡ x
    → find x (es ++ e ∷ []) ≡ some e
find_new x e [] h k = ground (arith, eq_iff e.subnet x)
find_new x e (f ∷ es) h k = ground (arith, find_new x e es)

map-append :
    (xs ys : List RouteEntry)
    → map (λ f. f.subnet) (xs ++ ys) ≡ map (λ f. f.subnet) xs ++ map (λ f. f.subnet) ys
map-append [] ys = refl
map-append (x ∷ xs) ys = ap (λ l. x.subnet ∷ l) (map-append xs ys)

module _ (table_id : String) (out : Target) where
  -- Out of the host past the tunnel, or into the tunnel, and in the daemon's table.
  abbrev pub OnTargets : RouteEntry → Type 0
  OnTargets e = (e ≡ entry out table_id e.subnet) ⊎ (e ≡ entry tunnel table_id e.subnet)

  pub record Sound (l : Loaded) : Type 0 where
    pub subnets : map (λ e. e.subnet) l.entries ≡ l.added
    pub distinct_added : distinct l.added ≡ true
    pub on_targets : All OnTargets l.entries

  abbrev pub IsTarget : Target → Type 0
  IsTarget t = (t ≡ out) ⊎ (t ≡ tunnel)

  on_target : (t : Target) (subnet : String) → IsTarget t → OnTargets (entry t table_id subnet)
  on_target t subnet (inl h) = inl (rw h refl)
  on_target t subnet (inr h) = inr (rw h refl)

  add_route-Sound :
      (t : Target) (x : String) (l : Loaded)
      → IsTarget t
      → Sound l
      → Sound (add_route t table_id x l)
  unfolding add_route
  add_route-Sound t x l i s = elim (Bool-cases (contains x l.added)) [
    | inl c ↦ rw c s
    | inr c ↦ rw c (record {
      subnets = map-append l.entries (entry t table_id x ∷ []) ∙ ap (λ k. k ++ x ∷ []) s.subnets;
      distinct_added = distinct-add x l.added c s.distinct_added;
      on_targets = All-append OnTargets l.entries _ s.on_targets (on_target t x i, tt);
    })
  ]

  -- The bypass subnets that are loaded first: every subnet so far goes past the tunnel.
  pub record Past (l : Loaded) : Type 0 where
    pub sound : Sound l
    pub first :
        (x : String) → contains x l.added ≡ true → find x l.entries ≡ some (entry out table_id x)

  add_route-Past : (x : String) (l : Loaded) → Past l → Past (add_route out table_id x l)
  unfolding add_route
  add_route-Past x l p = elim (Bool-cases (contains x l.added)) [
    | inl c ↦ rw c p
    | inr c ↦ record {
      sound = add_route-Sound out x l (inl refl) p.sound;
      first = rw c (λ y h. elim (Bool-cases (contains y l.added)) [
        | inl k ↦ find-append y _ l.entries _ (p.first y k)
        | inr k ↦
            let same : x ≡ y = ground (arith, contains-append y l.added (x ∷ []), eq_iff x y) in
            find_new y (entry out table_id x) l.entries (rw p.sound.subnets k) same ∙ rw same refl
      ]);
    }
  ]

  -- These subnets have their entry past the tunnel.
  pub record Placed (Q : String → Type 0) (l : Loaded) : Type 0 where
    pub sound : Sound l
    pub found : (x : String) → Q x → find x l.entries ≡ some (entry out table_id x)

  pub add_route-Placed :
      (Q : String → Type 0) (t : Target) (y : String) (l : Loaded)
      → IsTarget t
      → Placed Q l
      → Placed Q (add_route t table_id y l)
  unfolding add_route
  add_route-Placed Q t y l i p = record {
    sound = add_route-Sound t y l i p.sound;
    found = λ x q. elim (Bool-cases (contains y l.added)) [
      | inl c ↦ rw c (p.found x q)
      | inr c ↦ rw c (find-append x _ l.entries _ (p.found x q))
    ];
  }

  -- A property that another route cannot break.
  abbrev pub Closed : (Loaded → Type 0) → Type 0
  Closed P =
      (t : Target) (x : String) (l : Loaded) → IsTarget t → P l → P (add_route t table_id x l)

  module _ (env : Env) (P : Loaded → Type 0) (closed : Closed P) (t : Target) (i : IsTarget t) where
    pub add_subnets-keeps :
        (xs : List String) (l : Loaded) → P l → P (add_subnets env table_id t xs l)
    unfolding add_subnets
    add_subnets-keeps [] l p = p
    add_subnets-keeps (x ∷ xs) l p = elim (Bool-cases (is_ipv4 env.is_decimal x)) [
      | inl c ↦ rw c (add_subnets-keeps xs _ (closed t x l i p))
      | inr c ↦ rw c (add_subnets-keeps xs l p)
    ]

    add_ips-keeps : (xs : List String) (l : Loaded) → P l → P (add_ips env table_id t xs l)
    unfolding add_ips
    add_ips-keeps [] l p = p
    add_ips-keeps (x ∷ xs) l p = add_ips-keeps xs _ (closed t (x <> "/32") l i p)

    pub add_domains-Yields :
        (dns_ok : Bool) (xs : List String) (l : Loaded)
        → P l
        → Yields P (add_domains env table_id dns_ok t xs l)
    unfolding add_domains resolve_and_add
    add_domains-Yields dns_ok [] l p = Yields-pure P l p
    add_domains-Yields dns_ok (x ∷ xs) l p =
        Yields-bind _ _ (one dns_ok) (λ l' p'. add_domains-Yields dns_ok xs l' p')
      where
        one : (b : Bool) → Yields P (resolve_and_add env table_id b t x l)
        one false = Yields-pure P l p
        one true =
            Yields-bind _ _ (resolve_ipv4-Yields env x)
              (λ ips _. Yields-pure P _ (add_ips-keeps ips l p))

  add_route-contains : (x : String) → Closed (λ l. contains x l.added ≡ true)
  unfolding add_route
  add_route-contains x t y l i h = elim (Bool-cases (contains y l.added)) [
    | inl k ↦ rw k h
    | inr k ↦ rw k (ground (arith, contains-append x l.added (y ∷ [])))
  ]

  module _ (env : Env) where
    pub add_subnets-Past :
        (xs : List String) (l : Loaded) → Past l → Past (add_subnets env table_id out xs l)
    unfolding add_subnets
    add_subnets-Past [] l p = p
    add_subnets-Past (x ∷ xs) l p = elim (Bool-cases (is_ipv4 env.is_decimal x)) [
      | inl c ↦ rw c (add_subnets-Past xs _ (add_route-Past x l p))
      | inr c ↦ rw c (add_subnets-Past xs l p)
    ]

    added_now : (x : String) (l : Loaded) → contains x (add_route out table_id x l).added ≡ true
    unfolding add_route
    added_now x l = elim (Bool-cases (contains x l.added)) [
      | inl k ↦ rw k k
      | inr k ↦ rw k (ground (arith, contains-append x l.added (x ∷ []), eq_iff x x))
    ]

    kept :
        (x : String) (xs : List String) (l : Loaded)
        → contains x l.added ≡ true
        → contains x (add_subnets env table_id out xs l).added ≡ true
    kept x =
        add_subnets-keeps env (λ l. contains x l.added ≡ true) (add_route-contains x) out (inl refl)

    -- Every valid subnet of the list has been added when the list has been read.
    pub add_subnets-contains :
        (x : String) (xs : List String) (l : Loaded)
        → contains x xs ≡ true
        → is_ipv4 env.is_decimal x ≡ true
        → contains x (add_subnets env table_id out xs l).added ≡ true
    unfolding add_subnets add_route
    add_subnets-contains x [] l h v = cc
    add_subnets-contains x (y ∷ ys) l h v = elim (Bool-cases (str_eq y x)) [
      | inl e ↦
          let same : y ≡ x = ground (arith, eq_iff y x) in
          rw (add_subnets, same, v) (kept x ys _ (added_now x l))
      | inr e ↦ elim (Bool-cases (is_ipv4 env.is_decimal y)) [
        | inl c ↦ rw (add_subnets, c) (add_subnets-contains x ys _ (ground arith) v)
        | inr c ↦ rw (add_subnets, c) (add_subnets-contains x ys l (ground arith) v)
      ]
    ]
