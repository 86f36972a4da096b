-- ===== src/Akonit/Catalog.antt =====
-- src/vpn/adapters/akonit/catalog.py, `build_catalog`. The host and the port of a server are taken as
-- a text and a number, as in a profile of sing-box.
pub mod Order
use virtual_private_network.Prelude.{
  ℕ, suc, String, ◌<>◌, Bool, true, false, not, ◌&&◌, Option, none, some, List, [], ◌∷◌, map,
  is_empty, contains, str_eq, if◌then◌else◌,
}
use virtual_private_network.Ports.Effect.{
  M, pure, raise, attribute_error, type_error, key_error, ◌>>=◌, ◌>>◌,
}
use virtual_private_network.Ports.Env.{ServerInfo}
use virtual_private_network.Ports.Json.{
  Json, Fields, Items, null, num, str, arr, obj, nil, cons, end, field, lookup, truthy, elements,
}
use virtual_private_network.Akonit.Tags.{base_name, country}

-- `PROXY_OUTBOUND_TYPES`
abbrev proxy_types : List String
proxy_types =
    "vless" ∷ "vmess" ∷ "trojan" ∷ "hysteria2" ∷ "hysteria" ∷ "shadowsocks" ∷ "shadowsocksr"
    ∷ "tuic" ∷ "anytls" ∷ "wireguard" ∷ []

abbrev pub is_proxy : Option Json → Bool
is_proxy (some (str t)) = contains t proxy_types
is_proxy _ = false

-- The tuples of the first pass: base name, tag, country, host and port.
pub record Entry : Type 0 where
  pub base : String
  pub tag : String
  pub country : String
  pub host : String
  pub port : ℕ

abbrev text_or : String → Option Json → String
text_or s (some (str t)) = t
text_or s _ = s

abbrev number_or : ℕ → Option Json → ℕ
number_or n (some (num m)) = m
number_or n _ = n

module _ {S : Type 0} where
  -- `profile.get("outbounds", [])`
  abbrev items_in : Option Json → M S (List Json)
  items_in none = pure []
  items_in (some (arr items)) = pure (elements items)
  items_in (some _) = raise (type_error "no list")

  abbrev pub items_at : String → Json → M S (List Json)
  items_at k (obj fs) = items_in (lookup k fs)
  items_at k _ = raise (attribute_error "no attribute 'get'")

module _ (lower : String → String) where
  abbrev pub entry : String → Fields → Entry
  entry tag fs = record {
    base = base_name lower tag;
    tag = tag;
    country = country lower tag;
    host = text_or "unknown" (lookup "server" fs);
    port = number_or 443 (lookup "server_port" fs);
  }

  -- An outbound without a tag is left out; a tag that is no text raises in the regular expression.
  abbrev tagged : {S : Type 0} → Fields → Option Json → M S (List Entry)
  tagged fs none = pure []
  tagged fs (some (str tag)) = if is_empty tag then pure [] else pure (entry tag fs ∷ [])
  tagged fs (some other) = if truthy other then raise (type_error "expected string") else pure []

  abbrev entry_of : {S : Type 0} → Json → M S (List Entry)
  entry_of (obj fs) = if is_proxy (lookup "type" fs) then tagged fs (lookup "tag" fs) else pure []
  entry_of _ = raise (attribute_error "no attribute 'get'")

  abbrev joined : List Entry → List Entry → List Entry
  joined [] rest = rest
  joined (e ∷ es) rest = e ∷ rest

  unfoldable pub entries : {S : Type 0} → List Json → M S (List Entry)
  unfolding lookup truthy base_name country
  entries [] = pure []
  entries (o ∷ os) = do e ← entry_of o; rest ← entries os; pure (joined e rest)

-- `bases.count(base)`
unfoldable pub count : String → List Entry → ℕ
count base [] = 0
count base (e ∷ es) = let rest = count base es in if str_eq e.base base then suc rest else rest

abbrev pub more_than_one : ℕ → Bool
more_than_one (suc (suc n)) = true
more_than_one _ = false

-- The name of an entry among all entries.
unfoldable pub name_of : List Entry → Entry → String
unfolding count
name_of all e =
    if more_than_one (count e.base all) && not (is_empty e.country)
    then e.base <> "_" <> e.country
    else e.base

abbrev pub server_of : List Entry → Entry → ServerInfo
server_of all e = record {
  name = name_of all e;
  tag = e.tag;
  country = e.country;
  host = e.host;
  port = e.port;
}

-- `sorted(servers, key=lambda s: s.name)`, which keeps the order of equal names. `before` is the order
-- of texts, without equality.
module _ (before : String → String → Bool) where
  unfoldable pub insert_server : ServerInfo → List ServerInfo → List ServerInfo
  insert_server x [] = x ∷ []
  insert_server x (y ∷ ys) =
      let rest = y ∷ insert_server x ys in if before y.name x.name then rest else x ∷ y ∷ ys

  unfoldable pub by_name : List ServerInfo → List ServerInfo
  unfolding insert_server
  by_name [] = []
  by_name (x ∷ xs) = insert_server x (by_name xs)

  unfoldable pub build_catalog : {S : Type 0} → (String → String) → Json → M S (List ServerInfo)
  unfolding entries name_of by_name lookup elements
  build_catalog lower profile = do
    outbounds ← items_at "outbounds" profile
    all ← entries lower outbounds
    pure (by_name (map (server_of all) all))

-- The loop of `get_server`.
unfoldable pub find_server : {S : Type 0} → String → List ServerInfo → M S ServerInfo
find_server name [] = raise (key_error ("Server '" <> name <> "' not found in profile"))
find_server name (s ∷ servers) = if str_eq s.name name then pure s else find_server name servers
