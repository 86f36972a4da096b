-- ===== src/Akonit/Provider/Sanitize.antt =====
-- src/vpn/adapters/akonit/provider.py, `sanitize_config`. The dicts are changed in place there; here
-- each step gives the new value. A dict that is missing and stands in as an empty one is dropped again.
use virtual_private_network.Prelude.{
  String, ◌<>◌, Bool, false, not, ◌||◌, ◌&&◌, Option, none, some, str_eq, if◌then◌else◌, ◌==◌,
}
use Prim.Native.Char.{code}
use virtual_private_network.Ports.Effect.{M, pure, raise, attribute_error, type_error, ◌>>=◌}
use virtual_private_network.Ports.Env.{Env, History}
use virtual_private_network.Ports.Json.{
  Json, Fields, Items, num, str, arr, obj, nil, cons, end, field, lookup, truthy,
}
use virtual_private_network.Subscription.{put}
use virtual_private_network.Akonit.Tags.{normalize_tag}

-- `value == word`
abbrev pub is_word : String → Option Json → Bool
is_word word (some (str s)) = str_eq s word
is_word word _ = false

-- `d.pop(key, None)`
unfoldable pub drop_key : String → Fields → Fields
drop_key k end = end
drop_key k (field j v fs) = let rest = drop_key k fs in if str_eq j k then rest else field j v rest

abbrev word_or : String → Option Json → Json
word_or s none = str s
word_or s (some v) = v

-- What a server of the type "batch" becomes.
abbrev pub local_server : Json → Json
local_server tag =
    if is_word "dns_proxy_out" (some tag)
    then obj (
        field "tag" tag (
          field "type" (str "udp")
            (field "server" (str "8.8.8.8") (field "server_port" (num 53) end))))
    else obj (field "tag" tag (field "type" (str "local") end))

-- A server of the DNS, or none where it is left out.
abbrev pub dns_server : Fields → Option Json
dns_server fs =
    if is_word "predefined" (lookup "type" fs)
    then none
    else if is_word "batch" (lookup "type" fs)
    then some (local_server (word_or "unknown" (lookup "tag" fs)))
    else some (obj fs)

abbrev pub with_server : Option Json → Items → Items
with_server none rest = rest
with_server (some s) rest = cons s rest

abbrev is_group : Fields → Bool
is_group fs = is_word "urltest" (lookup "type" fs) || is_word "selector" (lookup "type" fs)

module _ {S : Type 0} where
  abbrev edit_in : String → (Json → M S Json) → Fields → Option Json → M S Json
  edit_in k f fs none = pure (obj fs)
  edit_in k f fs (some v) = do w ← f v; pure (obj (put k w fs))

  -- What is done to `d.get(key, {})` in place.
  abbrev pub edit : String → (Json → M S Json) → Json → M S Json
  edit k f (obj fs) = edit_in k f fs (lookup k fs)
  edit k f _ = raise (attribute_error "no attribute 'get'")

  unfoldable pub each_of : (Json → M S Json) → Items → M S Items
  each_of f nil = pure nil
  each_of f (cons x xs) = do y ← f x; ys ← each_of f xs; pure (cons y ys)

  -- A loop over the dicts of a list, which are changed in place.
  abbrev pub each_item : (Json → M S Json) → Json → M S Json
  each_item f (arr items) = do items' ← each_of f items; pure (arr items')
  each_item f _ = raise (type_error "no list")

  -- A change of a dict.
  abbrev pub on_dict : (Fields → M S Json) → Json → M S Json
  on_dict f (obj fs) = f fs
  on_dict f _ = raise (attribute_error "no attribute 'get'")

  abbrev pub dropping : String → Json → M S Json
  dropping k = on_dict (λ fs. pure (obj (drop_key k fs)))

  -- `_normalize_tag(value)`, which raises unless it is a text.
  abbrev pub normalized : Json → M S Json
  normalized (str s) = pure (str (normalize_tag s))
  normalized _ = raise (type_error "expected string")

  unfoldable pub dns_servers : Items → M S Items
  unfolding lookup
  dns_servers nil = pure nil
  dns_servers (cons (obj fs) xs) = do rest ← dns_servers xs; pure (with_server (dns_server fs) rest)
  dns_servers (cons _ xs) = raise (attribute_error "no attribute 'get'")

  abbrev listed : Option Json → M S Items
  listed none = pure nil
  listed (some (arr items)) = pure items
  listed (some _) = raise (type_error "no list")

  unfoldable pub sanitize_dns : Json → M S Json
  unfolding put lookup dns_servers
  sanitize_dns = on_dict (λ fs. do
    servers ← listed (lookup "servers" fs)
    kept ← dns_servers servers
    pure (obj (put "servers" (arr kept) fs)))

  -- `outbound["tag"] = normalized` where it differs.
  abbrev tag_in : Fields → Option Json → M S Json
  tag_in fs none = pure (obj fs)
  tag_in fs (some v) = do w ← normalized v; pure (obj (put "tag" w fs))

  abbrev final_in : Fields → Option Json → M S Json
  final_in fs none = pure (obj fs)
  final_in fs (some v) =
      if truthy v then (do w ← normalized v; pure (obj (put "final" w fs))) else pure (obj fs)

  abbrev outbound_in : Fields → Option Json → M S Json
  outbound_in fs none = pure (obj fs)
  outbound_in fs (some v) =
      if truthy v && not (is_word "urltest_out" (some v))
      then (do w ← normalized v; pure (obj (put "outbound" w fs)))
      else pure (obj fs)

  abbrev members_in : Fields → M S Json
  members_in fs =
      if is_group fs
      then (do
        tags ← listed (lookup "outbounds" fs)
        tags' ← each_of normalized tags
        pure (obj (put "outbounds" (arr tags') fs)))
      else pure (obj fs)

  abbrev default_in : Fields → M S Json
  default_in fs =
      if is_group fs || is_word "url-test" (lookup "type" fs)
      then pure (obj (drop_key "default" fs))
      else pure (obj fs)

-- `tag.replace(":", "-")`
unfoldable pub dashed : String → String
dashed String.[] = String.[]
dashed (String.◌∷◌ c s) =
    let rest = dashed s in if code c == 58 then "-" <> rest else String.◌∷◌ c rest

abbrev text_in : {S : Type 0} → Option Json → M S String
text_in none = pure ""
text_in (some (str s)) = pure s
text_in (some _) = raise (attribute_error "no attribute 'replace'")

module _ (env : Env) (h : History) where
  abbrev cached_at : Fields → String → Json
  cached_at fs path =
      if env.exists h path
      then obj (
          drop_key "update_interval" (
            drop_key "download_detour"
              (drop_key "url" (put "path" (str path) (put "type" (str "local") fs)))))
      else obj fs

  -- A remote rule set becomes a local one where its file is there.
  abbrev pub rule_set : {S : Type 0} → Fields → M S Json
  rule_set fs =
      if is_word "remote" (lookup "type" fs)
      then (do
        tag ← text_in (lookup "tag" fs)
        pure (cached_at fs ("/var/lib/sing-box/" <> dashed tag <> ".srs")))
      else pure (obj fs)

  unfoldable pub sanitize_config : {S : Type 0} → Json → M S Json
  unfolding lookup truthy put drop_key sanitize_dns each_of dashed normalize_tag
  sanitize_config raw = do
    a ← edit "experimental" (dropping "statistics") raw
    b ← edit "dns" sanitize_dns a
    c ← edit "dns" (edit "rules" (each_item (dropping "name"))) b
    d ← edit "route" (edit "rules" (each_item (dropping "name"))) c
    e ← edit "route" (dropping "sniff") d
    f ← edit "route" (dropping "sniff_override_destination") e
    g ← edit "outbounds" (each_item (on_dict (λ fs. tag_in fs (lookup "tag" fs)))) f
    i ← edit "route" (on_dict (λ fs. final_in fs (lookup "final" fs))) g
    j ←
        edit "route"
          (edit "rules" (each_item (on_dict (λ fs. outbound_in fs (lookup "outbound" fs))))) i
    k ← edit "outbounds" (each_item (on_dict members_in)) j
    l ← edit "outbounds" (each_item (on_dict default_in)) k
    edit "route" (edit "rule_set" (each_item (on_dict rule_set))) l
