-- ===== src/Machine/Replies.antt =====
-- core/state_machine/machine.py: the parameters and the replies of the methods, and the dict of
-- resolved addresses.
use virtual_private_network.Prelude.{
  String, Option, none, some, List, [], ◌∷◌, str_eq, if◌then◌else◌,
}
use virtual_private_network.Ports.Effect.{M, pure, raise, key_error, value_error}
use virtual_private_network.Ports.Env.{ServerInfo}
use virtual_private_network.Ports.Json.{Json, Items, null, num, str, obj, nil, cons, end, field}
use virtual_private_network.World.{Daemon}

abbrev pub Params : Type 0
Params = List (String × String)

unfoldable pub param : String → Params → Option String
param k [] = none
param k ((j, v) ∷ rest) = if str_eq j k then some v else param k rest

-- `params[k]`
abbrev pub required : String → Option String → M Daemon String
required k none = raise (key_error k)
required k (some v) = pure v

unfoldable pub texts : List String → Items
texts [] = nil
texts (s ∷ ss) = cons (str s) (texts ss)

abbrev pub optional : Option String → Json
optional none = null
optional (some s) = str s

unfoldable pub server_items : List ServerInfo → Items
server_items [] = nil
server_items (s ∷ ss) =
    cons
      (obj (
        field "name" (str s.name) (
          field "tag" (str s.tag) (
            field "country" (str s.country)
              (field "host" (str s.host) (field "port" (num s.port) end))))))
      (server_items ss)

-- `{key: value}`
abbrev pub single : String → Json → Json
single k v = obj (field k v end)

-- `list.remove(x)`, which raises where `x` is not there.
abbrev pub removed : Option (List String) → M Daemon (List String)
removed none = raise (value_error "list.remove(x): x not in list")
removed (some rest) = pure rest

-- `d.pop(key, [])` and `d[key] = value`
unfoldable pub lookup_ips : String → List (String × List String) → List String
lookup_ips k [] = []
lookup_ips k ((j, v) ∷ rest) = if str_eq j k then v else lookup_ips k rest

unfoldable pub drop_ips : String → List (String × List String) → List (String × List String)
drop_ips k [] = []
drop_ips k ((j, v) ∷ rest) =
    let others = drop_ips k rest in if str_eq j k then others else (j, v) ∷ others
