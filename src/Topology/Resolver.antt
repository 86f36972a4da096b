-- ===== src/Topology/Resolver.antt =====
-- core/topology/discovery.py: `DnsResolver` and `ServerIpResolver`. Sets are lists with no element
-- twice; the order in which Python walks through one is the environment's.
use virtual_private_network.Prelude.{
  String, Bool, not, ◌&&◌, ◌||◌, Option, none, some, List, [], ◌∷◌, ◌++◌, str_eq, starts_with,
  contains, contains_text, split_words, splitlines, is_empty, if◌then◌else◌,
}
use virtual_private_network.Ports.Command.{host, getent}
use virtual_private_network.Ports.Effect.{M, pure, gets, ◌>>=◌}
use virtual_private_network.Ports.Json
use virtual_private_network.Ports.Json.{Json, arr, str, truthy}
use virtual_private_network.Ports.Env.{Env, History, Completed, run}
use virtual_private_network.Topology.Patterns.{is_domain}

-- `ips.add(ip)`
unfoldable pub add : String → List String → List String
add ip ips = if contains ip ips then ips else ips ++ ip ∷ []

unfoldable pub add_all : List String → List String → List String
unfolding add
add_all [] ips = ips
add_all (ip ∷ more) ips = add_all more (add ip ips)

-- `if ip: ips.add(ip)`
non_empty_only : List String → List String
non_empty_only [] = []
non_empty_only (ip ∷ ips) = let rest = non_empty_only ips in if is_empty ip then rest else ip ∷ rest

-- A line of `getent ahosts` that names an IPv4 address.
abbrev stream_address : List String → List String
stream_address (candidate ∷ kind ∷ _) =
    if str_eq kind "STREAM" && contains_text "." candidate && not (contains_text ":" candidate)
    then candidate ∷ []
    else []
stream_address _ = []

abbrev getent_addresses : List String → List String
getent_addresses [] = []
getent_addresses (line ∷ lines) = stream_address (split_words line) ++ getent_addresses lines

abbrev pub getent_output : Option Completed → List String
getent_output none = []
getent_output (some r) = elim r.stdout [ none ↦ [] | some out ↦ getent_addresses (splitlines out) ]

-- `outbound.get("server", "")`. On what is no dict it raises, as `startswith` does on a true value
-- that is no text; a false value is skipped as the empty text is.
unfoldable pub server_of : Json → Option String
unfolding truthy Json.get
server_of outbound = elim (Json.get "server" outbound) [
  | none ↦ none
  | some none ↦ some ""
  | some (some (str s)) ↦ some s
  | some (some other) ↦ if truthy other then none else some ""
]

abbrev pub parsed : Env → Option String → Option Json
parsed env none = none
parsed env (some text) = env.loads text

-- `data.get("outbounds", [])`. What is no list has no elements that the loop could read.
abbrev pub outbounds_of : Option Json → List Json
outbounds_of none = []
outbounds_of (some data') = elim (Json.get "outbounds" data') [
  | some (some (arr xs)) ↦ Json.elements xs
  | _ ↦ []
]

module _ (env : Env) where
  -- `except Exception:` falls back to the shell, which every caller passes.
  unfoldable pub looked_up : String → Option (List String) → M History (List String)
  unfolding non_empty_only
  looked_up hostname (some found) = pure (non_empty_only found)
  looked_up hostname none = do
    result ← run env (host (getent hostname))
    pure (getent_output result)

  unfoldable pub resolve_ipv4 : String → M History (List String)
  unfolding looked_up add_all
  resolve_ipv4 hostname =
      if is_domain hostname
      then (do
        found ← gets (λ h. env.getaddrinfo h hostname)
        ips ← looked_up hostname found
        pure (env.set_order (add_all ips [])))
      else pure []

  -- The hosts of the profile itself: not the loopback.
  unfoldable pub is_remote : String → Bool
  is_remote server = not (
      is_empty server
      || starts_with server "127."
      || starts_with server "::"
      || str_eq server "localhost")

  scan_server : String → List String → M History (List String)
  scan_server server ips =
      if is_remote server
      then (if env.inet_aton server
          then pure (add server ips)
          else (do resolved ← resolve_ipv4 server; pure (add_all resolved ips)))
      else pure ips

  -- The `except` around the loop ends it, and keeps what was found before.
  scan : List Json → List String → M History (List String)
  unfolding scan_server
  scan [] ips = pure ips
  scan (outbound ∷ more) ips = elim (server_of outbound) [
    | none ↦ pure ips
    | some server ↦ do found ← scan_server server ips; scan more found
  ]

  -- The result is a set: `order` it where it is walked.
  unfoldable pub resolve_all : String → M History (List String)
  unfolding scan
  resolve_all profile_path = do
    present ← gets (λ h. env.exists h profile_path)
    text ← gets (λ h. env.read_text h profile_path)
    scan (if present then outbounds_of (parsed env text) else []) []
