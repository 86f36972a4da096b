-- ===== src/Topology/Discovery.antt =====
-- core/topology/discovery.py: `TopologyDiscovery`, the default gateway and its interface.
pub mod Retries
use Prim.Native.String.{String}
use virtual_private_network.Prelude.{
  ℕ, zero, suc, ◌*◌, ◌<>◌, Option, none, some, decimal, after_prefix, span_word, is_empty, ◌||◌,
  if◌then◌else◌,
}
use virtual_private_network.Ports.Command.{host, default_route}
use virtual_private_network.Ports.Effect.{M, pure, raise, connection_error, ◌>>=◌, ◌>>◌}
use virtual_private_network.Ports.Env.{Env, History, Completed, run, sleep_ms}

pub record Topology : Type 0 where
  pub gateway : String
  pub interface : String

abbrev pub non_empty : String → String → Option Topology
non_empty g i =
    if is_empty g || is_empty i then none else some (record { gateway = g; interface = i })

abbrev after_dev : String → Option String → Option Topology
after_dev g none = none
after_dev g (some rest) = non_empty g (span_word rest).0

abbrev after_via : Option String → Option Topology
after_via none = none
after_via (some rest) = let (g, more) = span_word rest in after_dev g (after_prefix " dev " more)

-- `via (\S+) dev (\S+)` at the front of the text. A shorter first group than the longest run is
-- followed by a character that is no space, so there is nothing to go back to.
unfoldable pub match_here : String → Option Topology
match_here s = after_via (after_prefix "via " s)

abbrev pub or_else : Option Topology → Option Topology → Option Topology
or_else none later = later
or_else (some t) later = some t

-- `re.search` tries the suffixes in turn.
unfoldable pub search_route : String → Option Topology
unfolding match_here
search_route String.[] = match_here String.[]
search_route (String.◌∷◌ c s) = or_else (match_here (String.◌∷◌ c s)) (search_route s)

-- `if result and result.stdout:` and the search
unfoldable pub parse_route : Option Completed → Option Topology
unfolding search_route
parse_route none = none
parse_route (some r) = elim r.stdout [ none ↦ none | some out ↦ search_route out ]

abbrev pub exhausted : ℕ → M History Topology
exhausted n =
    raise (connection_error ("Topology discovery failed after " <> decimal n <> " attempts"))

module _ (env : Env) (max_retries retry_delay : ℕ) where
  abbrev pub found_or : Option Topology → M History Topology → M History Topology
  found_or (some topology) later = pure topology
  found_or none later = later

  -- `if attempt < self._max_retries: time.sleep(self._retry_delay)`
  abbrev pub pause : ℕ → M History Unit
  pause zero = pure tt
  pause (suc _) = sleep_ms (1000 * retry_delay)

  -- The attempts that are left.
  unfoldable pub attempts : ℕ → M History Topology
  attempts zero = exhausted max_retries
  attempts (suc left) = do
    result ← run env (host default_route)
    found_or (parse_route result) (do pause left; attempts left)

  unfoldable pub discover : M History Topology
  unfolding attempts
  discover = attempts max_retries
