-- ===== src/Cli/Measure/Targets.antt =====
-- src/vpn/cli/main.py, `_resolve_targets`: the servers named on the command line.
pub mod Unique
use virtual_private_network.Prelude.{
  ℕ, String, ◌<>◌, ◌≡◌, ◌≢◌, refl, sym, ◌∙◌, ap, Bool, true, false, not, ◌||◌, ◌&&◌, ◌==◌,
  Bool-cases, ◌⊎◌, inl, inr, List, [], ◌∷◌, ◌++◌, contains, contains-append, strip, is_empty,
  str_eq, eq_iff, arith, if◌then◌else◌, All,
}
use Prim.Native.Char.{Char, code}
use virtual_private_network.Ports.Effect.{M, Outcome, ok, raised, speedtest_error, pure, raise}
use virtual_private_network.Speedtest.Runner.{comma_separated}

abbrev pub cons_first : Char → List String → List String
cons_first c [] = String.◌∷◌ c String.[] ∷ []
cons_first c (l ∷ ls) = String.◌∷◌ c l ∷ ls

-- `item.split(",")`
unfoldable pub split_commas : String → List String
split_commas String.[] = "" ∷ []
split_commas (String.◌∷◌ c s) =
    let rest = split_commas s in if code c == 44 then "" ∷ rest else cons_first c rest

-- The body of the inner loop.
abbrev pub add_part : String → List String → List String
add_part part resolved =
    if is_empty (strip part) || contains (strip part) resolved
    then resolved
    else resolved ++ strip part ∷ []

unfoldable pub add_parts : List String → List String → List String
unfolding strip
add_parts [] resolved = resolved
add_parts (p ∷ ps) resolved = add_parts ps (add_part p resolved)

unfoldable pub add_items : List String → List String → List String
unfolding add_parts split_commas
add_items [] resolved = resolved
add_items (item ∷ items) resolved = add_items items (add_parts (split_commas item) resolved)

-- `[name for name in resolved if name not in known]`
unfoldable pub unknown_in : List String → List String → List String
unknown_in known [] = []
unknown_in known (n ∷ ns) =
    let rest = unknown_in known ns in if contains n known then rest else n ∷ rest

abbrev pub checked : {S : Type 0} → List String → List String → M S (List String)
checked resolved [] = pure resolved
checked resolved (u ∷ us) =
    raise (speedtest_error ("unknown server(s): " <> comma_separated (u ∷ us)))

-- `known` are the keys of the dict.
unfoldable pub resolve_targets : {S : Type 0} → List String → List String → M S (List String)
unfolding add_items unknown_in
resolve_targets items known =
    let resolved = add_items items [] in checked resolved (unknown_in known resolved)
