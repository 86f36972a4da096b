-- ===== src/Config/Paths.antt =====
-- src/vpn/config/paths.py: where the project lies, and the file that lists its paths. The parents of
-- the module's own file are an argument, nearest first.
pub mod Root
use virtual_private_network.Prelude.{
  ℕ, zero, suc, String, ◌<>◌, Bool, true, false, Option, none, some, List, [], ◌∷◌, is_empty,
  if◌then◌else◌,
}
use virtual_private_network.Ports.Effect.{M, pure, raise, gets, os_error, value_error, ◌>>=◌, ◌>>◌}
use virtual_private_network.Ports.Env.{Env, History, read}
use virtual_private_network.Ports.Json.{Json, obj, end, truthy}

-- `if env_root := os.getenv("PROJECT_ROOT")`
abbrev pub set_root : Option String → Option String
set_root none = none
set_root (some root) = if is_empty root then none else some root

abbrev pub marker : String → String
marker parent = parent <> "/.project_root"

-- `parents[i]`
unfoldable pub parent_at : ℕ → List String → Option String
parent_at i [] = none
parent_at zero (p ∷ ps) = some p
parent_at (suc i) (p ∷ ps) = parent_at i ps

module _ (env : Env) where
  -- The first parent with a marker file.
  unfoldable pub marked : History → List String → Option String
  marked h [] = none
  marked h (p ∷ ps) = let later = marked h ps in if env.exists h (marker p) then some p else later

  abbrev pub or_static : Option String → Option String → M History String
  or_static (some root) other = pure root
  or_static none (some root) = pure root
  or_static none none = raise (value_error "IndexError")

  abbrev pub or_marked : Option String → List String → M History String
  or_marked (some root) parents = pure root
  or_marked none parents = do
    found ← gets (λ h. marked h parents)
    or_static found (parent_at 3 parents)

  unfoldable pub find_project_root : List String → M History String
  unfolding marked parent_at
  find_project_root parents = or_marked (set_root (env.getenv "PROJECT_ROOT")) parents

  abbrev pub or_empty_map : Option Json → M History Json
  or_empty_map none = raise (value_error "invalid YAML")
  or_empty_map (some data') = elim (truthy data') [ true ↦ pure data' | false ↦ pure (obj end) ]

  unfoldable pub load_paths_config : String → M History Json
  load_paths_config root = do
    present ← gets (λ h. env.exists h (root <> "/config/paths.yaml"))
    (if present
        then (do text ← read env (root <> "/config/paths.yaml"); or_empty_map (env.safe_load text))
        else raise (os_error "Paths configuration file not found at: %s"))
