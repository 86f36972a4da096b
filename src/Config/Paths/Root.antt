-- ===== src/Config/Paths/Root.antt =====
-- Which directory is taken for the project's root.
use virtual_private_network.Prelude.{
  String, ◌≡◌, refl, true, false, Option, none, some, List, [], ◌∷◌, ◌++◌, inl, inr, Bool-cases,
  All,
}
use virtual_private_network.Ports.Effect.{ok}
use virtual_private_network.Ports.Env.{Env, History}
use virtual_private_network.Config.Paths.{set_root, marker, marked, find_project_root}

module _ (env : Env) (h : History) where
  abbrev pub Unmarked : String → Type 0
  Unmarked p = env.exists h (marker p) ≡ false

  -- A marked parent with none marked below it, or none marked at all.
  abbrev pub Nearest : List String → Option String → Type 0
  Nearest ps none = All Unmarked ps
  Nearest ps (some p) =
      (below : List String) × (above : List String) × (ps ≡ below ++ p ∷ above)
      × All Unmarked below
      × (env.exists h (marker p) ≡ true)

  later :
      (p : String) (ps : List String) (o : Option String)
      → Unmarked p
      → Nearest ps o
      → Nearest (p ∷ ps) o
  later p ps none u n = (u, n)
  later p ps (some q) u (below, above, e, a, m) = (p ∷ below, above, rw e refl, (u, a), m)

  marked-Nearest : (ps : List String) → Nearest ps (marked env h ps)
  unfolding marked
  marked-Nearest [] = tt
  marked-Nearest (p ∷ ps) = elim (Bool-cases (env.exists h (marker p))) [
    | inl c ↦ rw c ([], ps, refl, tt, c)
    | inr c ↦ rw c (later p ps (marked env h ps) c (marked-Nearest ps))
  ]

  -- Without the environment variable the root is the nearest parent that has a marker file, whether
  -- or not there are four parents.
  pub find_project_root-Nearest :
      (ps : List String) (root : String)
      → set_root (env.getenv "PROJECT_ROOT") ≡ none
      → marked env h ps ≡ some root
      → (find_project_root env ps h ≡ (ok root, h)) × Nearest ps (some root)
  unfolding find_project_root
  find_project_root-Nearest ps root e f = (rw (e, f) refl, rw f at (marked-Nearest ps))
