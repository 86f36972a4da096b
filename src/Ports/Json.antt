-- ===== src/Ports/Json.antt =====
-- The values that `json.loads` gives, as far as the daemon looks into them.
use virtual_private_network.Prelude.{
  ℕ, zero, suc, String, Bool, true, false, not, ◌||◌, is_empty, Option, none, some, List, [], ◌∷◌,
  str_eq, if◌then◌else◌,
}

mutual
  pub data Json : Type 0 where
    null : Json
    bool : Bool → Json
    num : ℕ → Json
    -- a number that is no natural number, as Python writes it
    real : String → Json
    str : String → Json
    arr : Items → Json
    obj : Fields → Json

  pub data Items : Type 0 where
    nil : Items
    cons : Json → Items → Items

  pub data Fields : Type 0 where
    end : Fields
    field : String → Json → Fields → Fields

unfoldable pub lookup : String → Fields → Option Json
lookup k end = none
lookup k (field j v fs) = if str_eq j k then some v else lookup k fs

unfoldable pub elements : Items → List Json
elements nil = []
elements (cons x xs) = x ∷ elements xs

-- `value.get(key)`; only a dict has the method, on anything else it raises.
unfoldable pub get : String → Json → Option (Option Json)
unfolding lookup
get k (obj fs) = some (lookup k fs)
get k _ = none

-- `bool(value)`
unfoldable pub truthy : Json → Bool
truthy null = false
truthy (bool b) = b
truthy (num zero) = false
truthy (num (suc n)) = true
truthy (real s) = not (str_eq s "0.0" || str_eq s "-0.0")
truthy (str s) = not (is_empty s)
truthy (arr nil) = false
truthy (arr (cons _ _)) = true
truthy (obj end) = false
truthy (obj (field _ _ _)) = true
