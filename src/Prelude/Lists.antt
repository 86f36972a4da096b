-- ===== src/Prelude/Lists.antt =====
-- Lists measured by native numbers, Python's `in`, `append` and `remove` on lists of texts.
use Prim.Native.Nat.{ℕ, suc, zero, ◌+◌}
use Prim.Native.String.{String}
use mathlib.Core.Path.{◌≡◌, refl}
use mathlib.Core.Bool.{Bool, false, ◌||◌}
use mathlib.Core.Option.{Option, none, some}
use mathlib.Core.List.{List, [], ◌∷◌, ◌++◌}
use native.Mathlib.Omega.{arith}
use text.Mathlib.Text.{◌==◌ as str_eq}
use text.Mathlib.TextEquality.{eq_iff}
use virtual_private_network.Prelude.Tests.{if◌then◌else◌}

module _ {ℓ} {A : Type ℓ} where
  abbrev pub length : List A → ℕ
  length [] = 0
  length (x ∷ xs) = suc (length xs)

  pub length-append : (xs ys : List A) → length (xs ++ ys) ≡ length xs + length ys
  length-append [] ys = omega arith
  length-append (x ∷ xs) ys = omega (arith, length-append xs ys)

  -- A predicate on every element.
  abbrev pub All {κ} : (A → Type κ) → List A → Type κ
  All P [] = Unit
  All P (x ∷ xs) = P x × All P xs

  pub All-append {κ} : (P : A → Type κ) (xs ys : List A) → All P xs → All P ys → All P (xs ++ ys)
  All-append P [] ys p q = q
  All-append P (x ∷ xs) ys p q = (p.0, All-append P xs ys p.1 q)

-- `x in xs`
abbrev pub contains : String → List String → Bool
contains x [] = false
contains x (y ∷ ys) = str_eq y x || contains x ys

-- `xs.remove(x)`, which raises `ValueError` (here `none`) when `x` is not there.
unfoldable pub remove : String → List String → Option (List String)
remove x [] = none
remove x (y ∷ ys) =
    if str_eq y x then some ys else elim (remove x ys) [ none ↦ none | some rest ↦ some (y ∷ rest) ]

pub contains-append :
    (x : String) (xs ys : List String) → contains x (xs ++ ys) ≡ (contains x xs || contains x ys)
contains-append x [] ys = refl
contains-append x (y ∷ xs) ys = ground (arith, contains-append x xs ys)

pub remove-append_self :
    (x : String) (xs : List String) → contains x xs ≡ false → remove x (xs ++ x ∷ []) ≡ some xs
unfolding remove
remove-append_self x [] h = ground (arith, eq_iff x x)
remove-append_self x (y ∷ xs) h = ground (arith, remove-append_self x xs)

-- `range(start, start + n)`
unfoldable pub range : ℕ → ℕ → List ℕ
range start zero = []
range start (suc n) = start ∷ range (suc start) n
