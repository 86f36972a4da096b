-- ===== src/Ports/Effect.antt =====
-- Methods with state and exceptions. A method takes a state and returns the new one beside its
-- result, also when it raises: what was done before a raise stays done.
use virtual_private_network.Prelude.{ℕ, String, Bool, true, false, List, [], ◌∷◌, if◌then◌else◌}

-- The exceptions of the program. `system_exit` is no `Exception` in Python's sense.
pub data Exn : Type 0 where
  connection_error : String → Exn
  runtime_error : String → Exn
  value_error : String → Exn
  key_error : String → Exn
  index_error : String → Exn
  os_error : String → Exn
  attribute_error : String → Exn
  subscription_error : String → Exn
  speedtest_error : String → Exn
  type_error : String → Exn
  system_exit : ℕ → Exn

-- What `except Exception` catches.
abbrev pub is_exception : Exn → Bool
is_exception (system_exit _) = false
is_exception _ = true

pub data Outcome (A : Type 0) : Type 0 where
  ok : A → Outcome A
  raised : Exn → Outcome A

abbrev pub M : Type 0 → Type 0 → Type 0
M S A = S → Outcome A × S

module _ {S A : Type 0} where
  abbrev pub pure : A → M S A
  pure a s = (ok a, s)

  abbrev pub raise : Exn → M S A
  raise e s = (raised e, s)

  abbrev pub gets : (S → A) → M S A
  gets f s = (ok (f s), s)

  abbrev pub handle_in : Outcome A → (Exn → M S A) → M S A
  handle_in (ok a) f s = (ok a, s)
  handle_in (raised e) f s = if is_exception e then f e s else (raised e, s)

  -- `try: m  except Exception as e: f(e)`
  abbrev pub try_except : M S A → (Exn → M S A) → M S A
  try_except m f s = let (r, s') = m s in handle_in r f s'

abbrev pub modify : {S : Type 0} → (S → S) → M S (Unit {0})
modify f s = (ok tt, f s)

module _ {S A B : Type 0} where
  abbrev pub continue : Outcome A → (A → M S B) → M S B
  continue (ok a) f s = f a s
  continue (raised e) f s = (raised e, s)

  infixl 5 ◌>>=◌
  abbrev pub ◌>>=◌ : M S A → (A → M S B) → M S B
  ◌>>=◌ m f s = let (r, s') = m s in continue r f s'

infixl 5 ◌>>◌
abbrev pub ◌>>◌ : {S B : Type 0} → M S (Unit {0}) → M S B → M S B
m >> k = m >>= λ _. k

-- `for x in xs: f(x)`
unfoldable pub for_each : {S A : Type 0} → (A → M S (Unit {0})) → List A → M S (Unit {0})
for_each f [] = pure tt
for_each f (x ∷ xs) = f x >> for_each f xs
