-- ===== src/Topology/Patterns.antt =====
-- core/topology/discovery.py: the two regular expressions of the module, as `re.match` reads them.
use Prim.Native.Char.{Char, code}
use Prim.Native.String.{String}
use virtual_private_network.Prelude.{
  ℕ, zero, suc, Bool, true, false, ◌&&◌, ◌||◌, Option, none, some, leb, ◌==◌, is_empty,
  if◌then◌else◌, str_eq,
}

-- `[a-zA-Z0-9.-]`
unfoldable pub is_domain_char : Char → Bool
is_domain_char c =
    let n = code c in
    (leb b'a' n && leb n b'z')
    || (leb b'A' n && leb n b'Z')
    || (leb b'0' n && leb n b'9')
    || n == b'.'
    || n == b'-'

-- `$` matches at the end and before a newline that ends the text.
abbrev pub at_end : String → Bool
at_end s = is_empty s || str_eq s "\n"

domain_rest : String → Bool
domain_rest String.[] = true
domain_rest (String.◌∷◌ c s) =
    let rest = domain_rest s in if is_domain_char c then rest else at_end (String.◌∷◌ c s)

-- `^[a-zA-Z0-9.-]+$`
unfoldable pub is_domain : String → Bool
unfolding domain_rest is_domain_char
is_domain String.[] = false
is_domain (String.◌∷◌ c s) = is_domain_char c && domain_rest s

module _ (is_decimal : Char → Bool) where
  -- At most `max` digits, and no digit after them. What follows a group in the expression is never
  -- a digit, so `\d{1,max}` has one way to match.
  digits : ℕ → String → Option String
  digits max String.[] = some String.[]
  digits zero (String.◌∷◌ c s) = if is_decimal c then none else some (String.◌∷◌ c s)
  digits (suc max) (String.◌∷◌ c s) =
      let rest = digits max s in if is_decimal c then rest else some (String.◌∷◌ c s)

  unfoldable pub digit_group : ℕ → String → Option String
  unfolding digits
  digit_group max String.[] = none
  digit_group max (String.◌∷◌ c s) = if is_decimal c then digits max (String.◌∷◌ c s) else none

  abbrev pub then_char : ℕ → Option String → Option String
  then_char n none = none
  then_char n (some String.[]) = none
  then_char n (some (String.◌∷◌ c s)) = if code c == n then some s else none

  abbrev pub and_group : ℕ → Option String → Option String
  and_group max none = none
  and_group max (some s) = digit_group max s

  -- `(/\d{1,2})?$`
  abbrev pub prefix_end : Option String → Bool
  prefix_end none = false
  prefix_end (some s) =
      at_end s
      || (elim (and_group 2 (then_char b'/' (some s))) [ none ↦ false | some rest ↦ at_end rest ])

  -- `^(\d{1,3}\.){3}\d{1,3}(/\d{1,2})?$`
  unfoldable pub is_ipv4 : String → Bool
  unfolding digit_group
  is_ipv4 s =
      let octet = λ (t : Option String). then_char b'.' (and_group 3 t) in
      prefix_end (and_group 3 (octet (octet (octet (some s)))))
