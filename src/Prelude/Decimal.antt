-- ===== src/Prelude/Decimal.antt =====
-- `"%d" % n`, the decimal text of a number.
use Prim.Native.Nat.{ℕ, zero, suc, ◌/◌, ◌%◌}
use Prim.Native.String.{String, ◌++◌ as ◌<>◌}
use mathlib.Core.Path.{◌≡◌, refl}
use virtual_private_network.Prelude.Tests.{ltb, ◌==◌, if◌then◌else◌}

digit : ℕ → String
digit n =
    if n == 0
    then "0"
    else if n == 1
    then "1"
    else if n == 2
    then "2"
    else if n == 3
    then "3"
    else if n == 4
    then "4"
    else if n == 5
    then "5"
    else if n == 6
    then "6"
    else if n == 7
    then "7"
    else if n == 8
    then "8"
    else "9"

-- A number has fewer than `n + 1` digits, so this fuel is enough.
decimal_fuel : ℕ → ℕ → String
decimal_fuel zero n = ""
decimal_fuel (suc f) n =
    let more = decimal_fuel f (n / 10) <> digit (n % 10) in if ltb n 10 then digit n else more

unfoldable pub decimal : ℕ → String
unfolding digit decimal_fuel
decimal n = decimal_fuel (suc n) n

decimal_test : decimal 3066 ≡ "3066"
unfolding decimal
decimal_test = refl
