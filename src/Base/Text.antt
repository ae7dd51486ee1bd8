-- ===== src/Base/Text.antt =====
-- Texts as the Go formatting verbs and `strings` functions treat them.
pub mod Unique
use Prim.Native.Nat.{ℕ, zero, suc, ◌/◌, ◌%◌}
use Prim.Native.String.{String, ◌++◌}
use mathlib.Core.Path.{◌≡◌, refl}
use mathlib.Core.Bool.{true, false}
use elasticell_operator.Base.Tests.{ltb, nat_eq, if◌then◌else◌}

-- One decimal digit; nothing above nine is asked for.
abbrev pub digit : ℕ → String
digit d =
    if nat_eq d 0
    then "0"
    else if nat_eq d 1
    then "1"
    else if nat_eq d 2
    then "2"
    else if nat_eq d 3
    then "3"
    else if nat_eq d 4
    then "4"
    else if nat_eq d 5
    then "5"
    else if nat_eq d 6
    then "6"
    else if nat_eq d 7
    then "7"
    else if nat_eq d 8
    then "8"
    else "9"

-- The fuel `n + 1` is enough: a number has at most that many digits.
unfoldable pub decimal_fuel : ℕ → ℕ → String
decimal_fuel zero n = ""
decimal_fuel (suc f) n = elim (ltb n 10) [
  | true ↦ digit n
  | false ↦ decimal_fuel f (n / 10) ++ digit (n % 10)
]

-- `%d` of a number that is not negative.
unfoldable pub decimal : ℕ → String
unfolding decimal_fuel
decimal n = decimal_fuel (suc n) n

decimal_tests : (decimal 0 ≡ "0") × (decimal 20800 ≡ "20800")
unfolding decimal
decimal_tests = (refl, refl)
