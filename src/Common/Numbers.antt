-- ===== src/Common/Numbers.antt =====
-- Numbers and addresses as texts, printed and parsed by the standard library.
use Prim.Native.Char.{code}
use Prim.Native.Nat.{ℕ, zero, suc, ◌+◌, ◌-◌, ◌*◌, ◌/◌, ◌%◌}
use Prim.Native.String.{String, len, [], ◌∷◌, ◌++◌}
use mathlib.Core.Bool.{Bool, false, not, ◌&&◌, ◌||◌}
use mathlib.Core.Option.{Option, none, some}
use mathlib.Core.List.{List}
use xrayctl.Common.Tests.{ltb, leb, eqb, if◌then◌else◌}
use xrayctl.Common.Text.{in_range, split}

-- `ToString` of an unsigned integer. The fuel is a bound on the number of digits.
digit : ℕ → String
digit n =
    if eqb n 0
    then "0"
    else if eqb n 1
    then "1"
    else if eqb n 2
    then "2"
    else if eqb n 3
    then "3"
    else if eqb n 4
    then "4"
    else if eqb n 5
    then "5"
    else if eqb n 6
    then "6"
    else if eqb n 7
    then "7"
    else if eqb n 8
    then "8"
    else "9"

show_digits : ℕ → ℕ → String
unfolding digit
show_digits zero n = ""
show_digits (suc fuel) n =
    let rest = show_digits fuel (n / 10) in if ltb n 10 then digit n else rest ++ digit (n % 10)

-- `n` has at most `n + 1` digits.
unfoldable pub show : ℕ → String
unfolding show_digits
show n = show_digits (suc n) n

-- `str::parse` of an unsigned integer that is at most `limit`: a `+` may stand in front.
is_digit : ℕ → Bool
is_digit c = in_range b'0' b'9' c

read_digits : ℕ → String → Option ℕ
unfolding is_digit
read_digits n [] = some n
read_digits n (c ∷ s) = if is_digit (code c) then read_digits (n * 10 + (code c - b'0')) s else none

read_nonempty : String → Option ℕ
unfolding read_digits
read_nonempty [] = none
read_nonempty (c ∷ s) = read_digits 0 (c ∷ s)

abbrev at_most : ℕ → Option ℕ → Option ℕ
at_most limit none = none
at_most limit (some n) = if leb n limit then some n else none

unfoldable pub parse_uint : ℕ → String → Option ℕ
unfolding read_nonempty
parse_uint limit [] = none
parse_uint limit (c ∷ s) =
    at_most limit (if eqb (code c) b'+' then read_nonempty s else read_nonempty (c ∷ s))

-- `str::parse` of an `Ipv4Addr`: four octets of one to three digits, without leading zeros.
octet : String → Bool
unfolding read_digits
octet [] = false
octet (c ∷ s) =
    leb (len s) 2
    && (not (eqb (code c) b'0') || eqb (len s) 0)
    && (elim (read_digits 0 (c ∷ s)) [ none ↦ false | some n ↦ leb n 255 ])

four_octets : List String → Bool
unfolding octet
four_octets (List.◌∷◌ a (List.◌∷◌ b (List.◌∷◌ c (List.◌∷◌ d List.[])))) =
    octet a && octet b && octet c && octet d
four_octets _ = false

unfoldable pub is_ipv4 : String → Bool
unfolding split four_octets
is_ipv4 s = four_octets (split b'.' s)
