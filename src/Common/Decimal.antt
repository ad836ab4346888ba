-- ===== src/Common/Decimal.antt =====
-- Decimal numbers in texts, as `str::parse` reads them and `format!` writes them.
pub mod RoundTrip
use Prim.Native.Nat.{ℕ, zero, suc, ◌+◌, ◌*◌, ◌-◌, ◌/◌, ◌%◌}
use mathlib.Core.Bool.{Bool, true, false, ◌&&◌}
use mathlib.Core.List.{List, [], ◌∷◌, ◌++◌}
use mathlib.Core.Option.{Option, none, some, map}
use agent_bash_tool.Common.Tests.{◌==◌, leb, ltb, if◌then◌else◌}
use agent_bash_tool.Common.Int.{ℤ, pos, negsuc, neg}

abbrev pub is_digit : ℕ → Bool
is_digit c = leb 48 c && leb c 57

-- The digits after what was read so far, `none` at another byte or above the bound.
unfoldable pub read_digits : ℕ → ℕ → List ℕ → Option ℕ
read_digits bound n [] = some n
read_digits bound n (c ∷ cs) =
    let next = n * 10 + (c - 48) in
    let rest = read_digits bound next cs in
    if is_digit c then if ltb bound next then none else rest else none

abbrev pub read_magnitude : ℕ → List ℕ → Option ℕ
read_magnitude bound [] = none
read_magnitude bound (c ∷ cs) = read_digits bound 0 (c ∷ cs)

-- `parse` for an unsigned type with this largest value: a plus sign is read, a minus sign is not.
unfoldable pub parse_unsigned : ℕ → List ℕ → Option ℕ
parse_unsigned bound [] = none
parse_unsigned bound (c ∷ cs) =
    if c == 43 then read_magnitude bound cs else read_magnitude bound (c ∷ cs)

abbrev negative : ℕ → ℤ
negative n = neg (pos n)

-- `parse` for a signed type with this largest value.
unfoldable pub parse_signed : ℕ → List ℕ → Option ℤ
parse_signed bound [] = none
parse_signed bound (c ∷ cs) =
    if c == 45
    then map negative (read_magnitude (suc bound) cs)
    else if c == 43
    then map pos (read_magnitude bound cs)
    else map pos (read_magnitude bound (c ∷ cs))

unfoldable pub digits : ℕ → ℕ → List ℕ
digits zero n = []
digits (suc fuel) n =
    let rest = digits fuel (n / 10) in
    if ltb n 10 then (48 + n) ∷ [] else rest ++ ((48 + n % 10) ∷ [])

-- A 64-bit number has at most 20 digits.
unfoldable pub print_unsigned : ℕ → List ℕ
print_unsigned n = digits 20 n

unfoldable pub print_signed : ℤ → List ℕ
print_signed (pos n) = print_unsigned n
print_signed (negsuc n) = 45 ∷ print_unsigned (suc n)
