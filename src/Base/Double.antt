-- ===== src/Base/Double.antt =====
-- JavaScript's `Math.floor((a * b) / c)` on IEEE 754 doubles, for integers `a`, `b` and a positive
-- integer `c`: the product and the quotient are each rounded to 53 binary digits, ties to even.
-- (No value here comes near the overflow or the underflow of a double.)
use Prim.Native.Nat.{ℕ, zero, suc, ◌+◌, ◌-◌, ◌*◌, ◌/◌, ◌%◌, ◌^◌}
use mathlib.Core.Bool.{true, false}
use ghalla.Base.Tests.{ltb, leb, ◌==◌, if◌then◌else◌}
use ghalla.Base.Int.{ℤ, pos, neg, abs, ltb_ℤ}

-- The number of binary digits, up to the fuel.
unfoldable pub digits_from : ℕ → ℕ → ℕ
digits_from zero n = 0
digits_from (suc f) n = elim (n == 0) [ true ↦ 0 | false ↦ suc (digits_from f (n / 2)) ]

-- Every number in use has far fewer than 1100 binary digits, the most that a double's integer has.
abbrev pub digits : ℕ → ℕ
digits = digits_from 1100

-- `n / d` to the nearest integer, ties to even
unfoldable pub half_even : ℕ → ℕ → ℕ
half_even n d =
    let q = n / d in
    let r = n % d in
    if ltb (2 * r) d then q else if ltb d (2 * r) then q + 1 else if q % 2 == 0 then q else q + 1

-- An integer as a double
unfoldable pub round_53 : ℕ → ℕ
round_53 n = let e = digits n - 53 in if leb (digits n) 53 then n else half_even n (2 ^ e) * 2 ^ e

-- The double nearest to `p / c`, as a numerator over `2 ^ scale c`
abbrev scale : ℕ → ℕ
scale c = 53 + digits c

unfoldable pub double_quotient : ℕ → ℕ → ℕ
double_quotient p c =
    let n = p * 2 ^ scale c in let e = digits (n / c) - 53 in half_even n (c * 2 ^ e) * 2 ^ e

-- Magnitudes: floor, and ceiling for the quotient of a negative product
unfoldable pub floor_quotient : ℕ → ℕ → ℕ
floor_quotient p c = double_quotient p c / 2 ^ scale c

unfoldable pub ceil_quotient : ℕ → ℕ → ℕ
ceil_quotient p c = (double_quotient p c + (2 ^ scale c - 1)) / 2 ^ scale c

unfoldable pub floor_mul_div : ℤ → ℤ → ℤ → ℤ
floor_mul_div a b c =
    let p = round_53 (abs a * abs b) in
    let positive = pos (floor_quotient p (abs c)) in
    let negative = neg (pos (ceil_quotient p (abs c))) in
    if ltb_ℤ a (pos 0)
    then (if ltb_ℤ b (pos 0) then positive else negative)
    else if ltb_ℤ b (pos 0)
    then negative
    else positive
