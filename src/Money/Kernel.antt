-- ===== src/Money/Kernel.antt =====
-- The checked constructors of packages/contracts/src/money.ts, and the arithmetic of
-- packages/core/src/money.ts above the allocator.
use ghalla.Base.{
  ℕ, ◌+◌, ◌-◌, ◌*◌, ◌/◌, Bool, true, false, not, ◌&&◌, ◌||◌, List, [], ◌∷◌, Option, none, some, leb,
  if◌then◌else◌,
}
use ghalla.Base.Int.{ℤ, pos, ◌+ℤ◌, ◌-ℤ◌, ◌*ℤ◌, neg, abs, ltb_ℤ, leb_ℤ}
use ghalla.Base.Result.{Result, ok, err, precision, money_kernel, throw_if, ◌>>=◌}

-- `Number.MAX_SAFE_INTEGER`
abbrev pub max_safe_integer : ℕ
max_safe_integer = 9_007_199_254_740_991

abbrev pub max_minor : ℕ
max_minor = 900_719_925_474

-- `Number.isSafeInteger`
abbrev pub is_safe_integer : ℤ → Bool
is_safe_integer v = leb (abs v) max_safe_integer

abbrev pub is_minor : ℤ → Bool
is_minor v = is_safe_integer v && leb (abs v) max_minor

unfoldable pub to_minor : ℤ → Result ℤ
to_minor v =
    if not (is_safe_integer v)
    then err precision
    else if not (leb (abs v) max_minor)
    then err precision
    else ok v

unfoldable pub to_bps : ℤ → Result ℤ
to_bps v = if not (is_safe_integer v) then err precision else ok v

-- The loop of `addMinor`, on the running total.
unfoldable pub add_from : ℤ → List ℤ → Result ℤ
add_from total [] = to_minor total
add_from total (v ∷ vs) =
    let rest = add_from (total +ℤ v) vs in
    if is_safe_integer (total +ℤ v) then rest else err money_kernel

unfoldable pub add_minor : List ℤ → Result ℤ
add_minor = add_from (pos 0)

unfoldable pub sub_minor : ℤ → ℤ → Result ℤ
sub_minor a b = to_minor (a -ℤ b)

unfoldable pub negate_minor : ℤ → Result ℤ
negate_minor v = to_minor (neg v)

-- Quotient of magnitudes, a half rounded up.
unfoldable pub round_half : ℕ → ℕ → ℕ
round_half n d =
    let whole = n / d in
    let remainder = n - whole * d in if leb d (remainder * 2) then whole + 1 else whole

abbrev pub with_sign : Bool → ℕ → ℤ
with_sign true n = neg (pos n)
with_sign false n = pos n

-- `divRoundHalfAwayFromZero`, exported as `divRoundHalfAway`
unfoldable pub div_round_half_away : ℤ → ℤ → Result ℤ
div_round_half_away numerator denominator =
    if not (is_safe_integer denominator) || leb_ℤ denominator (pos 0)
    then err money_kernel
    else if not (is_safe_integer numerator)
    then err money_kernel
    else ok (with_sign (ltb_ℤ numerator (pos 0)) (round_half (abs numerator) (abs denominator)))

unfoldable pub mul_bps : ℤ → ℤ → Result ℤ
mul_bps value bps = do
  _ ← throw_if (not (is_safe_integer bps)) money_kernel
  q ← div_round_half_away (value *ℤ bps) (pos 10_000)
  to_minor q

abbrev pub at_least : ℤ → Option ℤ → ℤ
at_least v none = v
at_least v (some lo) = if ltb_ℤ v lo then lo else v

abbrev pub at_most : ℤ → Option ℤ → ℤ
at_most v none = v
at_most v (some hi) = if ltb_ℤ hi v then hi else v

unfoldable pub clamp_minor : ℤ → Option ℤ → Option ℤ → Result ℤ
clamp_minor value lo hi = to_minor (at_most (at_least value lo) hi)

pub record VatSplit : Type 0 where
  pub net : ℤ
  pub vat : ℤ

unfoldable pub split_vat_inclusive : ℤ → ℤ → Result VatSplit
split_vat_inclusive gross vat_rate_bps = do
  _ ← throw_if (ltb_ℤ vat_rate_bps (pos 0)) money_kernel
  q ← div_round_half_away (gross *ℤ pos 10_000) (pos 10_000 +ℤ vat_rate_bps)
  net ← to_minor q
  vat ← sub_minor gross net
  ok (record { net = net; vat = vat })

unfoldable pub assert_in_range : ℤ → Result ℤ
assert_in_range v = if not (is_minor v) then err money_kernel else to_minor v
