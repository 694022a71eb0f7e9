-- ===== src/Money/Decimal.antt =====
-- `toMinorFromDecimal` and `currencyExponent` of packages/contracts/src/money.ts. A decimal text is
-- read digit by digit; `Number` of a text of digits that is not a safe integer is refused as the code
-- refuses it, since rounding to a double never makes such a number safe.
pub mod Matching
pub mod Value
use ghalla.Base.{
  ℕ, zero, suc, ◌+◌, ◌-◌, ◌*◌, Bool, true, false, not, ◌&&◌, ◌||◌, [], ◌∷◌, ◌++◌, Option, none,
  some, if◌then◌else◌, leb, ◌==◌, is_empty, any, take,
}
use ghalla.Base.Int.{ℤ, pos, neg}
use ghalla.Base.Text.{Text}
use ghalla.Base.Result.{Result, err, precision}
use ghalla.Money.Kernel.{is_safe_integer, to_minor}

pub data CurrencyCode : Type 0 where
  sar aed kwd bhd usd : CurrencyCode

-- `EXPONENTS[currency]`
unfoldable pub currency_exponent : CurrencyCode → ℕ
currency_exponent CurrencyCode.sar = 2
currency_exponent CurrencyCode.aed = 2
currency_exponent CurrencyCode.kwd = 3
currency_exponent CurrencyCode.bhd = 3
currency_exponent CurrencyCode.usd = 2

-- The white space that `trim` takes off
abbrev pub is_space : ℕ → Bool
is_space c =
    (leb 9 c && leb c 13)
    || (c == 32)
    || (c == 160)
    || (c == 5760)
    || (leb 8192 c && leb c 8202)
    || (c == 8232)
    || (c == 8233)
    || (c == 8239)
    || (c == 8287)
    || (c == 12288)
    || (c == 65279)

unfoldable pub trim_start : Text → Text
trim_start [] = []
trim_start (c ∷ text) = let rest = trim_start text in if is_space c then rest else c ∷ text

unfoldable pub trim_end : Text → Text
trim_end [] = []
trim_end (c ∷ text) =
    let rest = trim_end text in if is_empty rest && is_space c then [] else c ∷ rest

abbrev pub is_decimal_digit : ℕ → Bool
is_decimal_digit c = leb b'0' c && leb c b'9'

-- The longest run of digits, and what follows it
unfoldable pub span_digits : Text → Text × Text
span_digits [] = ([], [])
span_digits (c ∷ text) =
    let rest = span_digits text in
    if is_decimal_digit c then (c ∷ rest.0, rest.1) else ([], c ∷ text)

-- The groups of a match of `DECIMAL`
pub record DecimalMatch : Type 0 where
  pub negative : Bool
  pub whole : Text
  pub fraction : Text

abbrev finish : Bool → Text → Text × Text → Option DecimalMatch
finish negative whole (fraction, []) =
    some (record { negative = negative; whole = whole; fraction = fraction })
finish negative whole (fraction, c ∷ text) = none

abbrev after_whole : Bool → Text → Text → Option DecimalMatch
after_whole negative whole [] = some (record { negative = negative; whole = whole; fraction = [] })
after_whole negative whole (c ∷ text) =
    if c == b'.' then finish negative whole (span_digits text) else none

unfoldable pub match_unsigned : Bool → Text → Option DecimalMatch
match_unsigned negative text =
    let (whole, rest) = span_digits text in
    if is_empty whole then none else after_whole negative whole rest

unfoldable pub match_decimal : Text → Option DecimalMatch
match_decimal [] = none
match_decimal (c ∷ text) =
    if c == b'-'
    then match_unsigned true text
    else if c == b'+'
    then match_unsigned false text
    else match_unsigned false (c ∷ text)

-- `padEnd(n, '0')`
unfoldable pub pad_end : ℕ → Text → Text
pad_end zero text = text
pad_end (suc n) [] = b'0' ∷ pad_end n []
pad_end (suc n) (c ∷ text) = c ∷ pad_end n text

unfoldable pub drop : ℕ → Text → Text
drop zero text = text
drop (suc n) [] = []
drop (suc n) (c ∷ text) = drop n text

-- `Number(digits)`
unfoldable pub digits_value : ℕ → Text → ℕ
digits_value value [] = value
digits_value value (c ∷ text) = digits_value (10 * value + (c - b'0')) text

unfoldable pub minor_of_match : ℕ → DecimalMatch → Result ℤ
minor_of_match exponent m =
    let kept = pad_end exponent (take exponent m.fraction) in
    let value = pos (digits_value 0 (m.whole ++ kept)) in
    if any (λ c. leb b'1' c && leb c b'9') (drop exponent m.fraction)
    then err precision
    else if not (is_safe_integer value)
    then err precision
    else to_minor (if m.negative then neg value else value)

abbrev minor_of : ℕ → Option DecimalMatch → Result ℤ
minor_of exponent none = err precision
minor_of exponent (some m) = minor_of_match exponent m

unfoldable pub to_minor_from_decimal : Text → ℕ → Result ℤ
to_minor_from_decimal raw exponent =
    if not ((exponent == 0) || (exponent == 2) || (exponent == 3))
    then err precision
    else minor_of exponent (match_decimal (trim_end (trim_start raw)))
