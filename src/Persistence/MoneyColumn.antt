-- ===== src/Persistence/MoneyColumn.antt =====
-- packages/persistence/src/db/money.ts: money in a column of type numeric(14, 2), as decimal text.
pub mod Digits
pub mod RoundTrip
use ghalla.Base.{
  ℕ, zero, suc, ◌+◌, ◌-◌, ◌/◌, ◌%◌, Bool, true, false, [], ◌∷◌, ◌++◌, Option, none, some,
  if◌then◌else◌, ltb, ◌==◌, length, take,
}
use ghalla.Base.Int.{ℤ, pos, negsuc, abs}
use ghalla.Base.Text.{Text}
use ghalla.Base.Result.{Result, ok, ◌>>=◌}
use ghalla.Money.Decimal.{CurrencyCode, currency_exponent, to_minor_from_decimal, drop}

abbrev pub money_precision : ℕ
money_precision = 14

abbrev pub money_scale : ℕ
money_scale = 2

-- Whether `assertStorableCurrency` returns
unfoldable pub is_storable_currency : CurrencyCode → Bool
unfolding currency_exponent
is_storable_currency currency = currency_exponent currency == money_scale

-- The digits of a number before `rest`, at most `fuel` of them
unfoldable pub digits_before : ℕ → ℕ → Text → Text
digits_before zero n rest = rest
digits_before (suc fuel) n rest =
    let more = digits_before fuel (n / 10) ((b'0' + n % 10) ∷ rest) in
    if ltb n 10 then (b'0' + n) ∷ rest else more

-- `String(n)` of a safe integer, which has at most sixteen digits
unfoldable pub digits_of : ℕ → Text
unfolding digits_before
digits_of n = digits_before 16 n []

abbrev pub zeros : ℕ → Text
zeros zero = []
zeros (suc n) = b'0' ∷ zeros n

-- `padStart(n, '0')`
unfoldable pub pad_with_zeros : ℕ → Text → Text
pad_with_zeros n text = zeros (n - length text) ++ text

abbrev pub is_negative : ℤ → Bool
is_negative (pos n) = false
is_negative (negsuc n) = true

abbrev numeric_of_digits : Bool → Text → Text
numeric_of_digits negative digits =
    let whole = take (length digits - money_scale) digits in
    let fraction = drop (length digits - money_scale) digits in
    (if negative then b'-' ∷ [] else []) ++ (whole ++ (b'.' ∷ fraction))

unfoldable pub minor_to_numeric : ℤ → Text
unfolding digits_of pad_with_zeros drop
minor_to_numeric value =
    numeric_of_digits (is_negative value) (pad_with_zeros (money_scale + 1) (digits_of (abs value)))

unfoldable pub numeric_to_minor : Text → Result ℤ
unfolding to_minor_from_decimal
numeric_to_minor raw = to_minor_from_decimal raw money_scale

abbrev pub minor_to_numeric_or_null : Option ℤ → Option Text
minor_to_numeric_or_null none = none
minor_to_numeric_or_null (some value) = some (minor_to_numeric value)

abbrev pub numeric_to_minor_or_null : Option Text → Result (Option ℤ)
numeric_to_minor_or_null none = ok none
numeric_to_minor_or_null (some raw) = numeric_to_minor raw >>= λ value. ok (some value)
