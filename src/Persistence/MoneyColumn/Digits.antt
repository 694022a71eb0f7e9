-- ===== src/Persistence/MoneyColumn/Digits.antt =====
-- The decimal digits of a number, as `String` of JavaScript spells it.
use ghalla.Base.{
  ℕ, zero, suc, ◌+◌, ◌-◌, ◌*◌, ◌/◌, ◌%◌, ◌^◌, ◌≤◌, ◌<◌, ◌≡◌, refl, ap, ◌∙◌, true, [], ◌∷◌, ◌++◌,
  ltb, length, length-append, All-append, Bool-cases, inl, inr, arith,
}
use ghalla.Base.Text.{Text}
use ghalla.Money.Decimal.{digits_value, is_decimal_digit}
use ghalla.Money.Decimal.Matching.{IsDigits}
use ghalla.Money.Decimal.Value.{pow10}
use ghalla.Persistence.MoneyColumn.{digits_before, digits_of, zeros, pad_with_zeros}

is_decimal_digit_of_lt : (n : ℕ) → n < 10 → is_decimal_digit (b'0' + n) ≡ true
is_decimal_digit_of_lt n h = ground arith

digits_before-IsDigits :
    (fuel n : ℕ) (rest : Text) → IsDigits rest → IsDigits (digits_before fuel n rest)
unfolding digits_before
digits_before-IsDigits zero n rest p = p
digits_before-IsDigits (suc fuel) n rest p = elim (Bool-cases (ltb n 10)) [
  | inl small ↦ rw small (is_decimal_digit_of_lt n (ground arith), p)
  | inr large ↦ rw large (
      digits_before-IsDigits fuel (n / 10) ((b'0' + n % 10) ∷ rest)
        (is_decimal_digit_of_lt (n % 10) (omega arith), p))
]

digit_value : (n : ℕ) → 10 * 0 + (b'0' + n - b'0') ≡ n
digit_value n = omega arith

tens : (n : ℕ) → 10 * (n / 10) + (b'0' + n % 10 - b'0') ≡ n
tens n = omega arith

-- Reading the digits before `rest` from the left shifts the value of what they spell.
digits_before-value :
    (fuel n : ℕ) (rest : Text)
    → n < pow10 fuel
    → digits_value 0 (digits_before fuel n rest) ≡ digits_value n rest
unfolding digits_before digits_value
digits_before-value zero n rest h = ap (λ v. digits_value v rest) (omega arith)
digits_before-value (suc fuel) n rest h = elim (Bool-cases (ltb n 10)) [
  | inl small ↦ rw small (ap (λ v. digits_value v rest) (digit_value n))
  | inr large ↦ rw large (
      digits_before-value fuel (n / 10) ((b'0' + n % 10) ∷ rest) (omega (arith, h))
      ∙ ap (λ v. digits_value v rest) (tens n))
]

zeros-IsDigits : (k : ℕ) → IsDigits (zeros k)
zeros-IsDigits zero = tt
zeros-IsDigits (suc k) = (refl, zeros-IsDigits k)

zero_digit : 10 * 0 + (b'0' - b'0') ≡ 0
zero_digit = refl

zeros-value : (k : ℕ) (text : Text) → digits_value 0 (zeros k ++ text) ≡ digits_value 0 text
unfolding digits_value
zeros-value zero text = refl
zeros-value (suc k) text =
    ap (λ v. digits_value v (zeros k ++ text)) zero_digit ∙ zeros-value k text

length-zeros : (k : ℕ) → length (zeros k) ≡ k
length-zeros zero = refl
length-zeros (suc k) = ap suc (length-zeros k)

-- The padded digits of a number that has at most sixteen
pub padded :
    (n : ℕ) (k : ℕ)
    → n < 10 ^ 16
    → IsDigits (pad_with_zeros k (digits_of n))
      × (k ≤ length (pad_with_zeros k (digits_of n)))
      × (digits_value 0 (pad_with_zeros k (digits_of n)) ≡ n)
unfolding pad_with_zeros digits_of digits_value
padded n k h =
    let digits = digits_before 16 n [] in
    (
      All-append (λ c. is_decimal_digit c ≡ true) (zeros (k - length digits)) digits
          (zeros-IsDigits (k - length digits)) (digits_before-IsDigits 16 n [] tt),
      omega (
        arith,
        length-append (zeros (k - length digits)) digits,
        length-zeros (k - length digits),
      ),
      zeros-value (k - length digits) digits
          ∙ (digits_before-value 16 n [] (omega (arith, h)) ∙ refl),
    )
