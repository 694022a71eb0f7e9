-- ===== src/Persistence/MoneyColumn/RoundTrip.antt =====
-- `minorToNumeric` and `numericToMinor` of packages/persistence/src/db/money.ts.
use ghalla.Base.{
  ℕ, zero, suc, ◌+◌, ◌-◌, ◌*◌, ◌≤◌, ◌≡◌, refl, sym, ap, ◌∙◌, [], ◌∷◌, ◌++◌, length, take, arith,
}
use ghalla.Base.Int.{ℤ, pos, negsuc, neg, abs}
use ghalla.Base.Text.{Text}
use ghalla.Base.Result.{ok}
use ghalla.Money.{max_minor}
use ghalla.Money.Decimal.{digits_value, drop}
use ghalla.Money.Decimal.Matching.{IsDigits}
use ghalla.Money.Decimal.Value.{
  pow10, digits_value-append, digits_value-from, to_minor_from_decimal-value,
  to_minor_from_decimal-negative,
}
use ghalla.Persistence.MoneyColumn.{digits_of, pad_with_zeros, minor_to_numeric, numeric_to_minor}
use ghalla.Persistence.MoneyColumn.Digits.{padded}

take-drop : (k : ℕ) (text : Text) → take k text ++ drop k text ≡ text
unfolding drop
take-drop zero text = refl
take-drop (suc k) [] = refl
take-drop (suc k) (c ∷ text) = ap (λ (t : Text). c ∷ t) (take-drop k text)

take-IsDigits : (k : ℕ) (text : Text) → IsDigits text → IsDigits (take k text)
take-IsDigits zero text p = tt
take-IsDigits (suc k) [] p = tt
take-IsDigits (suc k) (c ∷ text) p = (p.0, take-IsDigits k text p.1)

drop-IsDigits : (k : ℕ) (text : Text) → IsDigits text → IsDigits (drop k text)
unfolding drop
drop-IsDigits zero text p = p
drop-IsDigits (suc k) [] p = tt
drop-IsDigits (suc k) (c ∷ text) p = drop-IsDigits k text p.1

length-drop : (k : ℕ) (text : Text) → length (drop k text) ≡ length text - k
unfolding drop
length-drop zero text = omega arith
length-drop (suc k) [] = omega arith
length-drop (suc k) (c ∷ text) = omega (arith, length-drop k text)

join : (v w l : ℕ) → l ≡ 2 → v * pow10 l + w ≡ v * pow10 2 + w * pow10 (2 - l)
join v w l two = rw two (omega arith)

length-take_le : (k : ℕ) (text : Text) → k ≤ length text → length (take k text) ≡ k
length-take_le zero text h = refl
length-take_le (suc k) [] h = absurd (omega arith)
length-take_le (suc k) (c ∷ text) h = omega (arith, length-take_le k text (omega arith))

-- The two last digits are the fraction of what all digits spell.
split-value :
    (text : Text)
    → 2 ≤ length text
    → digits_value 0 (take (length text - 2) text) * pow10 2
        + digits_value 0 (drop (length text - 2) text)
          * pow10 (2 - length (drop (length text - 2) text))
      ≡ digits_value 0 text
split-value text long =
    let k = length text - 2 in
    let two : length (drop k text) ≡ 2 = omega (arith, length-drop k text) in
    sym (
      ap (λ t. digits_value 0 t) (sym (take-drop k text))
      ∙ (digits_value-append 0 (take k text) (drop k text)
          ∙ (digits_value-from (digits_value 0 (take k text)) (drop k text)
              ∙ join (digits_value 0 (take k text)) (digits_value 0 (drop k text))
                  (length (drop k text)) two)))

abbrev value_of : Text → Text → ℕ
value_of whole fraction =
    digits_value 0 whole * pow10 2 + digits_value 0 fraction * pow10 (2 - length fraction)

-- A whole part and a fraction of at most two digits are read with either sign.
read_parts :
    (whole fraction : Text)
    → 1 ≤ length whole
    → IsDigits whole
    → IsDigits fraction
    → length fraction ≤ 2
    → value_of whole fraction ≤ max_minor
    → (numeric_to_minor (whole ++ (b'.' ∷ fraction)) ≡ ok (pos (value_of whole fraction)))
      × (numeric_to_minor (b'-' ∷ (whole ++ (b'.' ∷ fraction)))
          ≡ ok (neg (pos (value_of whole fraction))))
unfolding numeric_to_minor
read_parts [] fraction some_digit p q short small = absurd (omega arith)
read_parts (x ∷ xs) fraction some_digit p q short small = (
  to_minor_from_decimal-value 2 x xs fraction refl p q short small,
  to_minor_from_decimal-negative 2 x xs fraction refl p q short small,
)

read_digits :
    (text : Text) (n : ℕ)
    → IsDigits text
    → 3 ≤ length text
    → digits_value 0 text ≡ n
    → n ≤ max_minor
    → (numeric_to_minor (take (length text - 2) text ++ (b'.' ∷ drop (length text - 2) text))
        ≡ ok (pos n))
      × (numeric_to_minor
            (b'-' ∷ (take (length text - 2) text ++ (b'.' ∷ drop (length text - 2) text)))
          ≡ ok (neg (pos n)))
read_digits text n p long spelt small =
    let k = length text - 2 in
    let same : value_of (take k text) (drop k text) ≡ n = split-value text (omega arith) ∙ spelt in
    let (plus, minus) =
      read_parts (take k text) (drop k text) (omega (arith, length-take_le k text))
        (take-IsDigits k text p) (drop-IsDigits k text p) (omega (arith, length-drop k text))
        (omega (arith, same)) in
    (plus ∙ ap (λ v. ok (pos v)) same, minus ∙ ap (λ v. ok (neg (pos v))) same)

abs_pos : (n : ℕ) → abs (pos n) ≡ n
abs_pos n = omega arith

abs_negsuc : (n : ℕ) → abs (negsuc n) ≡ suc n
abs_negsuc n = omega arith

-- An amount in the range of money that is written to a column is read back as the same amount.
pub numeric_to_minor-minor_to_numeric :
    (value : ℤ) → abs value ≤ max_minor → numeric_to_minor (minor_to_numeric value) ≡ ok value
unfolding minor_to_numeric neg
numeric_to_minor-minor_to_numeric (pos n) small =
    let (digits, long, spelt) = padded (abs (pos n)) 3 (omega arith) in
    (read_digits (pad_with_zeros 3 (digits_of (abs (pos n)))) (abs (pos n)) digits long spelt
      small).0
    ∙ ap (λ v. ok (pos v)) (abs_pos n)
numeric_to_minor-minor_to_numeric (negsuc n) small =
    let (digits, long, spelt) = padded (abs (negsuc n)) 3 (omega arith) in
    (read_digits (pad_with_zeros 3 (digits_of (abs (negsuc n)))) (abs (negsuc n)) digits long spelt
      small).1
    ∙ ap (λ v. ok (neg (pos v))) (abs_negsuc n)
