-- ===== src/Money/Decimal/Value.antt =====
-- `toMinorFromDecimal` of packages/contracts/src/money.ts: the value of what is read.
use ghalla.Base.{
  ℕ, zero, suc, ◌+◌, ◌-◌, ◌*◌, ◌≤◌, ◌≡◌, refl, true, false, ◌&&◌, ◌||◌, [], ◌∷◌, ◌++◌, leb, ◌==◌,
  any, take, length, arith, ap, sym, ◌∙◌, Bool-cases, inl, inr,
}
use ghalla.Base.Int.{pos, neg, abs, abs-neg}
use ghalla.Base.Text.{Text}
use ghalla.Base.Result.{ok, err, precision}
use ghalla.Money.Kernel.{is_safe_integer, to_minor, max_minor}
use ghalla.Money.Exact.{to_minor_of_le}
use ghalla.Money.Decimal.{
  DecimalMatch, pad_end, drop, digits_value, minor_of_match, to_minor_from_decimal,
}
use ghalla.Money.Decimal.Matching.{IsDigits, match_decimal-trimmed, match_decimal-negative}

abbrev pub pow10 : ℕ → ℕ
pow10 zero = 1
pow10 (suc n) = 10 * pow10 n

shift : (v d p t : ℕ) → (10 * v + d) * p + t ≡ v * (10 * p) + ((10 * 0 + d) * p + t)
shift v d p t = grind arith

pub digits_value-from :
    (v : ℕ) (text : Text) → digits_value v text ≡ v * pow10 (length text) + digits_value 0 text
unfolding digits_value
digits_value-from v [] = omega arith
digits_value-from v (c ∷ text) =
    let d = c - b'0' in
    let here = digits_value-from (10 * v + d) text in
    let alone = digits_value-from (10 * 0 + d) text in
    here
    ∙ (shift v d (pow10 (length text)) (digits_value 0 text)
        ∙ sym (ap (λ t. v * (10 * pow10 (length text)) + t) alone))

pub digits_value-append :
    (v : ℕ) (xs ys : Text) → digits_value v (xs ++ ys) ≡ digits_value (digits_value v xs) ys
unfolding digits_value
digits_value-append v [] ys = refl
digits_value-append v (c ∷ xs) ys = digits_value-append (10 * v + (c - b'0')) xs ys

pow10-suc : (v e : ℕ) → (10 * v + 0) * pow10 e ≡ v * pow10 (suc e)
pow10-suc v e = grind arith

digits_value-zeros : (v e : ℕ) → digits_value v (pad_end e []) ≡ v * pow10 e
unfolding digits_value pad_end
digits_value-zeros v zero = omega arith
digits_value-zeros v (suc e) = digits_value-zeros (10 * v + 0) e ∙ pow10-suc v e

pad_end-value :
    (v e c : ℕ) (text : Text)
    → digits_value (10 * v + (c - b'0')) (pad_end e text)
      ≡ digits_value (10 * v + (c - b'0')) text * pow10 (e - length text)
    → digits_value v (pad_end (suc e) (c ∷ text))
      ≡ digits_value v (c ∷ text) * pow10 (e - length text)
unfolding digits_value pad_end
pad_end-value v e c text same = same

minus_zero : (e : ℕ) → e ≡ e - 0
minus_zero e = omega arith

minus_suc : (e n : ℕ) → e - n ≡ suc e - suc n
minus_suc e n = omega arith

digits_value-pad :
    (v e : ℕ) (text : Text)
    → length text ≤ e
    → digits_value v (pad_end e text) ≡ digits_value v text * pow10 (e - length text)
unfolding digits_value
digits_value-pad v e [] h = digits_value-zeros v e ∙ ap (λ k. v * pow10 k) (minus_zero e)
digits_value-pad v zero (c ∷ text) h = absurd (omega arith)
digits_value-pad v (suc e) (c ∷ text) h =
    pad_end-value v e c text (digits_value-pad (10 * v + (c - b'0')) e text (omega arith))
    ∙ ap (λ k. digits_value v (c ∷ text) * pow10 k) (minus_suc e (length text))

take-all : (e : ℕ) (text : Text) → length text ≤ e → take e text ≡ text
take-all zero [] h = refl
take-all zero (c ∷ text) h = absurd (omega arith)
take-all (suc e) [] h = refl
take-all (suc e) (c ∷ text) h = ap (λ (t : Text). c ∷ t) (take-all e text (omega arith))

drop-all : (e : ℕ) (text : Text) → length text ≤ e → drop e text ≡ []
unfolding drop
drop-all zero [] h = refl
drop-all zero (c ∷ text) h = absurd (omega arith)
drop-all (suc e) [] h = refl
drop-all (suc e) (c ∷ text) h = drop-all e text (omega arith)

assoc10 : (p q : ℕ) → 10 * p * q ≡ 10 * (p * q)
assoc10 p q = grind arith

plus_minus : (e n : ℕ) → n ≤ e → n + (e - n) ≡ e
plus_minus e n h = omega arith

spread : (v w p q : ℕ) → (v * p + w) * q ≡ v * (p * q) + w * q
spread v w p q = grind arith

is_safe_integer-of_le : (n : ℕ) → n ≤ max_minor → is_safe_integer (pos n) ≡ true
is_safe_integer-of_le n h = ground arith

one_times : (p : ℕ) → 1 * p ≡ p
one_times p = omega arith

zero_plus : (n : ℕ) → n ≡ 0 + n
zero_plus n = omega arith

abs-pos : (n : ℕ) → abs (pos n) ≡ n
abs-pos n = omega arith

to_minor-pos : (n : ℕ) → n ≤ max_minor → to_minor (pos n) ≡ ok (pos n)
to_minor-pos n h = to_minor_of_le (pos n) (rw (abs-pos n) h)

suc_plus : (m n : ℕ) → suc (m + n) ≡ suc m + n
suc_plus m n = omega arith

pow10-add : (m n : ℕ) → pow10 m * pow10 n ≡ pow10 (m + n)
pow10-add zero n = one_times (pow10 n) ∙ ap pow10 (zero_plus n)
pow10-add (suc m) n =
    assoc10 (pow10 m) (pow10 n) ∙ (ap (λ p. 10 * p) (pow10-add m n) ∙ ap pow10 (suc_plus m n))

pow10-minus : (e n : ℕ) → n ≤ e → pow10 n * pow10 (e - n) ≡ pow10 e
pow10-minus e n h = pow10-add n (e - n) ∙ ap pow10 (plus_minus e n h)

kept-value :
    (e : ℕ) (xs ys : Text)
    → length ys ≤ e
    → digits_value 0 (xs ++ pad_end e (take e ys))
      ≡ digits_value 0 xs * pow10 e + digits_value 0 ys * pow10 (e - length ys)
kept-value e xs ys h =
    digits_value-append 0 xs (pad_end e (take e ys))
    ∙ (ap (λ t. digits_value (digits_value 0 xs) (pad_end e t)) (take-all e ys h)
        ∙ (digits_value-pad (digits_value 0 xs) e ys h
            ∙ (ap (λ v. v * pow10 (e - length ys)) (digits_value-from (digits_value 0 xs) ys)
                ∙ (spread (digits_value 0 xs) (digits_value 0 ys) (pow10 (length ys))
                      (pow10 (e - length ys))
                    ∙ ap (λ p. digits_value 0 xs * p + digits_value 0 ys * pow10 (e - length ys))
                        (pow10-minus e (length ys) h)))))

minor_of_match-value :
    (e : ℕ) (xs ys : Text)
    → length ys ≤ e
    → digits_value 0 xs * pow10 e + digits_value 0 ys * pow10 (e - length ys) ≤ max_minor
    → minor_of_match e (record { negative = false; whole = xs; fraction = ys })
      ≡ ok (pos (digits_value 0 xs * pow10 e + digits_value 0 ys * pow10 (e - length ys)))
unfolding minor_of_match
minor_of_match-value e xs ys h small =
    let value = digits_value 0 xs * pow10 e + digits_value 0 ys * pow10 (e - length ys) in
    rw (drop-all e ys h, kept-value e xs ys h, is_safe_integer-of_le value small)
      (to_minor-pos value small)

-- A text of digits, a point and no more digits than the exponent is read, when its value in minor
-- units is in the range of money, and the result is exactly that value: the whole part times ten to
-- the exponent, and the fraction times ten to the digits it leaves out.
pub to_minor_from_decimal-value :
    (e x : ℕ) (xs ys : Text)
    → ((e == 0) || (e == 2) || (e == 3)) ≡ true
    → IsDigits (x ∷ xs)
    → IsDigits ys
    → length ys ≤ e
    → digits_value 0 (x ∷ xs) * pow10 e + digits_value 0 ys * pow10 (e - length ys) ≤ max_minor
    → to_minor_from_decimal ((x ∷ xs) ++ (b'.' ∷ ys)) e
      ≡ ok (pos (digits_value 0 (x ∷ xs) * pow10 e + digits_value 0 ys * pow10 (e - length ys)))
unfolding to_minor_from_decimal
to_minor_from_decimal-value e x xs ys known p q h small =
    rw (known, match_decimal-trimmed x xs ys p q) (minor_of_match-value e (x ∷ xs) ys h small)

abs-neg_pos : (n : ℕ) → abs (neg (pos n)) ≡ n
abs-neg_pos n = omega (arith, abs-neg (pos n))

minor_of_match-negative :
    (e : ℕ) (xs ys : Text)
    → length ys ≤ e
    → digits_value 0 xs * pow10 e + digits_value 0 ys * pow10 (e - length ys) ≤ max_minor
    → minor_of_match e (record { negative = true; whole = xs; fraction = ys })
      ≡ ok (neg (pos (digits_value 0 xs * pow10 e + digits_value 0 ys * pow10 (e - length ys))))
unfolding minor_of_match
minor_of_match-negative e xs ys h small =
    let value = digits_value 0 xs * pow10 e + digits_value 0 ys * pow10 (e - length ys) in
    rw (drop-all e ys h, kept-value e xs ys h, is_safe_integer-of_le value small)
      (to_minor_of_le (neg (pos value)) (rw (abs-neg_pos value) small))

-- A text with the sign of a negative amount is read as the opposite of what it is without the sign.
pub to_minor_from_decimal-negative :
    (e x : ℕ) (xs ys : Text)
    → ((e == 0) || (e == 2) || (e == 3)) ≡ true
    → IsDigits (x ∷ xs)
    → IsDigits ys
    → length ys ≤ e
    → digits_value 0 (x ∷ xs) * pow10 e + digits_value 0 ys * pow10 (e - length ys) ≤ max_minor
    → to_minor_from_decimal (b'-' ∷ ((x ∷ xs) ++ (b'.' ∷ ys))) e
      ≡ ok (
          neg (pos (digits_value 0 (x ∷ xs) * pow10 e + digits_value 0 ys * pow10 (e - length ys))))
unfolding to_minor_from_decimal
to_minor_from_decimal-negative e x xs ys known p q h small =
    rw (known, match_decimal-negative x xs ys p q) (minor_of_match-negative e (x ∷ xs) ys h small)

minor_of_match-truncated :
    (e : ℕ) (m : DecimalMatch)
    → any (λ c. leb b'1' c && leb c b'9') (drop e m.fraction) ≡ true
    → minor_of_match e m ≡ err precision
unfolding minor_of_match
minor_of_match-truncated e m h = rw h refl

-- A text of digits, a point and digits of which one beyond the exponent is not zero is refused,
-- whatever the exponent: no significant digit of an amount is cut off.
pub to_minor_from_decimal-precise :
    (e x : ℕ) (xs ys : Text)
    → IsDigits (x ∷ xs)
    → IsDigits ys
    → any (λ c. leb b'1' c && leb c b'9') (drop e ys) ≡ true
    → to_minor_from_decimal ((x ∷ xs) ++ (b'.' ∷ ys)) e ≡ err precision
unfolding to_minor_from_decimal
to_minor_from_decimal-precise e x xs ys p q cut =
    elim (Bool-cases ((e == 0) || (e == 2) || (e == 3))) [
      | inl known ↦
          rw (known, match_decimal-trimmed x xs ys p q)
            (minor_of_match-truncated e (record { negative = false; whole = x ∷ xs; fraction = ys })
              cut)
      | inr unknown ↦ rw unknown refl
    ]
