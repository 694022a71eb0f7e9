-- ===== src/Money/Decimal/Matching.antt =====
-- The texts that the expression DECIMAL of packages/contracts/src/money.ts matches, trimmed first.
use ghalla.Base.{ℕ, ◌≡◌, refl, true, false, [], ◌∷◌, ◌++◌, some, ◌==◌, All, arith}
use ghalla.Base.Text.{Text}
use ghalla.Money.Decimal.{
  is_space, trim_start, trim_end, is_decimal_digit, span_digits, match_unsigned, match_decimal,
}

abbrev pub IsDigits : Text → Type 0
IsDigits text = All (λ c. is_decimal_digit c ≡ true) text

digit-space : (c : ℕ) → is_decimal_digit c ≡ true → is_space c ≡ false
digit-space c h = ground arith

trim_end-same : (text : Text) → All (λ c. is_space c ≡ false) text → trim_end text ≡ text
unfolding trim_end
trim_end-same [] p = refl
trim_end-same (c ∷ []) p = rw p.0 refl
trim_end-same (c ∷ d ∷ text) p = rw (trim_end-same (d ∷ text) p.1) refl

spaceless :
    (xs ys : Text) → IsDigits xs → IsDigits ys → All (λ c. is_space c ≡ false) (xs ++ (b'.' ∷ ys))
spaceless [] [] p q = (refl, tt)
spaceless [] (y ∷ ys) p q = (refl, (digit-space y q.0, (spaceless [] ys p q.1).1))
spaceless (x ∷ xs) ys p q = (digit-space x p.0, spaceless xs ys p.1 q)

span_digits-dot : (xs ys : Text) → IsDigits xs → span_digits (xs ++ (b'.' ∷ ys)) ≡ (xs, b'.' ∷ ys)
unfolding span_digits
span_digits-dot [] ys p = refl
span_digits-dot (x ∷ xs) ys p = rw (p.0, span_digits-dot xs ys p.1) refl

span_digits-all : (xs : Text) → IsDigits xs → span_digits xs ≡ (xs, [])
unfolding span_digits
span_digits-all [] p = refl
span_digits-all (x ∷ xs) p = rw (p.0, span_digits-all xs p.1) refl

digit-sign : (c : ℕ) → is_decimal_digit c ≡ true → ((c == b'-') ≡ false) × ((c == b'+') ≡ false)
digit-sign c h = (ground arith, ground arith)

match_decimal-dot :
    (x : ℕ) (xs ys : Text)
    → IsDigits (x ∷ xs)
    → IsDigits ys
    → match_decimal ((x ∷ xs) ++ (b'.' ∷ ys))
      ≡ some (record { negative = false; whole = x ∷ xs; fraction = ys })
unfolding match_decimal match_unsigned
match_decimal-dot x xs ys p q =
    rw
      (
        (digit-sign x p.0).0,
        (digit-sign x p.0).1,
        span_digits-dot (x ∷ xs) ys p,
        span_digits-all ys q,
      )
      refl

trim_start-same : (c : ℕ) (text : Text) → is_space c ≡ false → trim_start (c ∷ text) ≡ c ∷ text
unfolding trim_start
trim_start-same c text h = rw h refl

pub match_decimal-trimmed :
    (x : ℕ) (xs ys : Text)
    → IsDigits (x ∷ xs)
    → IsDigits ys
    → match_decimal (trim_end (trim_start ((x ∷ xs) ++ (b'.' ∷ ys))))
      ≡ some (record { negative = false; whole = x ∷ xs; fraction = ys })
match_decimal-trimmed x xs ys p q =
    rw
      (
        trim_start-same x (xs ++ (b'.' ∷ ys)) (digit-space x p.0),
        trim_end-same ((x ∷ xs) ++ (b'.' ∷ ys)) (spaceless (x ∷ xs) ys p q),
      )
      (match_decimal-dot x xs ys p q)

pub match_decimal-negative :
    (x : ℕ) (xs ys : Text)
    → IsDigits (x ∷ xs)
    → IsDigits ys
    → match_decimal (trim_end (trim_start (b'-' ∷ ((x ∷ xs) ++ (b'.' ∷ ys)))))
      ≡ some (record { negative = true; whole = x ∷ xs; fraction = ys })
unfolding match_decimal match_unsigned
match_decimal-negative x xs ys p q =
    rw
      (
        trim_start-same b'-' ((x ∷ xs) ++ (b'.' ∷ ys)) refl,
        trim_end-same (b'-' ∷ ((x ∷ xs) ++ (b'.' ∷ ys))) (refl, spaceless (x ∷ xs) ys p q),
        span_digits-dot (x ∷ xs) ys p,
        span_digits-all ys q,
      )
      refl
