-- ===== src/Base/Bits.antt =====
-- `|` and `^` of JavaScript on natural numbers: when their result is zero.
use Prim.Native.Nat.{
  ℕ, zero, suc, ◌/◌, ◌%◌, ◌≤◌, max, bit_or, bit_xor, digits, bit_or-bitwise, bit_xor-bitwise,
  differ,
}
pub use Prim.Native.Nat.{bit_or, bit_xor}
use mathlib.Core.Path.{◌≡◌, refl, sym, ap, ◌∙◌}
use mathlib.Core.Logic.{◌↔◌}
use native.Mathlib.Omega.{arith}

abbrev xor_digits : ℕ → ℕ → ℕ → ℕ
xor_digits = digits (λ b. b) differ

abbrev or_digits : ℕ → ℕ → ℕ → ℕ
or_digits = digits (λ b. b) max

differ-zero : (x y : ℕ) → differ (x % 2) (y % 2) ≡ 0 → x % 2 ≡ y % 2
differ-zero x y h = ground arith

xor_digits-zero : (n a b : ℕ) → a ≤ n → xor_digits n a b ≡ 0 → a ≡ b
xor_digits-zero zero a b h e = omega arith
xor_digits-zero (suc n) zero b h e = omega arith
xor_digits-zero (suc n) (suc a) b h e = omega (
  arith,
  xor_digits-zero n (suc a / 2) (b / 2) (omega arith) (omega arith),
  differ-zero (suc a) b (omega arith),
)

differ_self : (x : ℕ) → differ x x ≡ 0
differ_self zero = refl
differ_self (suc x) = differ_self x

xor_digits_self : (n a : ℕ) → a ≤ n → xor_digits n a a ≡ 0
xor_digits_self zero a h = omega arith
xor_digits_self (suc n) zero h = refl
xor_digits_self (suc n) (suc a) h =
    omega (arith, xor_digits_self n (suc a / 2) (omega arith), differ_self (suc a % 2))

or_digits-zero : (n a b : ℕ) → a ≤ n → or_digits n a b ≡ 0 → (a ≡ 0) × (b ≡ 0)
or_digits-zero zero a b h e = (omega arith, e)
or_digits-zero (suc n) zero b h e = (refl, e)
or_digits-zero (suc n) (suc a) b h e =
    absurd (omega (arith, or_digits-zero n (suc a / 2) (b / 2) (omega arith) (omega arith)))

-- `a ^ b` is zero exactly where the two are equal.
pub bit_xor-zero : (a b : ℕ) → (bit_xor a b ≡ 0) ↔ (a ≡ b)
bit_xor-zero a b = (
  λ h. xor_digits-zero a a b (omega arith) (sym (bit_xor-bitwise a b) ∙ h),
  λ h. ap (λ c. bit_xor a c) (sym h) ∙ (bit_xor-bitwise a a ∙ xor_digits_self a a (omega arith)),
)

-- `a | b` is zero only where both are.
pub bit_or-zero : (a b : ℕ) → bit_or a b ≡ 0 → (a ≡ 0) × (b ≡ 0)
bit_or-zero a b h = or_digits-zero a a b (omega arith) (sym (bit_or-bitwise a b) ∙ h)

pub bit_or-zeros : bit_or 0 0 ≡ 0
bit_or-zeros = refl
