-- ===== src/Base/Int.antt =====
-- Signed integers over the native numbers. JavaScript's numbers are modelled by them wherever the
-- code has checked that a value is a safe integer, so that its arithmetic is exact.
use Prim.Native.Nat.{ℕ, zero, suc, ◌+◌, ◌-◌, ◌*◌, ◌≤◌, ◌<◌}
use mathlib.Core.Path.{◌≡◌, refl}
use mathlib.Core.Logic.{◌↔◌}
use mathlib.Core.Bool.{Bool, true}
use mathlib.Core.List.{List, [], ◌∷◌, ◌++◌, map}
use native.Mathlib.Nat.{add_comm}
use native.Mathlib.Omega.{arith}
use ghalla.Base.Tests.{ltb, leb, ◌==◌ as nat_eq, if◌then◌else◌}

-- `negsuc n` is -(n + 1).
pub data ℤ : Type 0 where
  pos : ℕ → ℤ
  negsuc : ℕ → ℤ

abbrev pub pos_part : ℤ → ℕ
pos_part (pos n) = n
pos_part (negsuc n) = 0

abbrev pub neg_part : ℤ → ℕ
neg_part (pos n) = 0
neg_part (negsuc n) = suc n

abbrev pub sub_ℕ : ℕ → ℕ → ℤ
sub_ℕ a b = if leb b a then pos (a - b) else negsuc (b - a - 1)

infixl 65 ◌+ℤ◌ ◌-ℤ◌
infixl 70 ◌*ℤ◌
infix 50 ◌≤ℤ◌ ◌<ℤ◌
unfoldable pub ◌+ℤ◌ : ℤ → ℤ → ℤ
a +ℤ b = sub_ℕ (pos_part a + pos_part b) (neg_part a + neg_part b)

unfoldable pub ◌-ℤ◌ : ℤ → ℤ → ℤ
a -ℤ b = sub_ℕ (pos_part a + neg_part b) (neg_part a + pos_part b)

unfoldable pub ◌*ℤ◌ : ℤ → ℤ → ℤ
a *ℤ b =
    sub_ℕ (pos_part a * pos_part b + neg_part a * neg_part b)
      (pos_part a * neg_part b + neg_part a * pos_part b)

unfoldable pub neg : ℤ → ℤ
neg (pos zero) = pos 0
neg (pos (suc n)) = negsuc n
neg (negsuc n) = pos (suc n)

abbrev pub abs : ℤ → ℕ
abs a = pos_part a + neg_part a

abbrev pub ◌≤ℤ◌ : ℤ → ℤ → Type 0
a ≤ℤ b = pos_part a + neg_part b ≤ pos_part b + neg_part a

abbrev pub ◌<ℤ◌ : ℤ → ℤ → Type 0
a <ℤ b = pos_part a + neg_part b < pos_part b + neg_part a

abbrev pub ltb_ℤ : ℤ → ℤ → Bool
ltb_ℤ a b = ltb (pos_part a + neg_part b) (pos_part b + neg_part a)

abbrev pub leb_ℤ : ℤ → ℤ → Bool
leb_ℤ a b = leb (pos_part a + neg_part b) (pos_part b + neg_part a)

abbrev pub eq_ℤ : ℤ → ℤ → Bool
eq_ℤ a b = nat_eq (pos_part a + neg_part b) (pos_part b + neg_part a)

-- `Math.min` and `Math.max`
abbrev pub min_ℤ : ℤ → ℤ → ℤ
min_ℤ a b = if leb_ℤ a b then a else b

abbrev pub max_ℤ : ℤ → ℤ → ℤ
max_ℤ a b = if leb_ℤ a b then b else a

-- With these lemmas `omega` works with the operations shut.
pub +ℤ_parts :
    (a b : ℤ)
    → pos_part (a +ℤ b) + neg_part a + neg_part b ≡ neg_part (a +ℤ b) + pos_part a + pos_part b
unfolding ◌+ℤ◌
+ℤ_parts a b = ground arith

pub -ℤ_parts :
    (a b : ℤ)
    → pos_part (a -ℤ b) + neg_part a + pos_part b ≡ neg_part (a -ℤ b) + pos_part a + neg_part b
unfolding ◌-ℤ◌
-ℤ_parts a b = ground arith

pub neg_parts : (a : ℤ) → (pos_part (neg a) ≡ neg_part a) × (neg_part (neg a) ≡ pos_part a)
unfolding neg
neg_parts (pos zero) = (refl, refl)
neg_parts (pos (suc n)) = (refl, refl)
neg_parts (negsuc n) = (refl, refl)

pub eq_of_parts : (a b : ℤ) → pos_part a + neg_part b ≡ pos_part b + neg_part a → a ≡ b
eq_of_parts a b h = ground arith

pub eq_ℤ_iff : (a b : ℤ) → (eq_ℤ a b ≡ true) ↔ (a ≡ b)
eq_ℤ_iff a b = ground arith

pub ruleset int_laws = (arith, +ℤ_parts, -ℤ_parts, neg_parts, eq_of_parts)

pub neg-sub_ℕ : (a b : ℕ) → neg (sub_ℕ a b) ≡ sub_ℕ b a
neg-sub_ℕ a b = eq_of_parts _ _ (ground (arith, neg_parts (sub_ℕ a b)))

pub neg-neg : (a : ℤ) → neg (neg a) ≡ a
neg-neg a = omega int_laws

pub neg_mul : (a b : ℤ) → neg a *ℤ b ≡ neg (a *ℤ b)
unfolding ◌*ℤ◌
neg_mul a b =
    rw
      (
        (neg_parts a).0,
        (neg_parts a).1,
        neg-sub_ℕ (pos_part a * pos_part b + neg_part a * neg_part b)
            (pos_part a * neg_part b + neg_part a * pos_part b),
        add_comm (neg_part a * pos_part b) (pos_part a * neg_part b),
        add_comm (neg_part a * neg_part b) (pos_part a * pos_part b),
      )
      refl

pub abs-add : (a b : ℤ) → abs (a +ℤ b) ≤ abs a + abs b
unfolding ◌+ℤ◌
abs-add a b = ground arith

pub abs-neg : (a : ℤ) → abs (neg a) ≡ abs a
abs-neg a = omega (arith, neg_parts a)

-- Σ of a list
abbrev pub sum : List ℤ → ℤ
sum [] = pos 0
sum (x ∷ xs) = x +ℤ sum xs

pub sum-append : (xs ys : List ℤ) → sum (xs ++ ys) ≡ sum xs +ℤ sum ys
sum-append [] ys = omega int_laws
sum-append (x ∷ xs) ys = rw (sum-append xs ys) (omega int_laws)

module _ {ℓ} {A : Type ℓ} where
  -- Σ over a list of a value of each element
  abbrev pub total_by : (A → ℤ) → List A → ℤ
  total_by f [] = pos 0
  total_by f (x ∷ xs) = f x +ℤ total_by f xs

  pub sum-map : (f : A → ℤ) (xs : List A) → sum (map f xs) ≡ total_by f xs
  sum-map f [] = refl
  sum-map f (x ∷ xs) = rw (sum-map f xs)

  pub total_by-add :
      (f g : A → ℤ) (xs : List A) → total_by (λ x. f x +ℤ g x) xs ≡ total_by f xs +ℤ total_by g xs
  total_by-add f g [] = omega int_laws
  total_by-add f g (x ∷ xs) = rw (total_by-add f g xs) (omega int_laws)

  pub total_by-sub :
      (f g : A → ℤ) (xs : List A) → total_by (λ x. f x -ℤ g x) xs ≡ total_by f xs -ℤ total_by g xs
  total_by-sub f g [] = omega int_laws
  total_by-sub f g (x ∷ xs) = rw (total_by-sub f g xs) (omega int_laws)
