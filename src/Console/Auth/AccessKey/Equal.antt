-- ===== src/Console/Auth/AccessKey/Equal.antt =====
-- `timingSafeEqual` of apps/ghalla-ops/src/lib/auth/access-key.ts and the equality of byte strings.
use ghalla.Base.{ℕ, ◌≡◌, ◌↔◌, refl, sym, ap, ◌∙◌, true, List, [], ◌∷◌, length, ==_iff, arith}
use ghalla.Base.Bits.{bit_or, bit_xor, bit_xor-zero, bit_or-zero}
use ghalla.Console.Auth.AccessKey.{difference_from, timing_safe_equal}

-- A difference that has been found stays.
difference_from-zero :
    (d : ℕ) (xs ys : List ℕ)
    → length xs ≡ length ys
    → difference_from d xs ys ≡ 0
    → (d ≡ 0) × (xs ≡ ys)
unfolding difference_from
difference_from-zero d [] [] long h = (h, refl)
difference_from-zero d [] (y ∷ ys) long h = absurd (omega arith)
difference_from-zero d (x ∷ xs) [] long h = absurd (omega arith)
difference_from-zero d (x ∷ xs) (y ∷ ys) long h =
    let (none_here, rest) = difference_from-zero (bit_or d (bit_xor x y)) xs ys (omega arith) h in
    let (none_before, same) = bit_or-zero d (bit_xor x y) none_here in
    (none_before, λ i. (bit_xor-zero x y).0 same i ∷ rest i)

difference_from-kept : (d : ℕ) (xs ys : List ℕ) → difference_from d xs ys ≡ 0 → d ≡ 0
unfolding difference_from
difference_from-kept d [] [] h = h
difference_from-kept d [] (y ∷ ys) h =
    (bit_or-zero d (bit_xor 0 y) (difference_from-kept (bit_or d (bit_xor 0 y)) [] ys h)).0
difference_from-kept d (x ∷ xs) [] h =
    (bit_or-zero d (bit_xor x 0) (difference_from-kept (bit_or d (bit_xor x 0)) xs [] h)).0
difference_from-kept d (x ∷ xs) (y ∷ ys) h =
    (bit_or-zero d (bit_xor x y) (difference_from-kept (bit_or d (bit_xor x y)) xs ys h)).0

difference_from_self : (xs : List ℕ) → difference_from 0 xs xs ≡ 0
unfolding difference_from
difference_from_self [] = refl
difference_from_self (x ∷ xs) =
    ap (λ d. difference_from (bit_or 0 d) xs xs) ((bit_xor-zero x x).1 refl)
    ∙ difference_from_self xs

-- The comparison that runs over every byte holds exactly of equal arrays.
pub timing_safe_equal_iff : (a b : List ℕ) → (timing_safe_equal a b ≡ true) ↔ (a ≡ b)
unfolding timing_safe_equal
timing_safe_equal_iff a b = (
  λ h.
      let none_at_all = (==_iff (difference_from (bit_xor (length a) (length b)) a b) 0).0 h in
      let long =
        (bit_xor-zero (length a) (length b)).0
          (difference_from-kept (bit_xor (length a) (length b)) a b none_at_all) in
      (difference_from-zero (bit_xor (length a) (length b)) a b long none_at_all).1,
  λ same. (==_iff (difference_from (bit_xor (length a) (length b)) a b) 0).1 (
      ap (λ c. difference_from (bit_xor (length a) (length c)) a c) (sym same)
      ∙ (ap (λ d. difference_from d a a) ((bit_xor-zero (length a) (length a)).1 refl)
          ∙ difference_from_self a)),
)
