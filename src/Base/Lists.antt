-- ===== src/Base/Lists.antt =====
-- Lists measured by native numbers, with Boolean filters and searches as JavaScript's arrays have.
use Prim.Native.Nat.{ℕ, zero, suc, ◌+◌}
use mathlib.Core.Path.{◌≡◌, refl, ap, subst}
use mathlib.Core.Logic.{inl, inr}
use mathlib.Core.Bool.{Bool, true, false, ◌&&◌, ◌||◌}
use mathlib.Core.Option.{Option, none, some}
use mathlib.Core.List.{List, [], ◌∷◌, ◌++◌, map}
use native.Mathlib.Omega.{arith}
use ghalla.Base.Tests.{if◌then◌else◌, Bool-cases, or_else}

module _ {ℓ} {A : Type ℓ} where
  abbrev pub length : List A → ℕ
  length [] = 0
  length (x ∷ xs) = suc (length xs)

  abbrev pub take : ℕ → List A → List A
  take zero xs = []
  take (suc n) [] = []
  take (suc n) (x ∷ xs) = x ∷ take n xs

  abbrev pub is_empty : List A → Bool
  is_empty [] = true
  is_empty (x ∷ xs) = false

  -- `xs.filter(p)`
  abbrev pub filter : (A → Bool) → List A → List A
  filter p [] = []
  filter p (x ∷ xs) = if p x then x ∷ filter p xs else filter p xs

  -- `xs.some(p)`
  abbrev pub any : (A → Bool) → List A → Bool
  any p [] = false
  any p (x ∷ xs) = p x || any p xs

  -- `xs.every(p)`
  abbrev pub all : (A → Bool) → List A → Bool
  all p [] = true
  all p (x ∷ xs) = p x && all p xs

  -- `xs.find(p)`
  abbrev pub find : (A → Bool) → List A → Option A
  find p [] = none
  find p (x ∷ xs) = if p x then some x else find p xs

  abbrev pub All {κ} : (A → Type κ) → List A → Type κ
  All P [] = Unit
  All P (x ∷ xs) = P x × All P xs

  pub length-append : (xs ys : List A) → length (xs ++ ys) ≡ length xs + length ys
  length-append [] ys = omega arith
  length-append (x ∷ xs) ys = omega (arith, length-append xs ys)

  pub All-append {κ} : (P : A → Type κ) (xs ys : List A) → All P xs → All P ys → All P (xs ++ ys)
  All-append P [] ys p q = q
  All-append P (x ∷ xs) ys p q = (p.0, All-append P xs ys p.1 q)

  pub append_nil : (xs : List A) → xs ++ [] ≡ xs
  append_nil [] = refl
  append_nil (x ∷ xs) = ap (λ (t : List A). x ∷ t) (append_nil xs)

  pub append_assoc : (xs ys zs : List A) → (xs ++ ys) ++ zs ≡ xs ++ (ys ++ zs)
  append_assoc [] ys zs = refl
  append_assoc (x ∷ xs) ys zs = ap (λ (t : List A). x ∷ t) (append_assoc xs ys zs)

  -- Σ of a count over a list
  abbrev pub sum_by : (A → ℕ) → List A → ℕ
  sum_by f [] = 0
  sum_by f (x ∷ xs) = f x + sum_by f xs

module _ {ℓ κ} {A : Type ℓ} {B : Type κ} where
  pub length-map : (f : A → B) (xs : List A) → length (map f xs) ≡ length xs
  length-map f [] = refl
  length-map f (x ∷ xs) = ap suc (length-map f xs)

  pub sum_by-map :
      (g : B → ℕ) (f : A → B) (xs : List A) → sum_by g (map f xs) ≡ sum_by (λ x. g (f x)) xs
  sum_by-map g f [] = refl
  sum_by-map g f (x ∷ xs) = ap (λ (t : ℕ). g (f x) + t) (sum_by-map g f xs)

pub some-injective {ℓ} : {A : Type ℓ} {a b : A} → some a ≡ some b → a ≡ b
some-injective {a = a} h = ap (λ o. or_else o a) h

module _ {ℓ κ ν} {A : Type ℓ} (P : A → Type κ) (Q : A → Type ν) where
  pub All-weaken : (xs : List A) → ((x : A) → P x → Q x) → All P xs → All Q xs
  All-weaken [] f p = tt
  All-weaken (x ∷ xs) f p = (f x p.0, All-weaken xs f p.1)

  pub All-both : (xs : List A) → All P xs → All Q xs → All (λ x. P x × Q x) xs
  All-both [] p q = tt
  All-both (x ∷ xs) p q = ((p.0, q.0), All-both xs p.1 q.1)

module _ {ℓ κ} {A : Type ℓ} (P : A → Type κ) where
  pub All-filter : (test : A → Bool) (xs : List A) → All P xs → All P (filter test xs)
  All-filter test [] p = tt
  All-filter test (x ∷ xs) p =
      elim (test x) as (λ b. All P (if b then x ∷ filter test xs else filter test xs)) [
        | true ↦ (p.0, All-filter test xs p.1)
        | false ↦ All-filter test xs p.1
      ]

  -- What holds of every element that passes the test holds of what the test lets through.
  pub filter-All :
      (test : A → Bool) (xs : List A) → All (λ x. test x ≡ true → P x) xs → All P (filter test xs)
  filter-All test [] p = tt
  filter-All test (x ∷ xs) p = elim (Bool-cases (test x)) [
    | inl yes_it ↦ rw yes_it (p.0 yes_it, filter-All test xs p.1)
    | inr no_it ↦ rw no_it (filter-All test xs p.1)
  ]

  pub All-map {κ'} :
      {B : Type κ'} (f : B → A) (xs : List B) → All (λ x. P (f x)) xs → All P (map f xs)
  All-map f [] p = tt
  All-map f (x ∷ xs) p = (p.0, All-map f xs p.1)

  pub find-All :
      (test : A → Bool) (xs : List A) {x : A}
      → All P xs
      → find test xs ≡ some x
      → P x × (test x ≡ true)
  find-All test [] p h = cc
  find-All test (x ∷ xs) {x = y} p h = elim (Bool-cases (test x)) [
    | inl yes_it ↦
        subst (λ z. P z × (test z ≡ true)) (some-injective (rw yes_it at h)) (p.0, yes_it)
    | inr no_it ↦ find-All test xs p.1 (rw no_it at h)
  ]

module _ {ℓ κ ν} {A : Type ℓ} {B : Type κ} (R : A → B → Type ν) where
  heads :
      (y : B) (ys : List B) (xs : List A)
      → All (λ x. All (R x) (y ∷ ys)) xs
      → All (λ x. R x y) xs × All (λ x. All (R x) ys) xs
  heads y ys [] p = (tt, tt)
  heads y ys (x ∷ xs) p = let (first, rest) = heads y ys xs p.1 in ((p.0.0, first), (p.0.1, rest))

  -- A relation that holds between all of two lists may be read from either side.
  pub All-swap :
      (xs : List A) (ys : List B) → All (λ x. All (R x) ys) xs → All (λ y. All (λ x. R x y) xs) ys
  All-swap xs [] p = tt
  All-swap xs (y ∷ ys) p = let (first, rest) = heads y ys xs p in (first, All-swap xs ys rest)
