-- ===== src/Base/Totals.antt =====
-- Sums over lists that a function which may throw has made.
use mathlib.Core.Path.{◌≡◌, refl, sym, ap, ◌∙◌}
use mathlib.Core.List.{List, [], ◌∷◌, map}
use ghalla.Base.Int.{ℤ, ◌+ℤ◌, total_by}
use ghalla.Base.Result.{Result, ok, >>=-eq-ok, ok-injective, map_result}

module _ {ℓ κ} {A : Type ℓ} {B : Type κ} where
  pub total_by-map :
      (f : B → ℤ) (g : A → B) (xs : List A) → total_by f (map g xs) ≡ total_by (λ x. f (g x)) xs
  total_by-map f g [] = refl
  total_by-map f g (x ∷ xs) = ap (λ (t : ℤ). f (g x) +ℤ t) (total_by-map f g xs)

  -- A sum over results is the sum of what each result must be.
  pub total_by-map_result :
      (f : A → Result B) (g : B → ℤ) (h : A → ℤ)
      → ((a : A) (b : B) → f a ≡ ok b → g b ≡ h a)
      → (xs : List A) {ys : List B} → map_result f xs ≡ ok ys
      → total_by g ys ≡ total_by h xs
  total_by-map_result f g h law [] {ys} e = ap (total_by g) (sym (ok-injective {b = ys} e))
  total_by-map_result f g h law (x ∷ xs) {ys} e =
      let (y, p, e₁) = >>=-eq-ok (f x) _ e in
      let (rest, q, e₂) = >>=-eq-ok (map_result f xs) _ e₁ in
      ap (total_by g) (sym (ok-injective {b = ys} e₂))
      ∙ rw (law x y p, total_by-map_result f g h law xs q) refl

  pub map-map_result {μ} :
      {C : Type μ} (f : A → Result B) (g : B → C) (h : A → C)
      → ((a : A) (b : B) → f a ≡ ok b → g b ≡ h a)
      → (xs : List A) {ys : List B} → map_result f xs ≡ ok ys
      → map g ys ≡ map h xs
  map-map_result f g h law [] {ys} e = ap (map g) (sym (ok-injective {b = ys} e))
  map-map_result f g h law (x ∷ xs) {ys} e =
      let (y, p, e₁) = >>=-eq-ok (f x) _ e in
      let (rest, q, e₂) = >>=-eq-ok (map_result f xs) _ e₁ in
      ap (map g) (sym (ok-injective {b = ys} e₂))
      ∙ rw (law x y p, map-map_result f g h law xs q) refl

module _ {ℓ} {A : Type ℓ} where
  pub total_by-eq :
      (f g : A → ℤ) → ((a : A) → f a ≡ g a) → (xs : List A) → total_by f xs ≡ total_by g xs
  total_by-eq f g law [] = refl
  total_by-eq f g law (x ∷ xs) = rw (law x, total_by-eq f g law xs) refl
