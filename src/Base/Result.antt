-- ===== src/Base/Result.antt =====
-- Exceptions as values. One constructor of `Error` for each class of error that the code throws.
use mathlib.Core.Path.{◌≡◌, refl, ap}
use mathlib.Core.Logic.{◌⊎◌, inl, inr}
use mathlib.Core.Bool.{Bool, true, false}
use mathlib.Core.List.{List, [], ◌∷◌}

-- `PrecisionError`, `MoneyKernelError`, `MalformedInstantError`, `InvalidTimezoneError` and
-- `MalformedTimestampError`
pub data Error : Type 0 where
  precision : Error
  money_kernel : Error
  malformed_instant : Error
  invalid_timezone : Error
  malformed_timestamp : Error

-- What a call gives back: the error that it throws, or its value.
pub data Result {ℓ} (V : Type ℓ) : Type ℓ where
  err : Error → Result V
  ok : V → Result V

infixl 5 ◌>>=◌
-- After a throw nothing more is evaluated.
abbrev pub ◌>>=◌ {ℓ κ} : {V : Type ℓ} {W : Type κ} → Result V → (V → Result W) → Result W
err thrown >>= next = err thrown
ok value >>= next = next value

-- A test before the rest of a function: `if (bad) throw thrown`
abbrev pub throw_if : (bad : Bool) → Error → Result (Unit {0})
throw_if false thrown = ok tt
throw_if true thrown = err thrown

-- A composition gives a value only where its first call does.
pub >>=-eq-ok {ℓ κ} :
    {V : Type ℓ} {W : Type κ} (call : Result V) (next : V → Result W) {out : W}
    → (call >>= next) ≡ ok out
    → (value : V) × (call ≡ ok value) × (next value ≡ ok out)
>>=-eq-ok (err thrown) next h = cc
>>=-eq-ok (ok value) next h = (value, refl, h)

abbrev ok_or {ℓ} : {A : Type ℓ} → A → Result A → A
ok_or d (ok a) = a
ok_or d (err e) = d

pub ok-injective {ℓ} : {A : Type ℓ} {a b : A} → ok a ≡ ok b → a ≡ b
ok-injective {a = a} h = ap (ok_or a) h

pub err-ne-ok {ℓ} : {A : Type ℓ} {e : Error} {a : A} → err e ≡ ok a → ⊥
err-ne-ok h = cc

pub Result-cases {ℓ} :
    {A : Type ℓ} (m : Result A) → ((a : A) × (m ≡ ok a)) ⊎ ((e : Error) × (m ≡ err e))
Result-cases (ok a) = inl (a, refl)
Result-cases (err e) = inr (e, refl)

-- `xs.map(f)` where `f` may throw
abbrev pub map_result {ℓ κ} : {A : Type ℓ} {B : Type κ} → (A → Result B) → List A → Result (List B)
map_result f [] = ok []
map_result f (x ∷ xs) = f x >>= λ y. map_result f xs >>= λ ys. ok (y ∷ ys)
