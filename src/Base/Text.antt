-- ===== src/Base/Text.antt =====
-- JavaScript's strings as lists of UTF-16 code units: equality, `<`, and concatenation by `++`.
use Prim.Native.Nat.{ℕ}
use Prim.Native.Char.{code}
use Prim.Native.String.{String}
use mathlib.Core.Path.{◌≡◌, refl}
use mathlib.Core.Logic.{◌↔◌, ◌⊎◌, inl, inr}
use mathlib.Core.Bool.{Bool, true, false, ◌&&◌, ◌||◌}
use mathlib.Core.Option.{Option, none, some}
use mathlib.Core.List.{List, [], ◌∷◌}
use native.Mathlib.Omega.{arith}
use ghalla.Base.Tests.{ltb, ◌==◌, if◌then◌else◌}

abbrev pub Text : Type 0
Text = List ℕ

-- A literal in ASCII, where characters and code units agree.
abbrev pub lit : String → Text
lit String.[] = []
lit (String.◌∷◌ c s) = code c ∷ lit s

-- `a === b`
unfoldable pub eq_text : Text → Text → Bool
eq_text [] [] = true
eq_text [] (y ∷ ys) = false
eq_text (x ∷ xs) [] = false
eq_text (x ∷ xs) (y ∷ ys) = (x == y) && eq_text xs ys

-- `a < b`
unfoldable pub lt_text : Text → Text → Bool
lt_text [] [] = false
lt_text [] (y ∷ ys) = true
lt_text (x ∷ xs) [] = false
lt_text (x ∷ xs) (y ∷ ys) = ltb x y || ((x == y) && lt_text xs ys)

pub eq_text_iff : (a b : Text) → (eq_text a b ≡ true) ↔ (a ≡ b)
unfolding eq_text
eq_text_iff [] [] = ground arith
eq_text_iff [] (y ∷ ys) = ground arith
eq_text_iff (x ∷ xs) [] = ground arith
eq_text_iff (x ∷ xs) (y ∷ ys) = ground (arith, eq_text_iff xs ys)

pub eq_text_refl : (a : Text) → eq_text a a ≡ true
eq_text_refl a = (eq_text_iff a a).1 refl

-- `<` is a strict total order.
pub lt_text_irrefl : (a : Text) → lt_text a a ≡ false
unfolding lt_text
lt_text_irrefl [] = refl
lt_text_irrefl (x ∷ xs) = ground (arith, lt_text_irrefl xs)

pub lt_text_trans : (a b c : Text) → lt_text a b ≡ true → lt_text b c ≡ true → lt_text a c ≡ true
unfolding lt_text
lt_text_trans [] [] c h k = ground arith
lt_text_trans [] (y ∷ b) [] h k = ground arith
lt_text_trans [] (y ∷ b) (z ∷ c) h k = refl
lt_text_trans (x ∷ a) [] c h k = ground arith
lt_text_trans (x ∷ a) (y ∷ b) [] h k = ground arith
lt_text_trans (x ∷ a) (y ∷ b) (z ∷ c) h k = ground (arith, lt_text_trans a b c)

pub lt_text_total : (a b : Text) → (lt_text a b ≡ true) ⊎ (a ≡ b) ⊎ (lt_text b a ≡ true)
unfolding lt_text
lt_text_total [] [] = inr (inl refl)
lt_text_total [] (y ∷ b) = inl refl
lt_text_total (x ∷ a) [] = inr (inr refl)
lt_text_total (x ∷ a) (y ∷ b) = ground (arith, lt_text_total a b)

-- `===` where a text may be `null` on either side
abbrev pub eq_option_text : Option Text → Option Text → Bool
eq_option_text none none = true
eq_option_text none (some b) = false
eq_option_text (some a) none = false
eq_option_text (some a) (some b) = eq_text a b

-- `pattern !== null && pattern !== value` fails: a rule's field matches.
abbrev pub fits_text : Option Text → Option Text → Bool
fits_text none value = true
fits_text (some a) value = eq_option_text (some a) value

-- `sort()` on texts
abbrev pub insert_text : Text → List Text → List Text
insert_text t [] = t ∷ []
insert_text t (u ∷ us) = if lt_text u t then u ∷ insert_text t us else t ∷ u ∷ us

abbrev pub sort_texts : List Text → List Text
sort_texts [] = []
sort_texts (t ∷ ts) = insert_text t (sort_texts ts)
