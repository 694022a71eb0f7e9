-- ===== src/Money/Exact.antt =====
-- What the functions of the money kernel return, as integers.
use ghalla.Base.{
  ℕ, ◌≤◌, ◌+◌, ◌≡◌, List, [], ◌∷◌, some, arith, inl, inr, Bool-cases, le→leb, sum_by, ap,
}
use ghalla.Base.Int.{ℤ, pos, ◌+ℤ◌, ◌-ℤ◌, neg, abs, sum, int_laws, abs-add, ◌≤ℤ◌}
use ghalla.Base.Result.{ok}
use ghalla.Money.Kernel.{
  max_minor, max_safe_integer, is_safe_integer, to_minor, add_from, add_minor, sub_minor,
  negate_minor, assert_in_range, clamp_minor,
}

pub to_minor-ok : (v : ℤ) {r : ℤ} → to_minor v ≡ ok r → (r ≡ v) × (abs r ≤ max_minor)
unfolding to_minor
to_minor-ok v h = ground arith

pub to_minor_of_le : (v : ℤ) → abs v ≤ max_minor → to_minor v ≡ ok v
unfolding to_minor
to_minor_of_le v h = ground arith

pub add_from-ok :
    (t : ℤ) (vs : List ℤ) {r : ℤ} → add_from t vs ≡ ok r → (r ≡ t +ℤ sum vs) × (abs r ≤ max_minor)
unfolding add_from
add_from-ok t [] h = let (e, b) = to_minor-ok t h in (rw e (omega int_laws), b)
add_from-ok t (v ∷ vs) h = elim (Bool-cases (is_safe_integer (t +ℤ v))) [
  | inl safe ↦ let (e, b) = add_from-ok (t +ℤ v) vs (rw safe at h) in (rw e (omega int_laws), b)
  | inr unsafe ↦ ground arith
]

-- A sum that is returned is the exact sum of the values.
pub add_minor-ok : (vs : List ℤ) {r : ℤ} → add_minor vs ≡ ok r → (r ≡ sum vs) × (abs r ≤ max_minor)
unfolding add_minor
add_minor-ok vs h = let (e, b) = add_from-ok (pos 0) vs h in (rw e (omega int_laws), b)

pub sub_minor-ok : (a b : ℤ) {r : ℤ} → sub_minor a b ≡ ok r → (r ≡ a -ℤ b) × (abs r ≤ max_minor)
unfolding sub_minor
sub_minor-ok a b h = to_minor-ok (a -ℤ b) h

pub negate_minor-ok : (a : ℤ) {r : ℤ} → negate_minor a ≡ ok r → r ≡ neg a
unfolding negate_minor
negate_minor-ok a h = (to_minor-ok (neg a) h).0

pub assert_in_range-ok : (v : ℤ) {r : ℤ} → assert_in_range v ≡ ok r → (r ≡ v) × (abs r ≤ max_minor)
unfolding assert_in_range to_minor
assert_in_range-ok v h = ground arith

-- Σ of the magnitudes of a list
abbrev pub magnitudes : List ℤ → ℕ
magnitudes = sum_by abs

add_from_total :
    (t : ℤ) (vs : List ℤ) → abs t + magnitudes vs ≤ max_minor → add_from t vs ≡ ok (t +ℤ sum vs)
unfolding add_from
add_from_total t [] h = rw (to_minor_of_le t (omega arith)) (ap ok (omega int_laws))
add_from_total t (v ∷ vs) h =
    rw
      (
        le→leb (abs (t +ℤ v)) max_safe_integer (omega (arith, abs-add t v)),
        add_from_total (t +ℤ v) vs (omega (arith, abs-add t v)),
      )
      (ap ok (omega int_laws))

-- Values whose magnitudes together stay within the range of money always have a sum.
add_minor_total : (vs : List ℤ) → magnitudes vs ≤ max_minor → add_minor vs ≡ ok (sum vs)
unfolding add_minor
add_minor_total vs h = rw (add_from_total (pos 0) vs (omega arith)) (ap ok (omega int_laws))

-- A clamped value lies between the bounds; where the floor is above the cap, the cap wins.
pub clamp_minor-ok :
    (v lo hi : ℤ) {r : ℤ}
    → clamp_minor v (some lo) (some hi) ≡ ok r
    → (r ≤ℤ hi) × (lo ≤ℤ hi → lo ≤ℤ r)
unfolding clamp_minor to_minor
clamp_minor-ok v lo hi h = ground arith
