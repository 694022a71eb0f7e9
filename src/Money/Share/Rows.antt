-- ===== src/Money/Share/Rows.antt =====
-- The arithmetic of the rows of an allocation: quotients, remainders and the shortfall.
use native.Mathlib.Nat.{mul-le-mul, le_refl}
use native.Mathlib.Decide.{dec_lt}
use ghalla.Base.{
  ℕ, ◌+◌, ◌-◌, ◌*◌, ◌≤◌, ◌<◌, ◌≡◌, refl, Bool, true, false, List, [], ◌∷◌, map, arith,
  if◌then◌else◌, length, sum_by, is_empty, Bool-cases, inl, inr, div_bounds,
}
use ghalla.Money.Allocate.{
  AllocationBucket, raw_weight, is_even, denominator_of, Row, row_of, rows_of, row_base,
}

-- The weight that the allocation uses.
abbrev pub used_weight : Bool → AllocationBucket → ℕ
used_weight even b = if even then 1 else raw_weight b

abbrev row_remainder : Row → ℕ
row_remainder r = r.remainder

sum-used_even : (bs : List AllocationBucket) → sum_by (used_weight true) bs ≡ length bs
sum-used_even [] = refl
sum-used_even (b ∷ bs) = omega (arith, sum-used_even bs)

pub sum-used_weight :
    (bs : List AllocationBucket) → sum_by (used_weight (is_even bs)) bs ≡ denominator_of bs
sum-used_weight bs = elim (Bool-cases (is_even bs)) [
  | inl e ↦ rw e (sum-used_even bs)
  | inr e ↦ rw e
]

pub denominator-pos : (bs : List AllocationBucket) → is_empty bs ≡ false → 0 < denominator_of bs
denominator-pos [] h = ground arith
denominator-pos (b ∷ bs) h = elim (Bool-cases (is_even (b ∷ bs))) [
  | inl e ↦ rw e (omega arith)
  | inr e ↦ rw e (ground arith)
]

module _ (m d : ℕ) (even : Bool) (pos_d : 0 < d) where
  pub row_of_lem :
      (b : AllocationBucket)
      → let r = row_of m even d b in
        (r.base * d + r.remainder ≡ m * used_weight even b) × (r.remainder < d)
  unfolding row_of
  row_of_lem b = omega (arith, div_bounds (m * used_weight even b) d pos_d)

  sum-rows :
      (bs : List AllocationBucket)
      → sum_by row_base (map (row_of m even d) bs) * d
          + sum_by row_remainder (map (row_of m even d) bs)
        ≡ m * sum_by (used_weight even) bs
  sum-rows [] = omega arith
  sum-rows (b ∷ bs) = omega (arith, row_of_lem b, sum-rows bs)

  sum-remainders :
      (bs : List AllocationBucket) → sum_by row_remainder (map (row_of m even d) bs) ≤ length bs * d
  sum-remainders [] = omega arith
  sum-remainders (b ∷ bs) = omega (arith, row_of_lem b, sum-remainders bs)

  sum-remainders_lt :
      (bs : List AllocationBucket)
      → is_empty bs ≡ false
      → sum_by row_remainder (map (row_of m even d) bs) < length bs * d
  sum-remainders_lt [] h = ground arith
  sum-remainders_lt (b ∷ bs) h = omega (arith, row_of_lem b, sum-remainders bs)

lt_of_scaled : (m s d n r : ℕ) → 0 < d → s * d + r ≡ m * d → r < n * d → (s ≤ m) × (m - s < n)
lt_of_scaled m s d n r h e k =
    let low : s ≤ m = grind arith in
    elim (dec_lt m (s + n)) [
      | yes p ↦ (low, omega arith)
      | no p ↦ let le : s + n ≤ m = omega arith in absurd (omega (arith, mul-le-mul le (le_refl d)))
    ]

-- The units left after the quotients are fewer than the buckets.
pub shortfall_lt :
    (m : ℕ) (bs : List AllocationBucket)
    → is_empty bs ≡ false
    → let s = sum_by row_base (rows_of m bs) in (s ≤ m) × (m - s < length bs)
shortfall_lt m bs h =
    let d = denominator_of bs in
    let p = denominator-pos bs h in
    lt_of_scaled m _ d (length bs) _ p (rw (sum-rows m d (is_even bs) p bs, sum-used_weight bs))
      (sum-remainders_lt m d (is_even bs) p bs h)
