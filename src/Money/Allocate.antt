-- ===== src/Money/Allocate.antt =====
-- `allocateMinor` of packages/core/src/money.ts: a total is distributed over weighted buckets by
-- largest remainder. The code's BigInts are naturals: none of them is ever negative.
use ghalla.Base.{
  ℕ, ◌+◌, ◌-◌, ◌*◌, ◌/◌, Bool, false, not, ◌||◌, List, [], ◌∷◌, map, ltb, ◌==◌, if◌then◌else◌,
  length, take, sum_by, is_empty,
}
use ghalla.Base.Int.{ℤ, pos, abs, pos_part, ltb_ℤ, eq_ℤ}
use ghalla.Base.Text.{Text, lt_text}
use ghalla.Base.Dict.{Dict, has}
use ghalla.Base.Result.{Result, ok, err, money_kernel, ◌>>=◌, map_result}
use ghalla.Money.Kernel.{max_minor, to_minor, with_sign}

pub record AllocationBucket : Type 0 where
  pub key : Text
  pub weight : ℤ

-- The loop over `seen`: some key stands in an earlier bucket.
unfoldable pub has_duplicate : List Text → List Text → Bool
has_duplicate seen [] = false
has_duplicate seen (k ∷ ks) = has k seen || has_duplicate (k ∷ seen) ks

pub record Row : Type 0 where
  pub key : Text
  pub base : ℕ
  pub remainder : ℕ
  pub weight : ℕ

-- A negative weight counts as zero.
abbrev pub raw_weight : AllocationBucket → ℕ
raw_weight b = pos_part b.weight

abbrev pub weight_sum : List AllocationBucket → ℕ
weight_sum = sum_by raw_weight

-- Whether every weight is zero, so that the total is split evenly.
abbrev pub is_even : List AllocationBucket → Bool
is_even bs = weight_sum bs == 0

abbrev pub denominator_of : List AllocationBucket → ℕ
denominator_of bs = if is_even bs then length bs else weight_sum bs

unfoldable pub row_of : ℕ → Bool → ℕ → AllocationBucket → Row
row_of magnitude even denominator b =
    let weight = if even then 1 else raw_weight b in
    let numerator = magnitude * weight in
    let base = numerator / denominator in
    record { key = b.key; base = base; remainder = numerator - base * denominator; weight = weight }

abbrev pub rows_of : ℕ → List AllocationBucket → List Row
rows_of magnitude bs = map (row_of magnitude (is_even bs) (denominator_of bs)) bs

-- The comparator: `a` is served before `b`.
unfoldable pub before : Row → Row → Bool
before a b =
    if not (a.remainder == b.remainder)
    then ltb b.remainder a.remainder
    else if not (a.weight == b.weight)
    then ltb b.weight a.weight
    else lt_text a.key b.key

-- `sort`, a stable sort by the comparator
unfoldable pub insert_row : Row → List Row → List Row
insert_row r [] = r ∷ []
insert_row r (s ∷ rows) = if before s r then s ∷ insert_row r rows else r ∷ s ∷ rows

unfoldable pub sort_rows : List Row → List Row
sort_rows [] = []
sort_rows (r ∷ rows) = insert_row r (sort_rows rows)

abbrev pub row_key : Row → Text
row_key r = r.key

abbrev pub row_base : Row → ℕ
row_base r = r.base

-- The keys that take one unit more: the first `shortfall` of the sorted rows.
abbrev pub extra_keys : ℕ → List Row → List Text
extra_keys shortfall rows = map row_key (take shortfall (sort_rows rows))

unfoldable pub amount_of : List Text → Row → ℕ
amount_of extra r = r.base + (if has r.key extra then 1 else 0)

unfoldable pub share_of_row : Bool → List Text → Row → Result (Text × ℤ)
share_of_row negative extra r =
    let amount = amount_of extra r in
    if ltb max_minor amount
    then err money_kernel
    else to_minor (with_sign negative amount) >>= λ v. ok (r.key, v)

-- The entries of the map that the function returns, in the order of the buckets.
unfoldable pub allocate_minor : ℤ → List AllocationBucket → Result (Dict ℤ)
allocate_minor total buckets =
    if is_empty buckets
    then if eq_ℤ total (pos 0) then ok [] else err money_kernel
    else if has_duplicate [] (map (λ b. b.key) buckets)
    then err money_kernel
    else let rows = rows_of (abs total) buckets in
      let shortfall = abs total - sum_by row_base rows in
      map_result (share_of_row (ltb_ℤ total (pos 0)) (extra_keys shortfall rows)) rows
