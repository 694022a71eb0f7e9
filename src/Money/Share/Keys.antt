-- ===== src/Money/Share/Keys.antt =====
-- Distinct keys, sorting, and how many of the rows take an extra unit.
use ghalla.Base.{
  ℕ, zero, suc, ◌+◌, ◌≤◌, ◌≡◌, refl, Bool, false, ◌||◌, List, [], ◌∷◌, map, arith, if◌then◌else◌,
  length, take, sum_by, All, Bool-cases, inl, inr,
}
use mathlib.Core.Path.{◌≡⟨◌⟩◌, ◌∎, sym}
use ghalla.Base.Text.{Text, eq_text, eq_text_iff, eq_text_refl}
use ghalla.Base.Dict.{has}
use ghalla.Money.Allocate.{Row, row_key, has_duplicate, insert_row, sort_rows, extra_keys, before}

-- No two rows have one key.
abbrev pub Distinct : List Row → Type 0
Distinct [] = Unit
Distinct (r ∷ rows) = All (λ s. eq_text r.key s.key ≡ false) rows × Distinct rows

eq_text_symm : (a b : Text) → eq_text a b ≡ false → eq_text b a ≡ false
eq_text_symm a b h = ground (arith, eq_text_iff a b, eq_text_iff b a)

unseen-split :
    (seen : List Text) (k : Text) (rows : List Row)
    → All (λ r. has r.key (k ∷ seen) ≡ false) rows
    → All (λ r. has r.key seen ≡ false) rows × All (λ r. eq_text k r.key ≡ false) rows
unfolding has
unseen-split seen k [] p = (tt, tt)
unseen-split seen k (r ∷ rows) p = ground (arith, unseen-split seen k rows p.1)

unseen-join :
    (seen : List Text) (k : Text) (rows : List Row)
    → All (λ r. has r.key seen ≡ false) rows
    → All (λ r. eq_text k r.key ≡ false) rows
    → All (λ r. has r.key (k ∷ seen) ≡ false) rows
unfolding has
unseen-join seen k [] p q = tt
unseen-join seen k (r ∷ rows) p q = (rw (q.0, p.0), unseen-join seen k rows p.1 q.1)

or_false : (a b : Bool) → (a || b) ≡ false → (a ≡ false) × (b ≡ false)
or_false a b h = ground arith

has_duplicate-unseen :
    (seen : List Text) (rows : List Row)
    → has_duplicate seen (map row_key rows) ≡ false
    → All (λ r. has r.key seen ≡ false) rows × Distinct rows
unfolding has_duplicate
has_duplicate-unseen seen [] h = (tt, tt)
has_duplicate-unseen seen (r ∷ rows) h =
    let (here, later) = or_false (has r.key seen) _ h in
    let (apart, distinct) = has_duplicate-unseen (r.key ∷ seen) rows later in
    let (old, new) = unseen-split seen r.key rows apart in ((here, old), (new, distinct))

-- What the loop over `seen` has checked.
pub Distinct-of_check :
    (rows : List Row) → has_duplicate [] (map row_key rows) ≡ false → Distinct rows
Distinct-of_check rows h = (has_duplicate-unseen [] rows h).1

-- The check passes where keys are distinct.
check_of_Distinct :
    (seen : List Text) (rows : List Row)
    → All (λ r. has r.key seen ≡ false) rows
    → Distinct rows
    → has_duplicate seen (map row_key rows) ≡ false
unfolding has_duplicate
check_of_Distinct seen [] p d = refl
check_of_Distinct seen (r ∷ rows) p d =
    rw (p.0, check_of_Distinct (r.key ∷ seen) rows (unseen-join seen r.key rows p.1 d.0) d.1)

module _ {κ} (P : Row → Type κ) where
  All-insert_row : (r : Row) (rows : List Row) → P r → All P rows → All P (insert_row r rows)
  unfolding insert_row
  All-insert_row r [] p ps = (p, tt)
  All-insert_row r (s ∷ rows) p ps = elim (Bool-cases (before s r)) [
    | inl e ↦ rw e (ps.0, All-insert_row r rows p ps.1)
    | inr e ↦ rw e (p, ps)
  ]

  pub All-sort_rows : (rows : List Row) → All P rows → All P (sort_rows rows)
  unfolding sort_rows
  All-sort_rows [] ps = tt
  All-sort_rows (r ∷ rows) ps = All-insert_row r (sort_rows rows) ps.0 (All-sort_rows rows ps.1)

Distinct-insert_row :
    (r : Row) (rows : List Row)
    → All (λ s. eq_text r.key s.key ≡ false) rows
    → Distinct rows
    → Distinct (insert_row r rows)
unfolding insert_row
Distinct-insert_row r [] p d = (tt, tt)
Distinct-insert_row r (s ∷ rows) p d = elim (Bool-cases (before s r)) [
  | inl e ↦ rw e (
    All-insert_row (λ t. eq_text s.key t.key ≡ false) r rows (eq_text_symm _ _ p.0) d.0,
    Distinct-insert_row r rows p.1 d.1,
  )
  | inr e ↦ rw e (p, d)
]

pub Distinct-sort_rows : (rows : List Row) → Distinct rows → Distinct (sort_rows rows)
unfolding sort_rows
Distinct-sort_rows [] d = tt
Distinct-sort_rows (r ∷ rows) d =
    Distinct-insert_row r (sort_rows rows) (All-sort_rows _ rows d.0) (Distinct-sort_rows rows d.1)

-- Sorting moves rows, and changes no sum over them.
module _ (f : Row → ℕ) where
  sum-insert_row : (r : Row) (rows : List Row) → sum_by f (insert_row r rows) ≡ f r + sum_by f rows
  unfolding insert_row
  sum-insert_row r [] = refl
  sum-insert_row r (s ∷ rows) = elim (Bool-cases (before s r)) [
    | inl e ↦ rw e (omega (arith, sum-insert_row r rows))
    | inr e ↦ rw e
  ]

  pub sum-sort_rows : (rows : List Row) → sum_by f (sort_rows rows) ≡ sum_by f rows
  unfolding sort_rows
  sum-sort_rows [] = refl
  sum-sort_rows (r ∷ rows) = omega (arith, sum-insert_row r (sort_rows rows), sum-sort_rows rows)

-- Whether a row takes one of the extra units, as a number
abbrev pub takes : List Text → Row → ℕ
takes extra r = if has r.key extra then 1 else 0

takes-skip :
    (k : Text) (extra : List Text) (rows : List Row)
    → All (λ s. eq_text k s.key ≡ false) rows
    → sum_by (takes (k ∷ extra)) rows ≡ sum_by (takes extra) rows
unfolding has
takes-skip k extra [] p = refl
takes-skip k extra (r ∷ rows) p = rw (p.0, takes-skip k extra rows p.1)

takes-none : (rows : List Row) → sum_by (takes []) rows ≡ 0
unfolding has
takes-none [] = refl
takes-none (r ∷ rows) = rw (takes-none rows)

-- Of rows with distinct keys exactly the first `n` take an extra unit.
takes-take :
    (n : ℕ) (rows : List Row)
    → Distinct rows
    → n ≤ length rows
    → sum_by (takes (map row_key (take n rows))) rows ≡ n
unfolding has
takes-take zero rows d h = takes-none rows
takes-take (suc n) [] d h = absurd (omega arith)
takes-take (suc n) (r ∷ rows) d h =
    rw
      (
        eq_text_refl r.key,
        takes-skip r.key (map row_key (take n rows)) rows d.0,
        takes-take n rows d.1 (omega arith),
      )
      (omega arith)

length-eq-sum : (rows : List Row) → length rows ≡ sum_by (λ _. 1) rows
length-eq-sum [] = refl
length-eq-sum (r ∷ rows) = rw (length-eq-sum rows) (omega arith)

pub length-sort_rows : (rows : List Row) → length (sort_rows rows) ≡ length rows
length-sort_rows rows =
    rw (length-eq-sum (sort_rows rows), length-eq-sum rows) (sum-sort_rows (λ _. 1) rows)

pub sum-takes :
    (n : ℕ) (rows : List Row)
    → Distinct rows
    → n ≤ length rows
    → sum_by (takes (extra_keys n rows)) rows ≡ n
sum-takes n rows d h =
    sum_by (takes (extra_keys n rows)) rows
    ≡⟨ sym (sum-sort_rows (takes (extra_keys n rows)) rows) ⟩
      sum_by (takes (extra_keys n rows)) (sort_rows rows)
    ≡⟨ takes-take n (sort_rows rows) (Distinct-sort_rows rows d) (rw (length-sort_rows rows) h) ⟩
      n ∎
