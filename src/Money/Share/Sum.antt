-- ===== src/Money/Share/Sum.antt =====
-- The shares of an allocation and the total that they are taken from.
use ghalla.Base.{
  ℕ, ◌+◌, ◌-◌, ◌≡◌, refl, Bool, true, false, List, [], ◌∷◌, map, arith, sum_by, is_empty,
  Bool-cases, inl, inr, ltb, length-map, ap, sym, ◌∙◌,
}
use mathlib.Core.Path.{◌≡⟨◌⟩◌, ◌∎, ap₂}
use ghalla.Base.Int.{ℤ, pos, ◌+ℤ◌, neg, abs, ltb_ℤ, eq_ℤ, eq_ℤ_iff, total_by, int_laws, neg_parts}
use ghalla.Base.Text.{Text}
use ghalla.Base.Dict.{Dict}
use ghalla.Base.Result.{ok, >>=-eq-ok, map_result, ok-injective, err-ne-ok}
use ghalla.Money.Kernel.{max_minor, with_sign}
use ghalla.Money.Exact.{to_minor-ok}
use ghalla.Money.Allocate.{
  AllocationBucket, Row, rows_of, row_of, row_key, row_base, has_duplicate, extra_keys, amount_of,
  share_of_row, allocate_minor, is_even, denominator_of,
}
use ghalla.Money.Share.Rows.{shortfall_lt}
use ghalla.Money.Share.Keys.{Distinct-of_check, takes, sum-takes}

abbrev pub share : Text × ℤ → ℤ
share e = e.1

with_sign-add : (b : Bool) (m n : ℕ) → with_sign b (m + n) ≡ with_sign b m +ℤ with_sign b n
with_sign-add true m n = omega int_laws
with_sign-add false m n = omega int_laws

with_sign-zero : (b : Bool) → with_sign b 0 ≡ pos 0
unfolding neg
with_sign-zero true = refl
with_sign-zero false = refl

with_sign-abs : (v : ℤ) → with_sign (ltb_ℤ v (pos 0)) (abs v) ≡ v
with_sign-abs v = ground (arith, neg_parts (pos (abs v)))

-- A share that is returned has its row's key, and the amount with the sign of the total.
pub share_of_row-ok :
    (negative : Bool) (extra : List Text) (r : Row) {e : Text × ℤ}
    → share_of_row negative extra r ≡ ok e
    → e ≡ (r.key, with_sign negative (amount_of extra r))
unfolding share_of_row
share_of_row-ok negative extra r {e} h = elim (Bool-cases (ltb max_minor (amount_of extra r))) [
  | inl big ↦ absurd (err-ne-ok (rw big at h))
  | inr fits ↦
      let (v, p, q) = >>=-eq-ok _ _ (rw fits at h) in
      sym (ok-injective {b = e} q) ∙ ap (λ (t : ℤ). (r.key, t)) (to_minor-ok _ p).0
]

sum-shares :
    (negative : Bool) (extra : List Text) (rows : List Row) {out : Dict ℤ}
    → map_result (share_of_row negative extra) rows ≡ ok out
    → total_by share out ≡ with_sign negative (sum_by (amount_of extra) rows)
sum-shares negative extra [] {out} h =
    ap (total_by share) (sym (ok-injective {b = out} h)) ∙ sym (with_sign-zero negative)
sum-shares negative extra (r ∷ rows) {out} h =
    let (e, p, h₁) = >>=-eq-ok _ _ h in
    let (rest, q, h₂) = >>=-eq-ok _ _ h₁ in
    let head = share_of_row-ok negative extra r p in
    let tail = sum-shares negative extra rows q in
    total_by share out
    ≡⟨ ap (total_by share) (sym (ok-injective {b = out} h₂)) ⟩ share e +ℤ total_by share rest
    ≡⟨ ap₂ ◌+ℤ◌ (ap share head) tail ⟩
      with_sign negative (amount_of extra r) +ℤ with_sign negative (sum_by (amount_of extra) rows)
    ≡⟨ sym (with_sign-add negative (amount_of extra r) (sum_by (amount_of extra) rows)) ⟩
      with_sign negative (sum_by (amount_of extra) (r ∷ rows)) ∎

sum-amounts :
    (extra : List Text) (rows : List Row)
    → sum_by (amount_of extra) rows ≡ sum_by row_base rows + sum_by (takes extra) rows
unfolding amount_of
sum-amounts extra [] = omega arith
sum-amounts extra (r ∷ rows) = omega (arith, sum-amounts extra rows)

pub map-row_key :
    (m d : ℕ) (even : Bool) (bs : List AllocationBucket)
    → map row_key (map (row_of m even d) bs) ≡ map (λ b. b.key) bs
unfolding row_of
map-row_key m d even [] = refl
map-row_key m d even (b ∷ bs) = rw (map-row_key m d even bs)

-- The amounts of an allocation, before they are given a sign, add up to the magnitude.
pub sum-amounts_eq :
    (m : ℕ) (bs : List AllocationBucket)
    → is_empty bs ≡ false
    → has_duplicate [] (map (λ b. b.key) bs) ≡ false
    → let rows = rows_of m bs in
      sum_by (amount_of (extra_keys (m - sum_by row_base rows) rows)) rows ≡ m
sum-amounts_eq m bs h k =
    let rows = rows_of m bs in
    let n = m - sum_by row_base rows in
    let (fits, few) = shortfall_lt m bs h in
    let distinct =
      Distinct-of_check rows (rw (map-row_key m (denominator_of bs) (is_even bs) bs) k) in
    let count =
      sum-takes n rows distinct
        (rw (length-map (row_of m (is_even bs) (denominator_of bs)) bs) (omega arith)) in
    rw (sum-amounts (extra_keys n rows) rows, count) (omega arith)

-- However the total is split, the shares that are returned add up to it exactly.
pub allocate-sum :
    (total : ℤ) (bs : List AllocationBucket) {out : Dict ℤ}
    → allocate_minor total bs ≡ ok out
    → total_by share out ≡ total
unfolding allocate_minor
allocate-sum total [] {out} h = elim (Bool-cases (eq_ℤ total (pos 0))) [
  | inl e ↦
      ap (total_by share) (sym (ok-injective {b = out} (rw e at h)))
      ∙ sym ((eq_ℤ_iff total (pos 0)).0 e)
  | inr e ↦ absurd (err-ne-ok (rw e at h))
]
allocate-sum total (b ∷ bs) {out} h =
    elim (Bool-cases (has_duplicate [] (map (λ b. b.key) (b ∷ bs)))) [
      | inl twice ↦ absurd (err-ne-ok (rw twice at h))
      | inr once ↦
          sum-shares _ _ (rows_of (abs total) (b ∷ bs)) (rw once at h)
          ∙ ap (with_sign (ltb_ℤ total (pos 0))) (sum-amounts_eq (abs total) (b ∷ bs) refl once)
          ∙ with_sign-abs total
    ]
