-- ===== src/Money/Share/Bounds.antt =====
-- The shares of an allocation and the exact proportions, and when an allocation is returned.
use ghalla.Base.{
  ℕ, ◌+◌, ◌*◌, ◌≤◌, ◌<◌, ◌≡◌, refl, Bool, true, false, List, [], ◌∷◌, map, arith, sum_by, is_empty,
  Bool-cases, inl, inr, ltb, sym,
}
use mathlib.Core.Path.{subst}
use ghalla.Base.Int.{ℤ, pos, abs, ltb_ℤ, ◌≤ℤ◌, neg_parts}
use ghalla.Base.Text.{Text}
use ghalla.Base.Dict.{Dict, has}
use ghalla.Base.Result.{ok, >>=-eq-ok, map_result, ok-injective, err-ne-ok}
use ghalla.Money.Kernel.{max_minor, to_minor, with_sign}
use ghalla.Money.Exact.{to_minor_of_le}
use ghalla.Money.Allocate.{
  AllocationBucket, Row, rows_of, row_of, has_duplicate, amount_of, share_of_row, allocate_minor,
  is_even, denominator_of,
}
use ghalla.Money.Share.Rows.{used_weight, row_of_lem, denominator-pos}
use ghalla.Money.Share.Sum.{share_of_row-ok, sum-amounts_eq}

-- A number at most zero if the total is negative, and at least zero if not
abbrev pub HasSign : Bool → ℤ → Type 0
HasSign true v = v ≤ℤ pos 0
HasSign false v = pos 0 ≤ℤ v

-- An entry for a bucket of weight `w`, when a magnitude `m` is divided by `d`
pub record IsFair (negative : Bool) (m d w : ℕ) (key : Text) (e : Text × ℤ) : Type 0 where
  pub of_key : e.0 ≡ key
  pub of_sign : HasSign negative e.1
  pub not_over : abs e.1 * d ≤ m * w + d
  pub not_under : m * w ≤ abs e.1 * d + d

-- One fair entry for each bucket, in the order of the buckets
abbrev pub FairShares : Bool → ℕ → ℕ → Bool → List AllocationBucket → Dict ℤ → Type 0
FairShares negative m d even [] [] = Unit
FairShares negative m d even (b ∷ bs) (e ∷ out) =
    IsFair negative m d (used_weight even b) b.key e × FairShares negative m d even bs out
FairShares negative m d even _ _ = ⊥

abs-with_sign : (b : Bool) (n : ℕ) → abs (with_sign b n) ≡ n
abs-with_sign true n = ground (arith, neg_parts (pos n))
abs-with_sign false n = ground arith

with_sign-HasSign : (b : Bool) (n : ℕ) → HasSign b (with_sign b n)
with_sign-HasSign true n = ground (arith, neg_parts (pos n))
with_sign-HasSign false n = ground arith

module _ (negative even : Bool) (m d : ℕ) (pos_d : 0 < d) (extra : List Text) where
  amount_near :
      (b : AllocationBucket)
      → let a = amount_of extra (row_of m even d b) in
        (a * d ≤ m * used_weight even b + d) × (m * used_weight even b ≤ a * d + d)
  unfolding amount_of
  amount_near b = elim (Bool-cases (has (row_of m even d b).key extra)) [
    | inl taken ↦ rw taken (omega (arith, row_of_lem m d even pos_d b))
    | inr left ↦ rw left (omega (arith, row_of_lem m d even pos_d b))
  ]

  row-IsFair :
      (b : AllocationBucket)
      → let r = row_of m even d b in
        IsFair negative m d
          (used_weight even b)
          b.key
          (r.key, with_sign negative (amount_of extra r))
  unfolding row_of
  row-IsFair b =
      let a = amount_of extra (row_of m even d b) in
      let size = abs-with_sign negative a in
      record {
        of_key = refl;
        of_sign = with_sign-HasSign negative a;
        not_over = rw size (amount_near b).0;
        not_under = rw size (amount_near b).1;
      }

  shares-FairShares :
      (bs : List AllocationBucket) {out : Dict ℤ}
      → map_result (share_of_row negative extra) (map (row_of m even d) bs) ≡ ok out
      → FairShares negative m d even bs out
  shares-FairShares [] {out} h =
      subst (FairShares negative m d even []) (ok-injective {b = out} h) tt
  shares-FairShares (b ∷ bs) {out} h =
      let r = row_of m even d b in
      let (e, p, h₁) = >>=-eq-ok (share_of_row negative extra r) _ h in
      let (rest, q, h₂) =
        >>=-eq-ok (map_result (share_of_row negative extra) (map (row_of m even d) bs)) _ h₁ in
      let fair : IsFair negative m d (used_weight even b) b.key e =
        subst (IsFair negative m d (used_weight even b) b.key)
          (sym (share_of_row-ok negative extra r p)) (row-IsFair b) in
      subst (FairShares negative m d even (b ∷ bs)) (ok-injective {b = out} h₂)
        (fair, shares-FairShares bs q)

-- An allocation over at least one bucket has one entry for each bucket, in order, with its key; each
-- share has the sign of the total, and its magnitude is within one unit of the exact proportion.
pub allocate-FairShares :
    (total : ℤ) (bs : List AllocationBucket) {out : Dict ℤ}
    → is_empty bs ≡ false
    → allocate_minor total bs ≡ ok out
    → FairShares (ltb_ℤ total (pos 0)) (abs total) (denominator_of bs) (is_even bs) bs out
unfolding allocate_minor
allocate-FairShares total bs h k = elim (Bool-cases (has_duplicate [] (map (λ b. b.key) bs))) [
  | inl twice ↦ absurd (err-ne-ok (rw (h, twice) at k))
  | inr once ↦ shares-FairShares _ _ _ _ (denominator-pos bs h) _ bs (rw (h, once) at k)
]

shares_total :
    (negative : Bool) (extra : List Text) (rows : List Row)
    → sum_by (amount_of extra) rows ≤ max_minor
    → (out : Dict ℤ) × (map_result (share_of_row negative extra) rows ≡ ok out)
unfolding share_of_row
shares_total negative extra [] h = ([], refl)
shares_total negative extra (r ∷ rows) h =
    let (out, e) = shares_total negative extra rows (omega arith) in
    let v = with_sign negative (amount_of extra r) in
    let small : ltb max_minor (amount_of extra r) ≡ false = ground arith in
    let fits : to_minor v ≡ ok v =
      to_minor_of_le v (rw (abs-with_sign negative (amount_of extra r)) (omega arith)) in
    ((r.key, v) ∷ out, rw (small, fits, e))

-- A total in the range of money is always allocated over one or more buckets with distinct keys.
pub allocate_total :
    (total : ℤ) (bs : List AllocationBucket)
    → is_empty bs ≡ false
    → has_duplicate [] (map (λ b. b.key) bs) ≡ false
    → abs total ≤ max_minor
    → (out : Dict ℤ) × (allocate_minor total bs ≡ ok out)
unfolding allocate_minor
allocate_total total bs h k fits =
    rw (h, k)
      (shares_total _ _ (rows_of (abs total) bs) (rw (sum-amounts_eq (abs total) bs h k) fits))
