-- ===== src/Money/Share/ByKey.antt =====
-- What `allocateMinor` returns, read by the keys of its buckets.
use ghalla.Base.{◌≡◌, Bool, List, [], ◌∷◌, map, ap, sym, ◌∙◌, Bool-cases, inl, inr, subst}
use ghalla.Base.Text.{Text}
use ghalla.Base.Int.{ℤ, pos, eq_ℤ, total_by, abs}
use ghalla.Base.Dict.{Dict}
use ghalla.Base.Result.{ok, >>=-eq-ok, ok-injective, err-ne-ok, map_result}
use ghalla.Money.Allocate.{
  AllocationBucket, Row, has_duplicate, allocate_minor, share_of_row, rows_of, row_key,
}
use ghalla.Money.Share.Sum.{allocate-sum, share_of_row-ok, map-row_key}
use ghalla.Money.Share.Unique.{Unique, Unique-of_check, keys, value_at, total_by-keys}

abbrev pub key_of : AllocationBucket → Text
key_of b = b.key

shares-keys :
    (negative : Bool) (extra : List Text) (rows : List Row) {out : Dict ℤ}
    → map_result (share_of_row negative extra) rows ≡ ok out
    → keys out ≡ map row_key rows
shares-keys negative extra [] {out} h = ap keys (sym (ok-injective {b = out} h))
shares-keys negative extra (r ∷ rows) {out} h =
    let (e, p, h₁) = >>=-eq-ok (share_of_row negative extra r) _ h in
    let (rest, q, h₂) = >>=-eq-ok (map_result (share_of_row negative extra) rows) _ h₁ in
    let head : e.0 ≡ r.key = ap (λ (x : Text × ℤ). x.0) (share_of_row-ok negative extra r p) in
    ap keys (sym (ok-injective {b = out} h₂))
    ∙ (ap (λ (k : Text). k ∷ keys rest) head
        ∙ ap (λ (ks : List Text). r.key ∷ ks) (shares-keys negative extra rows q))

-- The shares come with the keys of the buckets, in their order.
pub allocate-keys :
    (total : ℤ) (bs : List AllocationBucket) {out : Dict ℤ}
    → allocate_minor total bs ≡ ok out
    → keys out ≡ map key_of bs
unfolding allocate_minor
allocate-keys total [] {out} h = elim (Bool-cases (eq_ℤ total (pos 0))) [
  | inl e ↦ ap keys (sym (ok-injective {b = out} (rw e at h)))
  | inr e ↦ absurd (err-ne-ok (rw e at h))
]
allocate-keys total (b ∷ bs) {out} h =
    elim (Bool-cases (has_duplicate [] (map (λ b. b.key) (b ∷ bs)))) [
      | inl twice ↦ absurd (err-ne-ok (rw twice at h))
      | inr once ↦
          shares-keys _ _ (rows_of (abs total) (b ∷ bs)) (rw once at h) ∙ map-row_key _ _ _ (b ∷ bs)
    ]

pub allocate-Unique :
    (total : ℤ) (bs : List AllocationBucket) {out : Dict ℤ}
    → allocate_minor total bs ≡ ok out
    → Unique (map key_of bs)
unfolding allocate_minor
allocate-Unique total [] h = tt
allocate-Unique total (b ∷ bs) h =
    elim (Bool-cases (has_duplicate [] (map (λ b. b.key) (b ∷ bs)))) [
      | inl twice ↦ absurd (err-ne-ok (rw twice at h))
      | inr once ↦ Unique-of_check (map key_of (b ∷ bs)) once
    ]

abbrev pub itself : ℤ → ℤ
itself v = v

-- Read by the keys of the buckets, the shares add up to the total.
pub allocate-by_key :
    (total : ℤ) (bs : List AllocationBucket) {out : Dict ℤ}
    → allocate_minor total bs ≡ ok out
    → total_by (value_at itself out) (map key_of bs) ≡ total
allocate-by_key total bs {out} h =
    let same = allocate-keys total bs h in
    ap (total_by (value_at itself out)) (sym same)
    ∙ (total_by-keys itself out (subst Unique (sym same) (allocate-Unique total bs h))
        ∙ allocate-sum total bs h)
