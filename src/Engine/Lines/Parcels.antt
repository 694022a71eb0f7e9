-- ===== src/Engine/Lines/Parcels.antt =====
-- packages/core/src/engine/allocate-lines.ts: how the cost of parcels reaches the lines.
use ghalla.Base.{
  ◌≡◌, refl, Bool, true, false, List, [], ◌∷◌, map, arith, ap, sym, ◌∙◌, is_empty, Bool-cases, inl,
  inr, subst, All, filter, any,
}
use ghalla.Base.Text.{Text, eq_text, eq_text_refl}
use ghalla.Base.Int.{ℤ, pos, ◌+ℤ◌, ◌-ℤ◌, total_by, int_laws}
use ghalla.Base.Dict.{Dict, has, lookup, insert, of_entries}
use ghalla.Base.Result.{ok, >>=-eq-ok, ok-injective}
use ghalla.Money.{to_minor, allocate_minor}
use ghalla.Money.Exact.{to_minor-ok}
use ghalla.Money.Share.Sum.{share, allocate-sum}
use ghalla.Money.Share.Unique.{Unique, keys, of_entries_eq}
use ghalla.Money.Share.ByKey.{allocate-keys, key_of}
use ghalla.Contracts.Canonical.{CanonicalOrderItem}
use ghalla.Engine.Revenue.{LineRevenue}
use ghalla.Engine.Shipping.{ShipmentCost}
use ghalla.Engine.Lines.{
  share_of, add_shares, revenue_buckets, spread_over, spread_each, spread_parcels,
}

insert-sum :
    (k : Text) (u : ℤ) (m : Dict ℤ)
    → total_by share (insert k u m) ≡ total_by share m -ℤ share_of m k +ℤ u
unfolding insert lookup
insert-sum k u [] = omega int_laws
insert-sum k u ((j, w) ∷ m) = elim (Bool-cases (eq_text j k)) [
  | inl e ↦ rw e (omega int_laws)
  | inr e ↦ rw e (rw (insert-sum k u m) (omega int_laws))
]

insert-keys : (k : Text) (v : ℤ) (m : Dict ℤ) → has k (keys m) ≡ true → keys (insert k v m) ≡ keys m
unfolding insert has
insert-keys k v [] h = cc
insert-keys k v ((j, w) ∷ m) h = elim (Bool-cases (eq_text j k)) [
  | inl e ↦ rw e refl
  | inr e ↦ rw e (ap (λ (ks : List Text). j ∷ ks) (insert-keys k v m (rw e at h)))
]

-- Adding shares of known keys keeps the keys and adds up the amounts.
add_shares-ok :
    (shares out : Dict ℤ) {r : Dict ℤ}
    → All (λ k. has k (keys out) ≡ true) (keys shares)
    → add_shares shares out ≡ ok r
    → (keys r ≡ keys out) × (total_by share r ≡ total_by share out +ℤ total_by share shares)
unfolding add_shares
add_shares-ok [] out {r} known h =
    let same = sym (ok-injective {b = r} h) in
    (ap keys same, ap (total_by share) same ∙ omega int_laws)
add_shares-ok ((k, v) ∷ shares) out {r} known h =
    let (s, p, h₁) = >>=-eq-ok (to_minor (share_of out k +ℤ v)) _ h in
    let value = (to_minor-ok (share_of out k +ℤ v) p).0 in
    let same = insert-keys k s out known.0 in
    let (ks, total) =
      add_shares-ok shares (insert k s out)
        (subst (λ (js : List Text). All (λ i. has i js ≡ true) (keys shares)) (sym same) known.1)
        h₁ in
    let grown : total_by share (insert k s out) ≡ total_by share out +ℤ v =
      ap (λ (t : ℤ). total_by share (insert k t out)) value
      ∙ (insert-sum k (share_of out k +ℤ v) out ∙ omega int_laws) in
    (ks ∙ same, total ∙ (ap (λ (t : ℤ). t +ℤ total_by share shares) grown ∙ omega int_laws))

abbrev pub line_id : LineRevenue → Text
line_id l = l.order_item_id

pub buckets-keys :
    (items : Dict CanonicalOrderItem) (revenue : List LineRevenue)
    → map key_of (revenue_buckets items revenue) ≡ map line_id revenue
buckets-keys items [] = refl
buckets-keys items (l ∷ ls) = ap (λ (ks : List Text). l.order_item_id ∷ ks) (buckets-keys items ls)

known_more :
    (k : Text) (ks js : List Text)
    → All (λ i. has i ks ≡ true) js
    → All (λ i. has i (k ∷ ks) ≡ true) js
unfolding has
known_more k ks [] p = tt
known_more k ks (j ∷ js) p = (ground (arith, p.0), known_more k ks js p.1)

filter-known :
    (p : LineRevenue → Bool) (revenue : List LineRevenue)
    → All (λ k. has k (map line_id revenue) ≡ true) (map line_id (filter p revenue))
unfolding has
filter-known p [] = tt
filter-known p (l ∷ ls) =
    let rest = known_more l.order_item_id (map line_id ls) _ (filter-known p ls) in
    elim (Bool-cases (p l)) [
      | inl e ↦ rw e (rw (eq_text_refl l.order_item_id) refl, rest)
      | inr e ↦ rw e rest
    ]

module _ (items : Dict CanonicalOrderItem) (revenue : List LineRevenue) where
  -- A spread over all the lines has their ids and adds up.
  pub spread_over-ok :
      (total : ℤ) {r : Dict ℤ}
      → spread_over items revenue total ≡ ok r
      → (keys r ≡ map line_id revenue) × (total_by share r ≡ total)
  unfolding spread_over
  spread_over-ok total h = (
    allocate-keys total (revenue_buckets items revenue) h ∙ buckets-keys items revenue,
    allocate-sum total (revenue_buckets items revenue) h,
  )

  spread_each-ok :
      (parcels : List ShipmentCost) (total : ℤ) (out : Dict ℤ) {r : Dict ℤ}
      → keys out ≡ map line_id revenue
      → total ≡ total_by share out +ℤ total_by (λ p. p.cost_minor) parcels
      → spread_each items revenue parcels total out ≡ ok r
      → (keys r ≡ map line_id revenue) × (total_by share r ≡ total)
  unfolding spread_each
  spread_each-ok [] total out {r} ks sums h =
      let same = sym (ok-injective {b = r} h) in
      (ap keys same ∙ ks, ap (total_by share) same ∙ sym (sums ∙ omega int_laws))
  spread_each-ok (p ∷ parcels) total out {r} ks sums h =
      let within = filter (λ l. has l.order_item_id p.line_ids) revenue in
      elim (Bool-cases (is_empty within)) [
        | inl e ↦ spread_over-ok total (rw e at h)
        | inr e ↦
            let (got, a, h₁) =
              >>=-eq-ok (allocate_minor p.cost_minor (revenue_buckets items within)) _
                (rw e at h) in
            let (next, b, h₂) = >>=-eq-ok (add_shares got out) _ h₁ in
            let ids =
              allocate-keys p.cost_minor (revenue_buckets items within) a
              ∙ buckets-keys items within in
            let known : All (λ k. has k (keys out) ≡ true) (keys got) =
              rw (ids, ks) (filter-known (λ l. has l.order_item_id p.line_ids) revenue) in
            let (same, grown) = add_shares-ok got out known b in
            spread_each-ok parcels total next (same ∙ ks)
              (sums
                ∙ (rw (grown, allocate-sum p.cost_minor (revenue_buckets items within) a)
                    (omega int_laws)))
              h₂
      ]

  entries-keys :
      (ls : List LineRevenue)
      → keys (map (λ (l : LineRevenue). (l.order_item_id, pos 0)) ls) ≡ map line_id ls
  entries-keys [] = refl
  entries-keys (l ∷ ls) = ap (λ (ks : List Text). l.order_item_id ∷ ks) (entries-keys ls)

  entries-sum :
      (ls : List LineRevenue)
      → total_by share (map (λ (l : LineRevenue). (l.order_item_id, pos 0)) ls) ≡ pos 0
  entries-sum [] = refl
  entries-sum (l ∷ ls) = rw (entries-sum ls) (omega int_laws)

  -- The costs of parcels that add up to the total reach the lines in full, parcel by parcel or at
  -- once.
  pub spread_parcels-ok :
      (parcels : List ShipmentCost) (total : ℤ) {r : Dict ℤ}
      → Unique (map line_id revenue)
      → (is_empty parcels ≡ false → total ≡ total_by (λ p. p.cost_minor) parcels)
      → spread_parcels items revenue parcels total ≡ ok r
      → (keys r ≡ map line_id revenue) × (total_by share r ≡ total)
  unfolding spread_parcels
  spread_parcels-ok [] total u sums h = spread_over-ok total h
  spread_parcels-ok (p ∷ parcels) total u sums h =
      let entries : Dict ℤ = map (λ (l : LineRevenue). (l.order_item_id, pos 0)) revenue in
      let start = of_entries_eq entries (subst Unique (sym (entries-keys revenue)) u) in
      elim (Bool-cases (any (λ p. is_empty p.line_ids) (p ∷ parcels))) [
        | inl e ↦ spread_over-ok total (rw e at h)
        | inr e ↦
            spread_each-ok (p ∷ parcels) total (of_entries entries)
              (ap keys start ∙ entries-keys revenue)
              (sums refl ∙ (rw (start, entries-sum revenue) (omega int_laws))) (rw e at h)
      ]
