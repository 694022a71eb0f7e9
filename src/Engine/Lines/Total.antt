-- ===== src/Engine/Lines/Total.antt =====
-- packages/core/src/engine/allocate-lines.ts: what the margins of the lines add up to.
use ghalla.Base.{
  ◌≡◌, refl, false, List, [], ◌∷◌, map, ap, sym, ◌∙◌, is_empty, Bool-cases, inl, inr, if◌then◌else◌,
  subst, any, Option-cases,
}
use ghalla.Base.Text.{Text}
use ghalla.Base.Int.{ℤ, pos, total_by, ltb_ℤ}
use ghalla.Base.Totals.{total_by-map, total_by-eq}
use ghalla.Base.Dict.{Dict, lookup}
use ghalla.Base.Result.{ok, >>=-eq-ok, ok-injective}
use ghalla.Money.{allocate_minor}
use ghalla.Money.Share.Sum.{share, allocate-sum}
use ghalla.Money.Share.Unique.{Unique, keys, value_at, total_by-keys}
use ghalla.Money.Share.ByKey.{allocate-keys, allocate-Unique, key_of, itself}
use ghalla.Contracts.Canonical.{CanonicalOrderItem}
use ghalla.Engine.Revenue.{LineRevenue}
use ghalla.Engine.Reversal.{LineReversal}
use ghalla.Engine.Shipping.{ShipmentCost}
use ghalla.Engine.Lines.{
  OrderLevelAmounts, Allocations, share_of, returned_buckets, spread_over, spread_parcels,
  allocate_amounts, revenue_buckets,
}
use ghalla.Engine.Lines.Parcels.{line_id, spread_over-ok, spread_parcels-ok, buckets-keys}

pub share_of_eq : (m : Dict ℤ) (k : Text) → share_of m k ≡ value_at itself m k
share_of_eq m k = elim (Option-cases (lookup k m)) [ inl e ↦ rw e refl | inr (v, e) ↦ rw e refl ]

module _ (revenue : List LineRevenue) where
  -- The shares that the lines read from a map add up to the total.
  abbrev pub Covers : Dict ℤ → ℤ → Type 0
  Covers out total = total_by (λ l. share_of out (line_id l)) revenue ≡ total

  covers :
      (out : Dict ℤ) (total : ℤ)
      → Unique (map line_id revenue)
      → (keys out ≡ map line_id revenue) × (total_by share out ≡ total)
      → Covers out total
  covers out total u (same, sums) =
      total_by-eq _ _ (λ l. share_of_eq out (line_id l)) revenue
      ∙ (sym (total_by-map (value_at itself out) line_id revenue)
          ∙ (ap (total_by (value_at itself out)) (sym same)
              ∙ (total_by-keys itself out (subst Unique (sym same) u) ∙ sums)))

  returned-keys :
      (reversals : List LineReversal) (ls : List LineRevenue)
      → map key_of (returned_buckets reversals ls) ≡ map line_id ls
  returned-keys reversals [] = refl
  returned-keys reversals (l ∷ ls) =
      ap (λ (ks : List Text). l.order_item_id ∷ ks) (returned-keys reversals ls)

  abbrev pub Sums : List ShipmentCost → ℤ → Type 0
  Sums parcels total = is_empty parcels ≡ false → total ≡ total_by (λ p. p.cost_minor) parcels

  return-Covers :
      (items : Dict CanonicalOrderItem) (reversals : List LineReversal)
      (parcels : List ShipmentCost) (total : ℤ) {out : Dict ℤ}
      → Unique (map line_id revenue)
      → Sums parcels total
      → (if any (λ b. ltb_ℤ (pos 0) b.weight) (returned_buckets reversals revenue)
          then allocate_minor total (returned_buckets reversals revenue)
          else spread_parcels items revenue parcels total)
        ≡ ok out
      → Covers out total
  return-Covers items reversals parcels total {out} u sums h =
      elim (Bool-cases (any (λ b. ltb_ℤ (pos 0) b.weight) (returned_buckets reversals revenue))) [
        | inl e ↦ covers out total u (
          allocate-keys total (returned_buckets reversals revenue) (rw e at h)
              ∙ returned-keys reversals revenue,
          allocate-sum total (returned_buckets reversals revenue) (rw e at h),
        )
        | inr e ↦
            covers out total u (spread_parcels-ok items revenue parcels total u sums (rw e at h))
      ]

  -- Each of the six allocations covers its total.
  pub allocate_amounts-Covers :
      (items : Dict CanonicalOrderItem) (reversals : List LineReversal) (m : OrderLevelAmounts)
      {a : Allocations}
      → Sums m.outbound_parcels m.outbound_shipping_cost_minor
      → Sums m.return_parcels m.return_shipping_cost_minor
      → allocate_amounts items revenue reversals m ≡ ok a
      → Unique (map line_id revenue)
        × Covers a.shipping_revenue m.shipping_revenue_ex_vat_minor
        × Covers a.cod_fee_revenue m.cod_fee_revenue_ex_vat_minor
        × Covers a.outbound m.outbound_shipping_cost_minor
        × Covers a.returned m.return_shipping_cost_minor
        × Covers a.gateway m.gateway_fee_cost_minor
        × Covers a.cod m.cod_cost_minor
  unfolding allocate_amounts spread_over
  allocate_amounts-Covers items reversals m {a} out_sums back_sums h =
      let over = spread_over items revenue in
      let (s, p₁, h₁) = >>=-eq-ok (over m.shipping_revenue_ex_vat_minor) _ h in
      let u : Unique (map line_id revenue) =
        subst Unique (buckets-keys items revenue)
          (allocate-Unique m.shipping_revenue_ex_vat_minor (revenue_buckets items revenue) p₁) in
      let (f, p₂, h₂) = >>=-eq-ok (over m.cod_fee_revenue_ex_vat_minor) _ h₁ in
      let (o, p₃, h₃) =
        >>=-eq-ok (spread_parcels items revenue m.outbound_parcels m.outbound_shipping_cost_minor) _
          h₂ in
      let (b, p₄, h₄) =
        >>=-eq-ok
          (if any (λ b. ltb_ℤ (pos 0) b.weight) (returned_buckets reversals revenue)
            then allocate_minor m.return_shipping_cost_minor (returned_buckets reversals revenue)
            else spread_parcels items revenue m.return_parcels m.return_shipping_cost_minor)
          _ h₃ in
      let (g, p₅, h₅) = >>=-eq-ok (over m.gateway_fee_cost_minor) _ h₄ in
      let (c, p₆, h₆) = >>=-eq-ok (over m.cod_cost_minor) _ h₅ in
      subst
        (λ (x : Allocations).
          Unique (map line_id revenue)
          × Covers x.shipping_revenue m.shipping_revenue_ex_vat_minor
          × Covers x.cod_fee_revenue m.cod_fee_revenue_ex_vat_minor
          × Covers x.outbound m.outbound_shipping_cost_minor
          × Covers x.returned m.return_shipping_cost_minor
          × Covers x.gateway m.gateway_fee_cost_minor
          × Covers x.cod m.cod_cost_minor)
        (ok-injective {b = a} h₆)
        (
          u,
          covers s _ u (spread_over-ok items revenue _ p₁),
          covers f _ u (spread_over-ok items revenue _ p₂),
          covers o _ u (spread_parcels-ok items revenue m.outbound_parcels _ u out_sums p₃),
          return-Covers items reversals m.return_parcels _ u back_sums p₄,
          covers g _ u (spread_over-ok items revenue _ p₅),
          covers c _ u (spread_over-ok items revenue _ p₆),
        )
