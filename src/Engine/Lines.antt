-- ===== src/Engine/Lines.antt =====
-- packages/core/src/engine/allocate-lines.ts: order-level revenue and cost pushed down onto lines,
-- with `OrderProfitLine` of result.ts.
pub mod Parcels
pub mod Margin
pub mod Total
pub mod Sum
use ghalla.Base.{
  false, ◌||◌, List, [], ◌∷◌, map, Option, none, some, if◌then◌else◌, filter, any, find, is_empty,
  or_else,
}
use ghalla.Base.Int.{ℤ, pos, ◌+ℤ◌, ltb_ℤ}
use ghalla.Base.Text.{Text, eq_text}
use ghalla.Base.Dict.{Dict, has, lookup, insert, of_entries}
use ghalla.Base.Result.{Result, ok, ◌>>=◌, map_result}
use ghalla.Money.{add_minor, sub_minor, to_minor, AllocationBucket, allocate_minor}
use ghalla.Contracts.Enums.{CostSource}
use ghalla.Contracts.Canonical.{CanonicalOrderItem}
use ghalla.Engine.Revenue.{LineRevenue}
use ghalla.Engine.Cogs.{LineCogs}
use ghalla.Engine.Shipping.{ShipmentCost}
use ghalla.Engine.Reversal.{LineReversal}

pub record OrderProfitLine : Type 0 where
  pub order_item_id : Text
  pub platform_product_id : Text
  pub platform_variant_id : Option Text
  pub sku : Option Text
  pub quantity : ℤ
  pub allocated_order_discount_ex_vat_minor : ℤ
  pub net_revenue_ex_vat_minor : ℤ
  pub allocated_shipping_revenue_ex_vat_minor : ℤ
  pub allocated_cod_fee_revenue_ex_vat_minor : ℤ
  pub unit_cost_minor : ℤ
  pub cogs_minor : ℤ
  pub cost_source : CostSource
  pub cost_history_id : Option Text
  pub allocated_outbound_shipping_minor : ℤ
  pub allocated_return_shipping_minor : ℤ
  pub allocated_gateway_fee_minor : ℤ
  pub allocated_cod_cost_minor : ℤ
  pub reversed_quantity : ℤ
  pub reversed_revenue_ex_vat_minor : ℤ
  pub restocked_cogs_minor : ℤ
  pub reversal_impact_minor : ℤ
  pub contribution_margin_minor : ℤ
  pub cost_covered_revenue_ex_vat_minor : ℤ

pub record OrderLevelAmounts : Type 0 where
  pub shipping_revenue_ex_vat_minor : ℤ
  pub cod_fee_revenue_ex_vat_minor : ℤ
  pub outbound_parcels : List ShipmentCost
  pub return_parcels : List ShipmentCost
  pub outbound_shipping_cost_minor : ℤ
  pub return_shipping_cost_minor : ℤ
  pub gateway_fee_cost_minor : ℤ
  pub cod_cost_minor : ℤ

-- `itemById`, `cogsById`, `reversalById`
abbrev pub item_by_id : List CanonicalOrderItem → Dict CanonicalOrderItem
item_by_id items = of_entries (map (λ i. (i.id, i)) items)

abbrev pub line_cogs_by_id : List LineCogs → Dict LineCogs
line_cogs_by_id cogs = of_entries (map (λ l. (l.order_item_id, l)) cogs)

abbrev pub reversal_by_id : List LineReversal → Dict LineReversal
reversal_by_id reversals = of_entries (map (λ r. (r.order_item_id, r)) reversals)

-- `m.get(id)?.field ?? fallback`
abbrev pub field_or {ℓ κ} : {A : Type ℓ} {B : Type κ} → (A → B) → B → Option A → B
field_or f d none = d
field_or f d (some a) = f a

abbrev pub weight_of : Dict CanonicalOrderItem → Text → ℤ
weight_of items id = field_or (λ i. i.line_total_ex_vat_minor) (pos 0) (lookup id items)

-- `shareOf`
abbrev pub share_of : Dict ℤ → Text → ℤ
share_of allocation id = or_else (lookup id allocation) (pos 0)

abbrev pub revenue_buckets : Dict CanonicalOrderItem → List LineRevenue → List AllocationBucket
revenue_buckets items =
    map (λ l. record { key = l.order_item_id; weight = weight_of items l.order_item_id })

-- `for (const [key, amount] of share) out.set(key, toMinor(shareOf(out, key) + amount))`
unfoldable pub add_shares : Dict ℤ → Dict ℤ → Result (Dict ℤ)
add_shares [] out = ok out
add_shares ((k, v) ∷ shares) out =
    to_minor (share_of out k +ℤ v) >>= λ s. add_shares shares (insert k s out)

module _ (items : Dict CanonicalOrderItem) (revenue : List LineRevenue) where
  -- `spread`
  unfoldable pub spread_over : ℤ → Result (Dict ℤ)
  spread_over total = allocate_minor total (revenue_buckets items revenue)

  -- The loop over the parcels; a parcel with none of the lines falls back to the whole split.
  unfoldable pub spread_each : List ShipmentCost → ℤ → Dict ℤ → Result (Dict ℤ)
  spread_each [] total out = ok out
  spread_each (p ∷ parcels) total out =
      let in_parcel = filter (λ l. has l.order_item_id p.line_ids) revenue in
      let rest = allocate_minor p.cost_minor (revenue_buckets items in_parcel) >>= λ share.
      add_shares share out >>= spread_each parcels total in
      if is_empty in_parcel then spread_over total else rest

  unfoldable pub spread_parcels : List ShipmentCost → ℤ → Result (Dict ℤ)
  spread_parcels parcels total =
      if is_empty parcels || any (λ p. is_empty p.line_ids) parcels
      then spread_over total
      else spread_each parcels total (of_entries (map (λ l. (l.order_item_id, pos 0)) revenue))

-- `returnedWeights`
abbrev pub returned_buckets : List LineReversal → List LineRevenue → List AllocationBucket
returned_buckets reversals = map (λ l. record {
  key = l.order_item_id;
  weight =
      field_or (λ r. r.reversed_revenue_ex_vat_minor) (pos 0)
        (find (λ r. eq_text r.order_item_id l.order_item_id) reversals);
})

-- The six allocations of an order.
pub record Allocations : Type 0 where
  pub shipping_revenue : Dict ℤ
  pub cod_fee_revenue : Dict ℤ
  pub outbound : Dict ℤ
  pub returned : Dict ℤ
  pub gateway : Dict ℤ
  pub cod : Dict ℤ

unfoldable pub allocate_amounts :
    Dict CanonicalOrderItem
    → List LineRevenue
    → List LineReversal
    → OrderLevelAmounts
    → Result Allocations
allocate_amounts items revenue reversals a = do
  let back = returned_buckets reversals revenue
  shipping_revenue ← spread_over items revenue a.shipping_revenue_ex_vat_minor
  cod_fee_revenue ← spread_over items revenue a.cod_fee_revenue_ex_vat_minor
  outbound ← spread_parcels items revenue a.outbound_parcels a.outbound_shipping_cost_minor
  returned ←
      (if any (λ b. ltb_ℤ (pos 0) b.weight) back
        then allocate_minor a.return_shipping_cost_minor back
        else spread_parcels items revenue a.return_parcels a.return_shipping_cost_minor)
  gateway ← spread_over items revenue a.gateway_fee_cost_minor
  cod ← spread_over items revenue a.cod_cost_minor
  ok (record {
    shipping_revenue = shipping_revenue;
    cod_fee_revenue = cod_fee_revenue;
    outbound = outbound;
    returned = returned;
    gateway = gateway;
    cod = cod;
  })

unfoldable pub profit_line :
    Dict CanonicalOrderItem
    → Dict LineCogs
    → Dict LineReversal
    → Allocations
    → LineRevenue
    → Result OrderProfitLine
profit_line items cogs reversals a line =
    let id = line.order_item_id in
    let item = lookup id items in
    let line_cogs = lookup id cogs in
    let back = lookup id reversals in
    let cogs_minor = field_or (λ c. c.cogs_minor) (pos 0) line_cogs in
    let impact = field_or (λ r. r.impact_minor) (pos 0) back in
    add_minor (
      line.net_ex_vat_minor
      ∷ share_of a.shipping_revenue id
      ∷ share_of a.cod_fee_revenue id
      ∷ impact
      ∷ [])
    >>= λ earned.
        add_minor (
          cogs_minor
          ∷ share_of a.outbound id
          ∷ share_of a.returned id
          ∷ share_of a.gateway id
          ∷ share_of a.cod id
          ∷ [])
        >>= λ spent. sub_minor earned spent >>= λ margin. ok (record {
          order_item_id = id;
          platform_product_id = field_or (λ i. i.platform_product_id) [] item;
          platform_variant_id = field_or (λ i. i.platform_variant_id) none item;
          sku = field_or (λ i. i.sku) none item;
          quantity = field_or (λ i. i.quantity) (pos 0) item;
          allocated_order_discount_ex_vat_minor = line.allocated_order_discount_ex_vat_minor;
          net_revenue_ex_vat_minor = line.net_ex_vat_minor;
          allocated_shipping_revenue_ex_vat_minor = share_of a.shipping_revenue id;
          allocated_cod_fee_revenue_ex_vat_minor = share_of a.cod_fee_revenue id;
          unit_cost_minor = field_or (λ c. c.unit_cost_minor) (pos 0) line_cogs;
          cogs_minor = cogs_minor;
          cost_source = field_or (λ c. c.source) CostSource.no_source line_cogs;
          cost_history_id = field_or (λ c. c.cost_history_id) none line_cogs;
          allocated_outbound_shipping_minor = share_of a.outbound id;
          allocated_return_shipping_minor = share_of a.returned id;
          allocated_gateway_fee_minor = share_of a.gateway id;
          allocated_cod_cost_minor = share_of a.cod id;
          reversed_quantity = field_or (λ r. r.reversed_quantity) (pos 0) back;
          reversed_revenue_ex_vat_minor =
              field_or (λ r. r.reversed_revenue_ex_vat_minor) (pos 0) back;
          restocked_cogs_minor = field_or (λ r. r.restocked_cogs_minor) (pos 0) back;
          reversal_impact_minor = impact;
          contribution_margin_minor = margin;
          cost_covered_revenue_ex_vat_minor =
              if field_or (λ c. c.covered) false line_cogs then line.net_ex_vat_minor else pos 0;
        })

unfoldable pub allocate_order_costs_to_lines :
    List CanonicalOrderItem
    → List LineRevenue
    → List LineCogs
    → List LineReversal
    → OrderLevelAmounts
    → Result (List OrderProfitLine)
allocate_order_costs_to_lines items revenue cogs reversals amounts =
    if is_empty revenue
    then ok []
    else (allocate_amounts (item_by_id items) revenue reversals amounts >>= λ a.
        map_result
          (profit_line (item_by_id items) (line_cogs_by_id cogs) (reversal_by_id reversals) a)
          revenue)
