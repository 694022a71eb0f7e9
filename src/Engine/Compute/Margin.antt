-- ===== src/Engine/Compute/Margin.antt =====
-- packages/core/src/compute-order-profit.ts: the margin of the order and the margins of its lines.
use ghalla.Base.{◌≡◌, false, List, map, is_empty, subst}
use ghalla.Base.Dict.{of_entries}
use ghalla.Base.Int.{total_by}
use ghalla.Base.Result.{ok, >>=-eq-ok, ok-injective}
use ghalla.Contracts.Enums.{ShipmentDirection, is_dispatched}
use ghalla.Contracts.Canonical.{CanonicalOrderItem}
use ghalla.Engine.Input.{OrderProfitInput}
use ghalla.Engine.Recognition.{compute_recognition}
use ghalla.Engine.Gateway.{compute_gateway_fees}
use ghalla.Engine.Cod.{compute_cod_cost}
use ghalla.Engine.Shipping.{compute_shipping_cost}
use ghalla.Engine.Shipping.Cost.{IsItemized, compute_shipping_cost-IsItemized}
use ghalla.Engine.Revenue.{compute_revenue}
use ghalla.Engine.Revenue.Net.{IsSplit, compute_revenue-IsSplit, item_id}
use ghalla.Engine.Cogs.{compute_cogs}
use ghalla.Engine.Cogs.Total.{compute_cogs-sum, compute_cogs-ids}
use ghalla.Engine.Reversal.{compute_reversal_impact}
use ghalla.Engine.Reversal.Impact.{Reconciles, compute_reversal_impact-Reconciles}
use ghalla.Engine.Normalize.{NormalizedInput}
use ghalla.Engine.BusinessDate.{ZoneConversion, business_date_of}
use ghalla.Engine.Compute.Calls.{Terms, compute_terms}

-- What the sub-functions guarantee of the terms of an order with the given items.
abbrev pub AreCoherent : List CanonicalOrderItem → Terms → Type 0
AreCoherent items t =
    IsSplit items t.revenue.value
    × (t.cogs.value.cogs_minor ≡ total_by (λ l. l.cogs_minor) t.cogs.value.lines)
    × (map (λ l. l.order_item_id) t.cogs.value.lines ≡ map item_id items)
    × IsItemized t.outbound.value
    × IsItemized t.returned.value
    × Reconciles t.revenue.value.lines t.reversal.value

pub compute_terms-AreCoherent :
    (zone : ZoneConversion) (input : OrderProfitInput) (n : NormalizedInput) {t : Terms}
    → is_empty n.items ≡ false
    → compute_terms zone input n ≡ ok t
    → AreCoherent n.items t
unfolding compute_terms
compute_terms-AreCoherent zone input n {t} some_items h =
    let r = compute_recognition n.order n.shipments in
    let rules = input.fee_rule_set in
    let registered = input.store.vat_registered in
    let shipping = compute_shipping_cost n.order n.shipments rules.shipping_fallback in
    let (date, p₀, h₀) =
      >>=-eq-ok (business_date_of zone n.order.placed_at input.store.timezone) _ h in
    let (revenue, p₁, h₁) = >>=-eq-ok (compute_revenue n.order n.items r) _ h₀ in
    let (cogs, p₂, h₂) = >>=-eq-ok (compute_cogs n.items n.costs) _ h₁ in
    let (outbound, p₃, h₃) = >>=-eq-ok (shipping ShipmentDirection.outbound) _ h₂ in
    let (returned, p₄, h₄) = >>=-eq-ok (shipping ShipmentDirection.return_leg) _ h₃ in
    let (gateway, p₅, h₅) =
      >>=-eq-ok (compute_gateway_fees n.order rules.gateway registered) _ h₄ in
    let (cod, p₆, h₆) =
      >>=-eq-ok (compute_cod_cost n.order n.shipments rules.cod registered) _ h₅ in
    let quantities = of_entries (map (λ i. (i.id, i.quantity)) n.items) in
    let weights = of_entries (map (λ i. (i.id, i.line_total_ex_vat_minor)) n.items) in
    let dispatched = is_dispatched n.order.fulfillment_state in
    let (reversal, p₇, h₇) =
      >>=-eq-ok
        (compute_reversal_impact n.reversals revenue.value.lines cogs.value.lines quantities weights
          r n.shipments dispatched)
        _ h₆ in
    subst (AreCoherent n.items) (ok-injective {b = t} h₇) (
      compute_revenue-IsSplit n.order n.items r some_items p₁,
      compute_cogs-sum n.items n.costs p₂,
      compute_cogs-ids n.items n.costs p₂,
      compute_shipping_cost-IsItemized n.order n.shipments rules.shipping_fallback _ p₃,
      compute_shipping_cost-IsItemized n.order n.shipments rules.shipping_fallback _ p₄,
      compute_reversal_impact-Reconciles n.reversals revenue.value.lines cogs.value.lines quantities
          weights r n.shipments dispatched p₇,
    )
