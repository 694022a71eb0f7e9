-- ===== src/Engine/Compute/Calls.antt =====
-- packages/core/src/compute-order-profit.ts: the calls of `compute` to the sub-functions.
use ghalla.Base.{map}
use ghalla.Base.Text.{Text}
use ghalla.Base.Dict.{of_entries}
use ghalla.Base.Result.{Result, ok, ◌>>=◌}
use ghalla.Contracts.Enums.{ShipmentDirection, is_dispatched}
use ghalla.Engine.Input.{OrderProfitInput}
use ghalla.Engine.Diagnostics.{Computed}
use ghalla.Engine.Recognition.{ProfitRecognition, compute_recognition}
use ghalla.Engine.Gateway.{FeeTotals, compute_gateway_fees}
use ghalla.Engine.Cod.{compute_cod_cost}
use ghalla.Engine.Shipping.{ShippingLeg, compute_shipping_cost}
use ghalla.Engine.Revenue.{OrderRevenue, compute_revenue}
use ghalla.Engine.Cogs.{OrderCogs, compute_cogs}
use ghalla.Engine.Reversal.{ReversalImpact, compute_reversal_impact}
use ghalla.Engine.Normalize.{NormalizedInput}
use ghalla.Engine.BusinessDate.{ZoneConversion, business_date_of}

-- What the sub-functions establish about an order.
pub record Terms : Type 0 where
  pub recognition : ProfitRecognition
  pub business_date : Text
  pub revenue : Computed OrderRevenue
  pub cogs : Computed OrderCogs
  pub outbound : Computed ShippingLeg
  pub returned : Computed ShippingLeg
  pub gateway : Computed FeeTotals
  pub cod : Computed FeeTotals
  pub reversal : Computed ReversalImpact

unfoldable pub compute_terms : ZoneConversion → OrderProfitInput → NormalizedInput → Result Terms
compute_terms zone input n = do
  let recognition = compute_recognition n.order n.shipments
  let rules = input.fee_rule_set
  let registered = input.store.vat_registered
  date ← business_date_of zone n.order.placed_at input.store.timezone
  revenue ← compute_revenue n.order n.items recognition
  cogs ← compute_cogs n.items n.costs
  outbound ←
      compute_shipping_cost n.order n.shipments rules.shipping_fallback ShipmentDirection.outbound
  returned ←
      compute_shipping_cost n.order n.shipments rules.shipping_fallback ShipmentDirection.return_leg
  gateway ← compute_gateway_fees n.order rules.gateway registered
  cod ← compute_cod_cost n.order n.shipments rules.cod registered
  reversal ←
      compute_reversal_impact n.reversals revenue.value.lines cogs.value.lines
        (of_entries (map (λ i. (i.id, i.quantity)) n.items))
        (of_entries (map (λ i. (i.id, i.line_total_ex_vat_minor)) n.items)) recognition n.shipments
        (is_dispatched n.order.fulfillment_state)
  ok (record {
    recognition = recognition;
    business_date = date;
    revenue = revenue;
    cogs = cogs;
    outbound = outbound;
    returned = returned;
    gateway = gateway;
    cod = cod;
    reversal = reversal;
  })
