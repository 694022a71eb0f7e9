-- ===== src/Engine/Compute/Assemble.antt =====
-- packages/core/src/compute-order-profit.ts: the lines, the margin, the totals and the confidence that
-- `compute` makes of the terms.
use ghalla.Base.{◌||◌, List, [], ◌∷◌, ◌++◌, map, Option, none, some, if◌then◌else◌, is_empty}
use ghalla.Base.Int.{ℤ, pos, ◌*ℤ◌, leb_ℤ}
use ghalla.Base.Result.{Result, ok, ◌>>=◌}
use ghalla.Money.{add_minor, sub_minor, to_bps, div_round_half_away}
use ghalla.Contracts.Canonical.{CanonicalOrderItem, CanonicalReversal}
use ghalla.Engine.Input.{TermBasis}
use ghalla.Engine.Diagnostics.{Diagnostic}
use ghalla.Engine.Recognition.{is_excluded}
use ghalla.Engine.Lines.{OrderProfitLine, allocate_order_costs_to_lines}
use ghalla.Engine.Confidence.{TermBases, ReversalConfidence}
use ghalla.Engine.Compute.Outcome.{OrderProfitTotals}
use ghalla.Engine.Compute.Calls.{Terms}

-- `marginBpsOf`
unfoldable pub margin_bps_of : ℤ → ℤ → Result (Option ℤ)
margin_bps_of margin revenue =
    if leb_ℤ revenue (pos 0)
    then ok none
    else (div_round_half_away (margin *ℤ pos 10_000) revenue >>= λ q.
        to_bps q >>= λ bps. ok (some bps))

-- `excluded ? ZERO : v`
abbrev pub counted : Terms → ℤ → ℤ
counted t v = if is_excluded t.recognition then pos 0 else v

unfoldable pub lines_of_order : Terms → List CanonicalOrderItem → Result (List OrderProfitLine)
lines_of_order t items =
    if is_excluded t.recognition
    then ok []
    else (sub_minor t.revenue.value.shipping_revenue_ex_vat_minor
          t.revenue.value.shipping_discount_ex_vat_minor
        >>= λ shipping_revenue.
            sub_minor t.revenue.value.cod_fee_revenue_ex_vat_minor
              t.revenue.value.cod_fee_discount_ex_vat_minor
            >>= λ cod_fee_revenue.
                allocate_order_costs_to_lines items t.revenue.value.lines t.cogs.value.lines
                  t.reversal.value.lines
                  (record {
                    shipping_revenue_ex_vat_minor = shipping_revenue;
                    cod_fee_revenue_ex_vat_minor = cod_fee_revenue;
                    outbound_parcels = t.outbound.value.parcels;
                    return_parcels = t.returned.value.parcels;
                    outbound_shipping_cost_minor = counted t t.outbound.value.cost_minor;
                    return_shipping_cost_minor = counted t t.returned.value.cost_minor;
                    gateway_fee_cost_minor = counted t t.gateway.value.cost_minor;
                    cod_cost_minor = counted t t.cod.value.cost_minor;
                  }))

-- `contributionMargin`
unfoldable pub contribution_margin : Terms → Result ℤ
contribution_margin t = do
  earned ←
      add_minor
        (t.revenue.value.revenue_ex_vat_minor ∷ counted t t.reversal.value.impact_minor ∷ [])
  spent ← add_minor (
      counted t t.cogs.value.cogs_minor
      ∷ counted t t.outbound.value.cost_minor
      ∷ counted t t.returned.value.cost_minor
      ∷ counted t t.gateway.value.cost_minor
      ∷ counted t t.cod.value.cost_minor
      ∷ [])
  sub_minor earned spent

unfoldable pub totals_of_order : Terms → List OrderProfitLine → Result OrderProfitTotals
totals_of_order t lines = do
  let r = t.revenue.value
  margin ← contribution_margin t
  bps ← margin_bps_of margin r.revenue_ex_vat_minor
  covered ← add_minor (map (λ l. l.cost_covered_revenue_ex_vat_minor) lines)
  ok (record {
    items_revenue_ex_vat_minor = r.items_revenue_ex_vat_minor;
    shipping_revenue_ex_vat_minor = r.shipping_revenue_ex_vat_minor;
    cod_fee_revenue_ex_vat_minor = r.cod_fee_revenue_ex_vat_minor;
    order_discount_ex_vat_minor = r.order_discount_ex_vat_minor;
    revenue_ex_vat_minor = r.revenue_ex_vat_minor;
    vat_collected_minor = r.vat_collected_minor;
    cogs_minor = counted t t.cogs.value.cogs_minor;
    outbound_shipping_cost_minor = counted t t.outbound.value.cost_minor;
    return_shipping_cost_minor = counted t t.returned.value.cost_minor;
    gateway_fee_ex_vat_minor = counted t t.gateway.value.ex_vat_minor;
    gateway_fee_vat_minor = counted t t.gateway.value.vat_minor;
    gateway_fee_cost_minor = counted t t.gateway.value.cost_minor;
    cod_cost_ex_vat_minor = counted t t.cod.value.ex_vat_minor;
    cod_cost_vat_minor = counted t t.cod.value.vat_minor;
    cod_cost_minor = counted t t.cod.value.cost_minor;
    reversed_revenue_ex_vat_minor = counted t t.reversal.value.reversed_revenue_ex_vat_minor;
    restocked_cogs_minor = counted t t.reversal.value.restocked_cogs_minor;
    reversal_impact_minor = counted t t.reversal.value.impact_minor;
    contribution_margin_minor = margin;
    margin_bps = bps;
    cost_covered_revenue_ex_vat_minor = covered;
  })

abbrev pub basis_if_counted : Terms → TermBasis → TermBasis
basis_if_counted t b = if is_excluded t.recognition then TermBasis.not_applicable else b

unfoldable pub bases_of_order : Terms → List CanonicalOrderItem → List CanonicalReversal → TermBases
bases_of_order t items reversals = record {
  reconciles = t.revenue.value.reconciles;
  cogs = basis_if_counted t (
      if is_empty items
      then TermBasis.not_applicable
      else if t.cogs.value.any_missing
      then TermBasis.missing
      else if t.cogs.value.any_estimated || t.reversal.value.inferred_restock
      then TermBasis.estimated
      else TermBasis.actual);
  outbound_shipping = basis_if_counted t t.outbound.value.basis;
  return_shipping = basis_if_counted t t.returned.value.basis;
  gateway_fee = basis_if_counted t t.gateway.value.basis;
  cod_cost = basis_if_counted t t.cod.value.basis;
  reversal =
      if is_empty reversals
      then ReversalConfidence.not_applicable
      else if t.reversal.value.allocated
      then ReversalConfidence.allocated
      else ReversalConfidence.reported;
}

abbrev pub diagnostics_of_order : Terms → List Diagnostic
diagnostics_of_order t =
    t.revenue.diagnostics
    ++ (t.cogs.diagnostics
        ++ (t.outbound.diagnostics
            ++ (t.returned.diagnostics
                ++ (t.gateway.diagnostics ++ (t.cod.diagnostics ++ t.reversal.diagnostics)))))
