-- ===== src/Engine/Expected.antt =====
-- The profit of the order of Samples: data for the tests.
use ghalla.Base.{[], ◌∷◌, none, some, false, true}
use ghalla.Engine.Diagnostics.{Computed}
use ghalla.Engine.Revenue.{OrderRevenue}
use ghalla.Engine.Cogs.{OrderCogs, LineCogs}
use ghalla.Engine.Shipping.{ShippingLeg}
use ghalla.Engine.Reversal.{ReversalImpact}
use ghalla.Engine.Fee.{AppliedFee}
use ghalla.Engine.Gateway.{FeeTotals}
use ghalla.Engine.Compute.Calls.{Terms}
use ghalla.Base.Int.{ℤ, pos, negsuc}
use ghalla.Base.Text.{Text, lit}
use ghalla.Contracts.Enums.{CostSource}
use ghalla.Engine.Input.{TermBasis}
use ghalla.Engine.Recognition.{recognized}
use ghalla.Engine.Confidence.{Level, RevenueConfidence, ReversalConfidence}
use ghalla.Engine.Compute.Outcome.{OrderProfitComputed}

abbrev pub sample_result : OrderProfitComputed
sample_result = record {
  order_id = lit "o";
  store_id = lit "st";
  currency = lit "SAR";
  business_date = lit "2026-03-01";
  calc_version = 3;
  fee_rule_set_id = lit "f";
  recognition = recognized;
  totals = record {
    items_revenue_ex_vat_minor = pos 1500;
    shipping_revenue_ex_vat_minor = pos 150;
    cod_fee_revenue_ex_vat_minor = pos 0;
    order_discount_ex_vat_minor = pos 120;
    revenue_ex_vat_minor = pos 1530;
    vat_collected_minor = pos 225;
    cogs_minor = pos 600;
    outbound_shipping_cost_minor = pos 300;
    return_shipping_cost_minor = pos 0;
    gateway_fee_ex_vat_minor = pos 122;
    gateway_fee_vat_minor = pos 18;
    gateway_fee_cost_minor = pos 122;
    cod_cost_ex_vat_minor = pos 0;
    cod_cost_vat_minor = pos 0;
    cod_cost_minor = pos 0;
    reversed_revenue_ex_vat_minor = pos 467;
    restocked_cogs_minor = pos 200;
    reversal_impact_minor = negsuc 266;
    contribution_margin_minor = pos 241;
    margin_bps = some (pos 1575);
    cost_covered_revenue_ex_vat_minor = pos 1400;
  };
  lines =
      record {
        order_item_id = lit "a";
        platform_product_id = lit "a";
        platform_variant_id = none;
        sku = none;
        quantity = pos 1;
        allocated_order_discount_ex_vat_minor = pos 67;
        net_revenue_ex_vat_minor = pos 933;
        allocated_shipping_revenue_ex_vat_minor = pos 87;
        allocated_cod_fee_revenue_ex_vat_minor = pos 0;
        unit_cost_minor = pos 400;
        cogs_minor = pos 400;
        cost_source = CostSource.merchant_manual;
        cost_history_id = some (lit "h");
        allocated_outbound_shipping_minor = pos 300;
        allocated_return_shipping_minor = pos 0;
        allocated_gateway_fee_minor = pos 81;
        allocated_cod_cost_minor = pos 0;
        reversed_quantity = pos 0;
        reversed_revenue_ex_vat_minor = pos 0;
        restocked_cogs_minor = pos 0;
        reversal_impact_minor = pos 0;
        contribution_margin_minor = pos 239;
        cost_covered_revenue_ex_vat_minor = pos 933;
      }
      ∷ record {
        order_item_id = lit "b";
        platform_product_id = lit "b";
        platform_variant_id = none;
        sku = none;
        quantity = pos 1;
        allocated_order_discount_ex_vat_minor = pos 33;
        net_revenue_ex_vat_minor = pos 467;
        allocated_shipping_revenue_ex_vat_minor = pos 43;
        allocated_cod_fee_revenue_ex_vat_minor = pos 0;
        unit_cost_minor = pos 200;
        cogs_minor = pos 200;
        cost_source = CostSource.merchant_manual;
        cost_history_id = some (lit "h");
        allocated_outbound_shipping_minor = pos 0;
        allocated_return_shipping_minor = pos 0;
        allocated_gateway_fee_minor = pos 41;
        allocated_cod_cost_minor = pos 0;
        reversed_quantity = pos 1;
        reversed_revenue_ex_vat_minor = pos 467;
        restocked_cogs_minor = pos 200;
        reversal_impact_minor = negsuc 266;
        contribution_margin_minor = pos 2;
        cost_covered_revenue_ex_vat_minor = pos 467;
      }
      ∷ [];
  confidence = record {
    revenue = RevenueConfidence.reported;
    cogs = TermBasis.actual;
    outbound_shipping = TermBasis.actual;
    return_shipping = TermBasis.not_applicable;
    gateway_fee = TermBasis.estimated;
    cod_cost = TermBasis.not_applicable;
    reversal = ReversalConfidence.reported;
    level = Level.estimated;
  };
  diagnostics = [];
}

abbrev pub sample_revenue : Computed OrderRevenue
sample_revenue = record {
  value = record {
    lines =
        record {
          order_item_id = lit "a";
          gross_ex_vat_minor = pos 1000;
          allocated_order_discount_ex_vat_minor = pos 67;
          net_ex_vat_minor = pos 933;
        }
        ∷ record {
          order_item_id = lit "b";
          gross_ex_vat_minor = pos 500;
          allocated_order_discount_ex_vat_minor = pos 33;
          net_ex_vat_minor = pos 467;
        }
        ∷ [];
    items_revenue_ex_vat_minor = pos 1500;
    shipping_revenue_ex_vat_minor = pos 150;
    cod_fee_revenue_ex_vat_minor = pos 0;
    order_discount_ex_vat_minor = pos 120;
    revenue_ex_vat_minor = pos 1530;
    vat_collected_minor = pos 225;
    shipping_discount_ex_vat_minor = pos 20;
    cod_fee_discount_ex_vat_minor = pos 0;
    reconciles = true;
  };
  diagnostics = [];
}

abbrev sample_line_cost : Text → ℤ → LineCogs
sample_line_cost id cost = record {
  order_item_id = id;
  unit_cost_minor = cost;
  cogs_minor = cost;
  source = CostSource.merchant_manual;
  cost_history_id = some (lit "h");
  covered = true;
}

abbrev pub sample_cogs : Computed OrderCogs
sample_cogs = record {
  value = record {
    lines = sample_line_cost (lit "a") (pos 400) ∷ sample_line_cost (lit "b") (pos 200) ∷ [];
    cogs_minor = pos 600;
    any_missing = false;
    any_estimated = false;
  };
  diagnostics = [];
}

abbrev pub sample_outbound : Computed ShippingLeg
sample_outbound = record {
  value = record {
    cost_minor = pos 300;
    basis = TermBasis.actual;
    parcels = record { shipment_id = lit "s"; cost_minor = pos 300; line_ids = lit "a" ∷ [] } ∷ [];
  };
  diagnostics = [];
}

abbrev pub no_return : Computed ShippingLeg
no_return = record {
  value = record { cost_minor = pos 0; basis = TermBasis.not_applicable; parcels = [] };
  diagnostics = [];
}

abbrev pub sample_impact : Computed ReversalImpact
sample_impact = record {
  value = record {
    lines =
        record {
          order_item_id = lit "a";
          reversed_quantity = pos 0;
          reversed_revenue_ex_vat_minor = pos 0;
          restocked_cogs_minor = pos 0;
          impact_minor = pos 0;
        }
        ∷ record {
          order_item_id = lit "b";
          reversed_quantity = pos 1;
          reversed_revenue_ex_vat_minor = pos 467;
          restocked_cogs_minor = pos 200;
          impact_minor = negsuc 266;
        }
        ∷ [];
    reversed_revenue_ex_vat_minor = pos 467;
    restocked_cogs_minor = pos 200;
    impact_minor = negsuc 266;
    allocated = false;
    inferred_restock = false;
  };
  diagnostics = [];
}

abbrev pub sample_fee : AppliedFee
sample_fee = record { ex_vat_minor = pos 122; vat_minor = pos 18; cost_minor = pos 122 }

abbrev sample_fees : ℤ → ℤ → ℤ → TermBasis → Computed FeeTotals
sample_fees x v c b = record {
  value = record { ex_vat_minor = x; vat_minor = v; cost_minor = c; basis = b };
  diagnostics = [];
}

abbrev pub sample_terms : Terms
sample_terms = record {
  recognition = recognized;
  business_date = lit "2026-03-01";
  revenue = sample_revenue;
  cogs = sample_cogs;
  outbound = sample_outbound;
  returned = no_return;
  gateway = sample_fees (pos 122) (pos 18) (pos 122) TermBasis.estimated;
  cod = sample_fees (pos 0) (pos 0) (pos 0) TermBasis.not_applicable;
  reversal = sample_impact;
}
