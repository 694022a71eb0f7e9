-- ===== src/Engine/Samples.antt =====
-- An order of two lines, with a discount, a parcel, a card payment and a return: data for the tests.
use ghalla.Base.{true, false, List, [], ◌∷◌, none, some}
use ghalla.Base.Int.{ℤ, pos}
use ghalla.Base.Text.{Text, lit}
use ghalla.Contracts.Enums.{
  OrderLifecycle, PaymentState, FulfillmentState, FulfillmentMethod, PaymentInstrument, CardScheme,
  PaymentLegState, ShipmentDirection, ShipmentStatus, RestockOutcome, CostSource,
}
use ghalla.Contracts.Canonical.{
  CanonicalOrder, CanonicalOrderItem, DiscountTarget, CanonicalShipment, CanonicalReversal,
}
use ghalla.Engine.Input.{OrderProfitInput, FeeRuleSet, FeeFormula, FeeSource, ResolvedCost}
use ghalla.Engine.BusinessDate.{ZoneConversion}

-- Every instant falls on one day.
abbrev pub one_day : ZoneConversion
one_day timezone millis = some (record { year = lit "2026"; month = lit "03"; day = lit "01" })

abbrev pub card_fee : FeeFormula
card_fee = record {
  percent_bps = pos 250;
  fixed_minor = pos 100;
  min_fee_minor = some (pos 50);
  max_fee_minor = some (pos 140);
  fee_vat_bps = pos 1500;
  rates_include_vat = true;
  source = FeeSource.merchant_entered;
}

abbrev pub sample_order : CanonicalOrder
sample_order = record {
  id = lit "o";
  placed_at = lit "2026-03-01T10:00:00.000Z";
  lifecycle = OrderLifecycle.completed;
  payment_state = PaymentState.paid;
  fulfillment_state = FulfillmentState.delivered;
  is_test = false;
  fulfillment_method = FulfillmentMethod.carrier;
  destination = none;
  currency = lit "SAR";
  subtotal_ex_vat_minor = pos 1500;
  vat_amount_minor = pos 225;
  shipping_charged_ex_vat_minor = pos 150;
  cod_fee_charged_ex_vat_minor = pos 0;
  total_inc_vat_minor = pos 1755;
  discounts =
      record {
        target = DiscountTarget.items;
        reflected_in_component = false;
        amount_ex_vat_minor = pos 100;
      }
      ∷ record {
        target = DiscountTarget.shipping;
        reflected_in_component = false;
        amount_ex_vat_minor = pos 20;
      }
      ∷ [];
  payments =
      record {
        instrument = PaymentInstrument.card;
        scheme = some CardScheme.mada;
        provider = none;
        state = PaymentLegState.captured;
        amount_gross_minor = pos 1755;
      }
      ∷ [];
}

abbrev pub sample_item : Text → ℤ → CanonicalOrderItem
sample_item id total = record {
  id = id;
  order_id = lit "o";
  platform_line_id = id;
  platform_product_id = id;
  platform_variant_id = none;
  sku = none;
  quantity = pos 1;
  unit_price_ex_vat_minor = total;
  gross_line_ex_vat_minor = total;
  line_discount_ex_vat_minor = pos 0;
  line_total_ex_vat_minor = total;
}

abbrev pub sample_items : List CanonicalOrderItem
sample_items = sample_item (lit "a") (pos 1000) ∷ sample_item (lit "b") (pos 500) ∷ []

abbrev pub sample_cost : Text → ℤ → ResolvedCost
sample_cost product cost = record {
  platform_product_id = product;
  platform_variant_id = none;
  sku = none;
  unit_cost_minor = cost;
  source = CostSource.merchant_manual;
  cost_history_id = lit "h";
}

abbrev pub sample_shipments : List CanonicalShipment
sample_shipments =
    record {
      id = lit "s";
      direction = ShipmentDirection.outbound;
      status = ShipmentStatus.delivered;
      carrier = lit "smsa";
      carrier_cost_minor = some (pos 300);
      line_ids = lit "a" ∷ [];
    }
    ∷ []

abbrev pub sample_reversals : List CanonicalReversal
sample_reversals =
    record {
      id = lit "r";
      order_id = lit "o";
      amount_ex_vat_minor = pos 467;
      shipping_refund_ex_vat_minor = pos 0;
      cod_fee_refund_ex_vat_minor = pos 0;
      adjustment_ex_vat_minor = pos 0;
      lines = some (
          record {
            order_item_id = lit "b";
            quantity = pos 1;
            amount_ex_vat_minor = pos 467;
            restock_outcome = RestockOutcome.restocked_sellable;
          }
          ∷ []);
      restock_outcome = RestockOutcome.restocked_sellable;
    }
    ∷ []

abbrev pub sample_costs : List ResolvedCost
sample_costs = sample_cost (lit "a") (pos 400) ∷ sample_cost (lit "b") (pos 200) ∷ []

abbrev pub sample_rules : FeeRuleSet
sample_rules = record {
  id = lit "f";
  currency = lit "SAR";
  gateway =
      record {
        formula = card_fee;
        instrument = some PaymentInstrument.card;
        scheme = none;
        provider = none;
      }
      ∷ [];
  cod = [];
  shipping_fallback = [];
}

abbrev pub sample : OrderProfitInput
sample = record {
  store = record {
    store_id = lit "st";
    currency = lit "SAR";
    timezone = lit "Asia/Riyadh";
    vat_registered = true;
  };
  order = sample_order;
  items = sample_items;
  shipments = sample_shipments;
  reversals = sample_reversals;
  costs = sample_costs;
  fee_rule_set = sample_rules;
}
