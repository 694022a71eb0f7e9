-- ===== src/Contracts/Canonical.antt =====
-- The entities of packages/contracts/src (order.ts, order-item.ts, payment.ts, shipment.ts,
-- reversal.ts). Labels that no computation reads (raw labels, customer and attribution data,
-- reversal reasons, timestamps of the platform) are left out.
use ghalla.Base.{Bool, List, Option}
use ghalla.Base.Int.{ℤ}
use ghalla.Base.Text.{Text}
use ghalla.Contracts.Enums.{
  OrderLifecycle, PaymentState, FulfillmentState, FulfillmentMethod, PaymentInstrument, CardScheme,
  PaymentLegState, ShipmentDirection, ShipmentStatus, RestockOutcome,
}

pub record OrderDestination : Type 0 where
  pub country_code : Text
  pub region : Option Text

pub data DiscountTarget : Type 0 where
  items shipping cod_fee : DiscountTarget

pub record OrderDiscount : Type 0 where
  pub target : DiscountTarget
  pub reflected_in_component : Bool
  pub amount_ex_vat_minor : ℤ

pub record PaymentBreakdown : Type 0 where
  pub instrument : PaymentInstrument
  pub scheme : Option CardScheme
  pub provider : Option Text
  pub state : PaymentLegState
  pub amount_gross_minor : ℤ

pub record CanonicalOrder : Type 0 where
  pub id : Text
  pub placed_at : Text
  pub lifecycle : OrderLifecycle
  pub payment_state : PaymentState
  pub fulfillment_state : FulfillmentState
  pub is_test : Bool
  pub fulfillment_method : FulfillmentMethod
  pub destination : Option OrderDestination
  pub currency : Text
  pub subtotal_ex_vat_minor : ℤ
  pub vat_amount_minor : ℤ
  pub shipping_charged_ex_vat_minor : ℤ
  pub cod_fee_charged_ex_vat_minor : ℤ
  pub total_inc_vat_minor : ℤ
  pub discounts : List OrderDiscount
  pub payments : List PaymentBreakdown

pub record CanonicalOrderItem : Type 0 where
  pub id : Text
  pub order_id : Text
  pub platform_line_id : Text
  pub platform_product_id : Text
  pub platform_variant_id : Option Text
  pub sku : Option Text
  pub quantity : ℤ
  pub unit_price_ex_vat_minor : ℤ
  pub gross_line_ex_vat_minor : ℤ
  pub line_discount_ex_vat_minor : ℤ
  pub line_total_ex_vat_minor : ℤ

pub record CanonicalShipment : Type 0 where
  pub id : Text
  pub direction : ShipmentDirection
  pub status : ShipmentStatus
  pub carrier : Text
  pub carrier_cost_minor : Option ℤ
  -- the order items of `lines`
  pub line_ids : List Text

pub record CanonicalReversalLine : Type 0 where
  pub order_item_id : Text
  pub quantity : ℤ
  pub amount_ex_vat_minor : ℤ
  pub restock_outcome : RestockOutcome

pub record CanonicalReversal : Type 0 where
  pub id : Text
  pub order_id : Text
  pub amount_ex_vat_minor : ℤ
  pub shipping_refund_ex_vat_minor : ℤ
  pub cod_fee_refund_ex_vat_minor : ℤ
  pub adjustment_ex_vat_minor : ℤ
  pub lines : Option (List CanonicalReversalLine)
  pub restock_outcome : RestockOutcome
