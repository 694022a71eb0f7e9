-- ===== src/Engine/Input.antt =====
-- packages/core/src: config.ts, cost.ts, fee-rules.ts, input.ts, and the types of confidence.ts.
use ghalla.Base.{Bool, true, false, List, Option}
use ghalla.Base.Int.{ℤ}
use ghalla.Base.Text.{Text}
use ghalla.Contracts.Enums.{PaymentInstrument, CardScheme, ShipmentDirection, CostSource}
use ghalla.Contracts.Canonical.{
  CanonicalOrder, CanonicalOrderItem, CanonicalShipment, CanonicalReversal,
}

pub record StoreProfitConfig : Type 0 where
  pub store_id : Text
  pub currency : Text
  pub timezone : Text
  pub vat_registered : Bool

pub record ResolvedCost : Type 0 where
  pub platform_product_id : Text
  pub platform_variant_id : Option Text
  pub sku : Option Text
  pub unit_cost_minor : ℤ
  pub source : CostSource
  pub cost_history_id : Text

pub data FeeSource : Type 0 where
  merchant_entered gateway_statement default_table : FeeSource

pub record FeeFormula : Type 0 where
  pub percent_bps : ℤ
  pub fixed_minor : ℤ
  pub min_fee_minor : Option ℤ
  pub max_fee_minor : Option ℤ
  pub fee_vat_bps : ℤ
  pub rates_include_vat : Bool
  pub source : FeeSource

pub record GatewayFeeRule : Type 0 where
  pub formula : FeeFormula
  pub instrument : Option PaymentInstrument
  pub scheme : Option CardScheme
  pub provider : Option Text

pub record CodFeeRule : Type 0 where
  pub formula : FeeFormula
  pub carrier : Option Text

pub record ShippingFallbackRule : Type 0 where
  pub country_code : Option Text
  pub region : Option Text
  pub carrier : Option Text
  -- `none` is 'any'
  pub direction : Option ShipmentDirection
  pub cost_minor : ℤ

pub record FeeRuleSet : Type 0 where
  pub id : Text
  pub currency : Text
  pub gateway : List GatewayFeeRule
  pub cod : List CodFeeRule
  pub shipping_fallback : List ShippingFallbackRule

pub record OrderProfitInput : Type 0 where
  pub store : StoreProfitConfig
  pub order : CanonicalOrder
  pub items : List CanonicalOrderItem
  pub shipments : List CanonicalShipment
  pub reversals : List CanonicalReversal
  pub costs : List ResolvedCost
  pub fee_rule_set : FeeRuleSet

-- How a term was arrived at
pub data TermBasis : Type 0 where
  actual estimated missing not_applicable : TermBasis

abbrev pub is_missing : TermBasis → Bool
is_missing TermBasis.missing = true
is_missing _ = false

abbrev pub is_estimated : TermBasis → Bool
is_estimated TermBasis.estimated = true
is_estimated _ = false

-- `actual` or `not_applicable`
abbrev pub is_settled : TermBasis → Bool
is_settled TermBasis.actual = true
is_settled TermBasis.not_applicable = true
is_settled _ = false
