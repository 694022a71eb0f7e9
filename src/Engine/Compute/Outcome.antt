-- ===== src/Engine/Compute/Outcome.antt =====
-- packages/core/src/result.ts: the totals of an order and the two results.
use ghalla.Base.{ℕ, List, Option}
use ghalla.Base.Int.{ℤ}
use ghalla.Base.Text.{Text}
use ghalla.Engine.Diagnostics.{Diagnostic}
use ghalla.Engine.Recognition.{ProfitRecognition}
use ghalla.Engine.Lines.{OrderProfitLine}
use ghalla.Engine.Confidence.{ProfitConfidence}

pub record OrderProfitTotals : Type 0 where
  pub items_revenue_ex_vat_minor : ℤ
  pub shipping_revenue_ex_vat_minor : ℤ
  pub cod_fee_revenue_ex_vat_minor : ℤ
  pub order_discount_ex_vat_minor : ℤ
  pub revenue_ex_vat_minor : ℤ
  pub vat_collected_minor : ℤ
  pub cogs_minor : ℤ
  pub outbound_shipping_cost_minor : ℤ
  pub return_shipping_cost_minor : ℤ
  pub gateway_fee_ex_vat_minor : ℤ
  pub gateway_fee_vat_minor : ℤ
  pub gateway_fee_cost_minor : ℤ
  pub cod_cost_ex_vat_minor : ℤ
  pub cod_cost_vat_minor : ℤ
  pub cod_cost_minor : ℤ
  pub reversed_revenue_ex_vat_minor : ℤ
  pub restocked_cogs_minor : ℤ
  pub reversal_impact_minor : ℤ
  pub contribution_margin_minor : ℤ
  pub margin_bps : Option ℤ
  pub cost_covered_revenue_ex_vat_minor : ℤ

pub record OrderProfitComputed : Type 0 where
  pub order_id : Text
  pub store_id : Text
  pub currency : Text
  pub business_date : Text
  pub calc_version : ℕ
  pub fee_rule_set_id : Text
  pub recognition : ProfitRecognition
  pub totals : OrderProfitTotals
  pub lines : List OrderProfitLine
  pub confidence : ProfitConfidence
  pub diagnostics : List Diagnostic

pub record OrderProfitRejected : Type 0 where
  pub order_id : Text
  pub store_id : Text
  pub calc_version : ℕ
  pub diagnostics : List Diagnostic

pub data OrderProfitResult : Type 0 where
  computed : OrderProfitComputed → OrderProfitResult
  rejected : OrderProfitRejected → OrderProfitResult

abbrev pub calc_version : ℕ
calc_version = 3
