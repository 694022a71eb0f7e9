-- ===== src/Engine/Diagnostics.antt =====
-- packages/core/src/diagnostics.ts and engine/diagnostics-builder.ts.
pub mod Sort
use ghalla.Base.{ℕ, Bool, true, false, List, ◌==◌, any, leb}
use ghalla.Base.Text.{Text}

pub data DiagnosticCode : Type 0 where
  cost_missing cost_estimated carrier_cost_missing shipping_fallback_used shipping_fallback_missing
        no_outbound_shipment fee_rule_missing fee_rule_default_used unknown_payment_instrument
        card_scheme_unknown payment_legs_under_total cod_fee_rule_missing restock_unknown
        reversal_lines_allocated reversal_line_unmatched reversal_total_mismatch shipment_lost
        totals_do_not_reconcile order_has_no_items recognition_cost_only order_excluded
        currency_mismatch item_order_id_mismatch reversal_order_id_mismatch non_integer_minor_units
        negative_quantity non_integer_quantity duplicate_item_id duplicate_rule_key fee_rule_invalid
        malformed_input malformed_timestamp invalid_timezone internal_invariant_violated
        duplicate_cost_key :
      DiagnosticCode

pub data Severity : Type 0 where
  warning fatal : Severity

pub data Subject : Type 0 where
  on_order : Subject
  on_line : Text → Subject
  on_shipment : Text → Subject
  on_payment : ℕ → Subject
  on_reversal : Text → Subject

pub record Diagnostic : Type 0 where
  pub code : DiagnosticCode
  pub severity : Severity
  pub subject : Subject

-- The place of a code in `DIAGNOSTIC_CODES`
abbrev pub code_index : DiagnosticCode → ℕ
code_index DiagnosticCode.cost_missing = 0
code_index DiagnosticCode.cost_estimated = 1
code_index DiagnosticCode.carrier_cost_missing = 2
code_index DiagnosticCode.shipping_fallback_used = 3
code_index DiagnosticCode.shipping_fallback_missing = 4
code_index DiagnosticCode.no_outbound_shipment = 5
code_index DiagnosticCode.fee_rule_missing = 6
code_index DiagnosticCode.fee_rule_default_used = 7
code_index DiagnosticCode.unknown_payment_instrument = 8
code_index DiagnosticCode.card_scheme_unknown = 9
code_index DiagnosticCode.payment_legs_under_total = 10
code_index DiagnosticCode.cod_fee_rule_missing = 11
code_index DiagnosticCode.restock_unknown = 12
code_index DiagnosticCode.reversal_lines_allocated = 13
code_index DiagnosticCode.reversal_line_unmatched = 14
code_index DiagnosticCode.reversal_total_mismatch = 15
code_index DiagnosticCode.shipment_lost = 16
code_index DiagnosticCode.totals_do_not_reconcile = 17
code_index DiagnosticCode.order_has_no_items = 18
code_index DiagnosticCode.recognition_cost_only = 19
code_index DiagnosticCode.order_excluded = 20
code_index DiagnosticCode.currency_mismatch = 21
code_index DiagnosticCode.item_order_id_mismatch = 22
code_index DiagnosticCode.reversal_order_id_mismatch = 23
code_index DiagnosticCode.non_integer_minor_units = 24
code_index DiagnosticCode.negative_quantity = 25
code_index DiagnosticCode.non_integer_quantity = 26
code_index DiagnosticCode.duplicate_item_id = 27
code_index DiagnosticCode.duplicate_rule_key = 28
code_index DiagnosticCode.fee_rule_invalid = 29
code_index DiagnosticCode.malformed_input = 30
code_index DiagnosticCode.malformed_timestamp = 31
code_index DiagnosticCode.invalid_timezone = 32
code_index DiagnosticCode.internal_invariant_violated = 33
code_index DiagnosticCode.duplicate_cost_key = 34

abbrev pub eq_code : DiagnosticCode → DiagnosticCode → Bool
eq_code a b = code_index a == code_index b

-- The list `FATAL` holds the codes from `CURRENCY_MISMATCH` on.
abbrev pub severity_of : DiagnosticCode → Severity
severity_of c = elim (leb 21 (code_index c)) [ true ↦ fatal | false ↦ warning ]

abbrev pub diagnostic : DiagnosticCode → Subject → Diagnostic
diagnostic c s = record { code = c; severity = severity_of c; subject = s }

abbrev pub order_diagnostic : DiagnosticCode → Diagnostic
order_diagnostic c = diagnostic c on_order

-- `diagnostics.some((d) => d.code === code)`
abbrev pub has_code : DiagnosticCode → List Diagnostic → Bool
has_code c = any (λ d. eq_code d.code c)

-- A value with the diagnostics that its computation produced
pub record Computed (A : Type 0) : Type 0 where
  pub value : A
  pub diagnostics : List Diagnostic
