-- ===== src/Engine/Diagnostics/Sort.antt =====
-- `sortDiagnostics` of diagnostics-builder.ts: by kind of subject, then subject, then code.
use ghalla.Base.{
  ℕ, zero, suc, ◌+◌, ◌-◌, ◌/◌, ◌%◌, Bool, not, List, [], ◌∷◌, ◌++◌, ◌==◌, if◌then◌else◌, length,
}
use ghalla.Base.Text.{Text, lit, eq_text, lt_text}
use ghalla.Engine.Diagnostics.{
  Diagnostic, DiagnosticCode, Subject, on_order, on_line, on_shipment, on_payment, on_reversal,
}

abbrev code_name : DiagnosticCode → Text
code_name DiagnosticCode.cost_missing = lit "COST_MISSING"
code_name DiagnosticCode.cost_estimated = lit "COST_ESTIMATED"
code_name DiagnosticCode.carrier_cost_missing = lit "CARRIER_COST_MISSING"
code_name DiagnosticCode.shipping_fallback_used = lit "SHIPPING_FALLBACK_USED"
code_name DiagnosticCode.shipping_fallback_missing = lit "SHIPPING_FALLBACK_MISSING"
code_name DiagnosticCode.no_outbound_shipment = lit "NO_OUTBOUND_SHIPMENT"
code_name DiagnosticCode.fee_rule_missing = lit "FEE_RULE_MISSING"
code_name DiagnosticCode.fee_rule_default_used = lit "FEE_RULE_DEFAULT_USED"
code_name DiagnosticCode.unknown_payment_instrument = lit "UNKNOWN_PAYMENT_INSTRUMENT"
code_name DiagnosticCode.card_scheme_unknown = lit "CARD_SCHEME_UNKNOWN"
code_name DiagnosticCode.payment_legs_under_total = lit "PAYMENT_LEGS_UNDER_TOTAL"
code_name DiagnosticCode.cod_fee_rule_missing = lit "COD_FEE_RULE_MISSING"
code_name DiagnosticCode.restock_unknown = lit "RESTOCK_UNKNOWN"
code_name DiagnosticCode.reversal_lines_allocated = lit "REVERSAL_LINES_ALLOCATED"
code_name DiagnosticCode.reversal_line_unmatched = lit "REVERSAL_LINE_UNMATCHED"
code_name DiagnosticCode.reversal_total_mismatch = lit "REVERSAL_TOTAL_MISMATCH"
code_name DiagnosticCode.shipment_lost = lit "SHIPMENT_LOST"
code_name DiagnosticCode.totals_do_not_reconcile = lit "TOTALS_DO_NOT_RECONCILE"
code_name DiagnosticCode.order_has_no_items = lit "ORDER_HAS_NO_ITEMS"
code_name DiagnosticCode.recognition_cost_only = lit "RECOGNITION_COST_ONLY"
code_name DiagnosticCode.order_excluded = lit "ORDER_EXCLUDED"
code_name DiagnosticCode.currency_mismatch = lit "CURRENCY_MISMATCH"
code_name DiagnosticCode.item_order_id_mismatch = lit "ITEM_ORDER_ID_MISMATCH"
code_name DiagnosticCode.reversal_order_id_mismatch = lit "REVERSAL_ORDER_ID_MISMATCH"
code_name DiagnosticCode.non_integer_minor_units = lit "NON_INTEGER_MINOR_UNITS"
code_name DiagnosticCode.negative_quantity = lit "NEGATIVE_QUANTITY"
code_name DiagnosticCode.non_integer_quantity = lit "NON_INTEGER_QUANTITY"
code_name DiagnosticCode.duplicate_item_id = lit "DUPLICATE_ITEM_ID"
code_name DiagnosticCode.duplicate_rule_key = lit "DUPLICATE_RULE_KEY"
code_name DiagnosticCode.fee_rule_invalid = lit "FEE_RULE_INVALID"
code_name DiagnosticCode.malformed_input = lit "MALFORMED_INPUT"
code_name DiagnosticCode.malformed_timestamp = lit "MALFORMED_TIMESTAMP"
code_name DiagnosticCode.invalid_timezone = lit "INVALID_TIMEZONE"
code_name DiagnosticCode.internal_invariant_violated = lit "INTERNAL_INVARIANT_VIOLATED"
code_name DiagnosticCode.duplicate_cost_key = lit "DUPLICATE_COST_KEY"

abbrev kind_name : Subject → Text
kind_name on_order = lit "order"
kind_name (on_line id) = lit "line"
kind_name (on_shipment id) = lit "shipment"
kind_name (on_payment index) = lit "payment"
kind_name (on_reversal id) = lit "reversal"

-- The decimal digits of a number, up to the fuel: an index has fewer digits than its value.
abbrev decimal_from : ℕ → ℕ → Text → Text
decimal_from zero n out = out
decimal_from (suc f) n out =
    let next = (b'0' + n % 10) ∷ out in
    let rest = decimal_from f (n / 10) next in if n / 10 == 0 then next else rest

abbrev pub decimal : ℕ → Text
decimal n = decimal_from (suc n) n []

abbrev zeroes : ℕ → Text
zeroes zero = []
zeroes (suc n) = b'0' ∷ zeroes n

-- `padStart(width, '0')`
abbrev pub pad_start : ℕ → Text → Text
pad_start width t = zeroes (width - length t) ++ t

abbrev subject_key : Subject → Text
subject_key on_order = []
subject_key (on_line id) = id
subject_key (on_shipment id) = id
subject_key (on_payment index) = pad_start 4 (decimal index)
subject_key (on_reversal id) = id

-- The comparator is negative.
unfoldable pub precedes : Diagnostic → Diagnostic → Bool
precedes a b =
    if not (eq_text (kind_name a.subject) (kind_name b.subject))
    then lt_text (kind_name a.subject) (kind_name b.subject)
    else if not (eq_text (subject_key a.subject) (subject_key b.subject))
    then lt_text (subject_key a.subject) (subject_key b.subject)
    else lt_text (code_name a.code) (code_name b.code)

unfoldable pub insert_diagnostic : Diagnostic → List Diagnostic → List Diagnostic
insert_diagnostic d [] = d ∷ []
insert_diagnostic d (e ∷ ds) = if precedes e d then e ∷ insert_diagnostic d ds else d ∷ e ∷ ds

unfoldable pub sort_diagnostics : List Diagnostic → List Diagnostic
sort_diagnostics [] = []
sort_diagnostics (d ∷ ds) = insert_diagnostic d (sort_diagnostics ds)
