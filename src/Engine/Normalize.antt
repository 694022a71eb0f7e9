-- ===== src/Engine/Normalize.antt =====
-- packages/core/src/engine/normalize.ts: what is refused before anything is computed, and the
-- ordering of what is not. The model's input has the shape that the types promise, so the checks
-- for `null` objects, for strings where numbers belong and for fractional numbers have no case here.
pub mod Fatal
pub mod FeeRules
pub mod Checks
pub mod Accepted
use ghalla.Base.{not, List, [], ◌∷◌, ◌++◌, if◌then◌else◌, is_empty}
use ghalla.Base.Text.{Text, lit, eq_text, lt_text}
use ghalla.Base.Dict.{has}
use ghalla.Contracts.Canonical.{
  CanonicalOrder, CanonicalOrderItem, CanonicalShipment, CanonicalReversal,
}
use ghalla.Contracts.Time.{is_instant}
use ghalla.Engine.Input.{OrderProfitInput}
use ghalla.Engine.Diagnostics.{Diagnostic, DiagnosticCode, Subject, order_diagnostic}
use ghalla.Engine.Cogs.{CostIndex}
use ghalla.Engine.Normalize.Fatal.{fatal_if, invalid_amounts}
use ghalla.Engine.Normalize.FeeRules.{validate_fee_rule_set}
use ghalla.Engine.Normalize.Checks.{
  check_items, check_reversals, check_shipments, no_costs, index_costs,
}

pub record NormalizedInput : Type 0 where
  pub order : CanonicalOrder
  pub items : List CanonicalOrderItem
  pub shipments : List CanonicalShipment
  pub reversals : List CanonicalReversal
  pub costs : CostIndex

-- `sort` by a text of each element
module _ {A : Type 0} (key : A → Text) where
  unfoldable pub insert_by : A → List A → List A
  insert_by a [] = a ∷ []
  insert_by a (b ∷ rest) = if lt_text (key b) (key a) then b ∷ insert_by a rest else a ∷ b ∷ rest

  unfoldable pub sort_by : List A → List A
  sort_by [] = []
  sort_by (a ∷ rest) = insert_by a (sort_by rest)

abbrev pub currency_codes : List Text
currency_codes = lit "SAR" ∷ lit "AED" ∷ lit "KWD" ∷ lit "BHD" ∷ lit "USD" ∷ []

unfoldable pub check_header : OrderProfitInput → List Diagnostic
check_header input =
    let order = input.order in
    let store = input.store in
    fatal_if (not (has store.currency currency_codes))
      (order_diagnostic DiagnosticCode.malformed_input)
    ++ (fatal_if (not (eq_text order.currency store.currency))
          (order_diagnostic DiagnosticCode.currency_mismatch)
        ++ (fatal_if (not (eq_text input.fee_rule_set.currency store.currency))
              (order_diagnostic DiagnosticCode.currency_mismatch)
            ++ (fatal_if (is_empty store.timezone)
                  (order_diagnostic DiagnosticCode.invalid_timezone)
                ++ (fatal_if (not (is_instant order.placed_at))
                      (order_diagnostic DiagnosticCode.malformed_timestamp)
                    ++ (validate_fee_rule_set input.fee_rule_set
                        ++ invalid_amounts Subject.on_order (
                            order.subtotal_ex_vat_minor ∷ order.vat_amount_minor
                            ∷ order.shipping_charged_ex_vat_minor
                            ∷ order.cod_fee_charged_ex_vat_minor ∷ order.total_inc_vat_minor
                            ∷ []))))))

-- `fatal` at the end of the function
unfoldable pub fatal_diagnostics : OrderProfitInput → List Diagnostic
fatal_diagnostics input =
    check_header input
    ++ (check_items input.order.id [] [] input.items
        ++ (check_reversals input.order.id [] input.reversals
            ++ (check_shipments [] input.shipments ++ (index_costs input.costs no_costs).1)))

pub data Normalized : Type 0 where
  accepted : NormalizedInput → Normalized
  refused : List Diagnostic → Normalized

unfoldable pub normalize_and_validate : OrderProfitInput → Normalized
normalize_and_validate input =
    if not (is_empty (fatal_diagnostics input))
    then refused (fatal_diagnostics input)
    else accepted (record {
      order = input.order;
      items = sort_by (λ i. i.platform_line_id) input.items;
      shipments = sort_by (λ s. s.id) input.shipments;
      reversals = sort_by (λ r. r.id) input.reversals;
      costs = (index_costs input.costs no_costs).0;
    })
