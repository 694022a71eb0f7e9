-- ===== src/Engine/Normalize/Checks.antt =====
-- packages/core/src/engine/normalize.ts: what is refused about items, reversals, shipments and
-- costs, and the index of the costs.
use ghalla.Base.{
  not, List, [], ◌∷◌, ◌++◌, Option, none, some, if◌then◌else◌, is_some, is_empty, or_else, any,
}
use ghalla.Base.Text.{Text, eq_text}
use ghalla.Base.Dict.{Dict, has, lookup, insert}
use ghalla.Contracts.Canonical.{
  CanonicalOrderItem, CanonicalShipment, CanonicalReversal, CanonicalReversalLine,
}
use ghalla.Engine.Input.{ResolvedCost}
use ghalla.Engine.Diagnostics.{
  Diagnostic, DiagnosticCode, Subject, diagnostic, order_diagnostic, on_line, on_shipment,
  on_reversal,
}
use ghalla.Engine.Cogs.{CostIndex, product_key_of}
use ghalla.Engine.Normalize.Fatal.{fatal_if, quantity_checks, invalid_amounts}

abbrev pub item_checks : Text → List Text → List Text → CanonicalOrderItem → List Diagnostic
item_checks order_id ids lines i =
    fatal_if (not (eq_text i.order_id order_id))
      (diagnostic DiagnosticCode.item_order_id_mismatch (on_line i.id))
    ++ (fatal_if (has i.id ids) (diagnostic DiagnosticCode.duplicate_item_id (on_line i.id))
        ++ (fatal_if (has i.platform_line_id lines)
              (diagnostic DiagnosticCode.duplicate_item_id (on_line i.id))
            ++ (quantity_checks (on_line i.id) i.quantity
                ++ invalid_amounts (on_line i.id) (
                    i.unit_price_ex_vat_minor ∷ i.gross_line_ex_vat_minor
                    ∷ i.line_discount_ex_vat_minor ∷ i.line_total_ex_vat_minor ∷ []))))

-- The loop over the items, with the ids and the line ids seen so far.
unfoldable pub check_items :
    Text → List Text → List Text → List CanonicalOrderItem → List Diagnostic
check_items order_id ids lines [] = []
check_items order_id ids lines (i ∷ items) =
    item_checks order_id ids lines i
    ++ check_items order_id (i.id ∷ ids) (i.platform_line_id ∷ lines) items

unfoldable pub check_reversal_lines : Subject → List CanonicalReversalLine → List Diagnostic
check_reversal_lines s [] = []
check_reversal_lines s (l ∷ ls) =
    quantity_checks s l.quantity
    ++ (invalid_amounts s (l.amount_ex_vat_minor ∷ []) ++ check_reversal_lines s ls)

unfoldable pub check_reversals : Text → List Text → List CanonicalReversal → List Diagnostic
check_reversals order_id ids [] = []
check_reversals order_id ids (r ∷ rs) =
    fatal_if (has r.id ids) (diagnostic DiagnosticCode.duplicate_item_id (on_reversal r.id))
    ++ (fatal_if (not (eq_text r.order_id order_id))
          (diagnostic DiagnosticCode.reversal_order_id_mismatch (on_reversal r.id))
        ++ (check_reversal_lines (on_reversal r.id) (or_else r.lines [])
            ++ check_reversals order_id (r.id ∷ ids) rs))

unfoldable pub check_shipments : List Text → List CanonicalShipment → List Diagnostic
check_shipments ids [] = []
check_shipments ids (s ∷ ss) =
    fatal_if (has s.id ids) (diagnostic DiagnosticCode.duplicate_item_id (on_shipment s.id))
    ++ (elim s.carrier_cost_minor [
      | none ↦ []
      | some v ↦ invalid_amounts (on_shipment s.id) (v ∷ [])
    ]
        ++ check_shipments (s.id ∷ ids) ss)

abbrev pub no_costs : CostIndex
no_costs = record { by_product_key = []; by_sku = [] }

abbrev sku_key : Option Text → List Text
sku_key none = []
sku_key (some s) = if is_empty s then [] else s ∷ []

abbrev index_sku : List Text → ResolvedCost → Dict ResolvedCost → Dict ResolvedCost
index_sku [] c m = m
index_sku (s ∷ ss) c m = insert s c m

unfoldable pub index_cost : ResolvedCost → CostIndex → CostIndex
index_cost c costs = record {
  by_product_key =
      insert (product_key_of c.platform_product_id c.platform_variant_id) c costs.by_product_key;
  by_sku = index_sku (sku_key c.sku) c costs.by_sku;
}

abbrev cost_checks : ResolvedCost → CostIndex → List Diagnostic
cost_checks c costs =
    invalid_amounts Subject.on_order (c.unit_cost_minor ∷ [])
    ++ (fatal_if
          (is_some (
            lookup (product_key_of c.platform_product_id c.platform_variant_id)
              costs.by_product_key))
          (order_diagnostic DiagnosticCode.duplicate_cost_key)
        ++ fatal_if (any (λ k. is_some (lookup k costs.by_sku)) (sku_key c.sku))
            (order_diagnostic DiagnosticCode.duplicate_cost_key))

-- The loop over the costs: the index that it builds, and what it refuses.
unfoldable pub index_costs : List ResolvedCost → CostIndex → CostIndex × List Diagnostic
index_costs [] costs = (costs, [])
index_costs (c ∷ cs) costs =
    let rest = index_costs cs (index_cost c costs) in (rest.0, cost_checks c costs ++ rest.1)
