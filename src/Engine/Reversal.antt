-- ===== src/Engine/Reversal.antt =====
-- packages/core/src/engine/reversal.ts: money that flows back, and the goods that came with it.
-- `Totals` has the running totals by line, `Spread` the two ways to spread an amount over
-- the lines, `Steps` what one reversal does.
pub mod Totals
pub mod Spread
pub mod Steps
pub mod Impact
use Totals.{Tallies, tally, no_tallies, line_buckets}
use Steps.{reversal_steps}
use ghalla.Base.{
  Bool, true, false, not, ◌&&◌, List, [], ◌∷◌, map, Option, none, some, if◌then◌else◌, any,
  is_empty, or_else,
}
use ghalla.Base.Int.{ℤ, pos, min_ℤ, max_ℤ}
use ghalla.Base.Text.{Text}
use ghalla.Base.Dict.{Dict, lookup, of_entries}
use ghalla.Base.Result.{Result, ok, ◌>>=◌, map_result}
use ghalla.Money.{add_minor, negate_minor, assert_in_range}
use ghalla.Contracts.Enums.{ShipmentDirection, ShipmentStatus, eq_direction}
use ghalla.Contracts.Canonical.{CanonicalReversal, CanonicalShipment}
use ghalla.Engine.Diagnostics.{DiagnosticCode, Computed, order_diagnostic}
use ghalla.Engine.Recognition.{ProfitRecognition, cost_only, CostOnlyReason, is_recognized}
use ghalla.Engine.Revenue.{LineRevenue}
use ghalla.Engine.Cogs.{LineCogs}

pub record LineReversal : Type 0 where
  pub order_item_id : Text
  pub reversed_quantity : ℤ
  pub reversed_revenue_ex_vat_minor : ℤ
  pub restocked_cogs_minor : ℤ
  pub impact_minor : ℤ

pub record ReversalImpact : Type 0 where
  pub lines : List LineReversal
  pub reversed_revenue_ex_vat_minor : ℤ
  pub restocked_cogs_minor : ℤ
  pub impact_minor : ℤ
  pub allocated : Bool
  pub inferred_restock : Bool

-- The set `ARRIVED_BACK`
abbrev has_arrived_back : ShipmentStatus → Bool
has_arrived_back ShipmentStatus.returned_to_origin = true
has_arrived_back ShipmentStatus.delivered = true
has_arrived_back _ = false

unfoldable pub rto_goods_recovered : List CanonicalShipment → Bool
rto_goods_recovered =
    any (λ s. eq_direction s.direction ShipmentDirection.return_leg && has_arrived_back s.status)

abbrev pub rto_recovery : ProfitRecognition → Bool
rto_recovery (cost_only CostOnlyReason.rto_uncollected) = true
rto_recovery _ = false

abbrev pub is_undispatched_reason : ProfitRecognition → Bool
is_undispatched_reason (cost_only CostOnlyReason.cancelled_after_capture) = true
is_undispatched_reason (cost_only CostOnlyReason.cancelled_after_dispatch) = true
is_undispatched_reason (cost_only CostOnlyReason.payment_not_settled) = true
is_undispatched_reason _ = false

-- `empty`
abbrev pub empty_line : LineRevenue → LineReversal
empty_line l = record {
  order_item_id = l.order_item_id;
  reversed_quantity = pos 0;
  reversed_revenue_ex_vat_minor = pos 0;
  restocked_cogs_minor = pos 0;
  impact_minor = pos 0;
}

abbrev pub empty_impact : List LineRevenue → ReversalImpact
empty_impact revenue = record {
  lines = map empty_line revenue;
  reversed_revenue_ex_vat_minor = pos 0;
  restocked_cogs_minor = pos 0;
  impact_minor = pos 0;
  allocated = false;
  inferred_restock = false;
}

abbrev pub cogs_minor_of : Option LineCogs → ℤ
cogs_minor_of none = pos 0
cogs_minor_of (some l) = l.cogs_minor

-- `cogsById`
abbrev pub cogs_by_id : List LineCogs → Dict LineCogs
cogs_by_id cogs = of_entries (map (λ l. (l.order_item_id, l)) cogs)

abbrev pub credit_line : Dict LineCogs → Dict ℤ → LineRevenue → LineReversal
credit_line cogs quantities l =
    let back = cogs_minor_of (lookup l.order_item_id cogs) in
    record {
      order_item_id = l.order_item_id;
      reversed_quantity = or_else (lookup l.order_item_id quantities) (pos 0);
      reversed_revenue_ex_vat_minor = pos 0;
      restocked_cogs_minor = back;
      impact_minor = back;
    }

-- `creditWholeOrder`
unfoldable pub credit_whole_order :
    List LineRevenue → Dict LineCogs → Dict ℤ → Result (Computed ReversalImpact)
credit_whole_order revenue cogs quantities = do
  let lines = map (credit_line cogs quantities) revenue
  restocked ← add_minor (map (λ l. l.restocked_cogs_minor) lines)
  impact ← add_minor (map (λ l. l.impact_minor) lines)
  ok (record {
    value = record {
      lines = lines;
      reversed_revenue_ex_vat_minor = pos 0;
      restocked_cogs_minor = restocked;
      impact_minor = impact;
      allocated = false;
      inferred_restock = true;
    };
    diagnostics = [];
  })

-- A line's result from the running totals.
unfoldable pub result_line :
    Bool → Tallies → Dict LineCogs → Dict ℤ → LineRevenue → Result LineReversal
result_line counts t cogs quantities l =
    let id = l.order_item_id in
    let line_cogs = cogs_minor_of (lookup id cogs) in
    (if counts then assert_in_range (tally t.reversed_revenue id) else ok (pos 0)) >>= λ revenue.
    assert_in_range (max_ℤ (pos 0) (min_ℤ (tally t.restocked id) line_cogs)) >>= λ back.
    negate_minor revenue >>= λ less. add_minor (less ∷ back ∷ []) >>= λ impact. ok (record {
      order_item_id = id;
      reversed_quantity = min_ℤ (tally t.reversed_qty id) (tally quantities id);
      reversed_revenue_ex_vat_minor = revenue;
      restocked_cogs_minor = back;
      impact_minor = impact;
    })

unfoldable pub impact_of_tallies :
    Bool → Tallies → Dict LineCogs → Dict ℤ → List LineRevenue → Result (Computed ReversalImpact)
impact_of_tallies counts t cogs quantities revenue = do
  lines ← map_result (result_line counts t cogs quantities) revenue
  reversed ← add_minor (map (λ l. l.reversed_revenue_ex_vat_minor) lines)
  restocked ← add_minor (map (λ l. l.restocked_cogs_minor) lines)
  impact ← add_minor (map (λ l. l.impact_minor) lines)
  ok (record {
    value = record {
      lines = lines;
      reversed_revenue_ex_vat_minor = reversed;
      restocked_cogs_minor = restocked;
      impact_minor = impact;
      allocated = t.allocated;
      inferred_restock = false;
    };
    diagnostics = t.notes;
  })

unfoldable pub compute_reversal_impact :
    List CanonicalReversal
    → List LineRevenue
    → List LineCogs
    → (quantities weights : Dict ℤ) → ProfitRecognition
    → List CanonicalShipment
    → (dispatched : Bool) → Result (Computed ReversalImpact)
compute_reversal_impact reversals revenue cogs_lines quantities weights recognition shipments
      dispatched =
    let cogs = cogs_by_id cogs_lines in
    if is_undispatched_reason recognition && not dispatched
    then credit_whole_order revenue cogs quantities
    else if rto_recovery recognition && not (rto_goods_recovered shipments)
    then ok (record {
      value = empty_impact revenue;
      diagnostics = order_diagnostic DiagnosticCode.restock_unknown ∷ [];
    })
    else if rto_recovery recognition
    then credit_whole_order revenue cogs quantities
    else if is_empty reversals
    then ok (record { value = empty_impact revenue; diagnostics = [] })
    else (reversal_steps (line_buckets revenue weights) quantities cogs_lines cogs reversals
          (no_tallies revenue)
        >>= λ t. impact_of_tallies (is_recognized recognition) t cogs quantities revenue)
