-- ===== src/Engine/Compute.antt =====
-- packages/core/src/compute-order-profit.ts: `compute` and `computeOrderProfit`, with the totals and
-- results of result.ts.
pub mod Outcome
pub mod Calls
pub mod Assemble
pub mod Margin
pub mod Sum
pub mod LineSum
pub mod Totals
use ghalla.Base.{Bool, true, false, not, ◌&&◌, List, [], ◌∷◌}
use ghalla.Base.Result.{Result, ok, err, ◌>>=◌, Error, malformed_instant, invalid_timezone}
use ghalla.Engine.Input.{OrderProfitInput}
use ghalla.Engine.Diagnostics.{Diagnostic, DiagnosticCode, order_diagnostic}
use ghalla.Engine.Diagnostics.Sort.{sort_diagnostics}
use ghalla.Engine.Recognition.{is_excluded}
use ghalla.Engine.Confidence.{Level, derive_confidence}
use ghalla.Engine.Normalize.{NormalizedInput, Normalized, accepted, refused, normalize_and_validate}
use ghalla.Engine.BusinessDate.{ZoneConversion}
use ghalla.Engine.Compute.Outcome.{
  OrderProfitComputed, OrderProfitResult, computed, rejected, calc_version,
}
use ghalla.Engine.Compute.Calls.{compute_terms}
use ghalla.Engine.Compute.Assemble.{
  lines_of_order, totals_of_order, bases_of_order, diagnostics_of_order,
}

unfoldable pub compute_accepted :
    ZoneConversion → OrderProfitInput → NormalizedInput → Result OrderProfitComputed
compute_accepted zone input n = do
  t ← compute_terms zone input n
  lines ← lines_of_order t n.items
  totals ← totals_of_order t lines
  ok (record {
    order_id = n.order.id;
    store_id = input.store.store_id;
    currency = input.store.currency;
    business_date = t.business_date;
    calc_version = calc_version;
    fee_rule_set_id = input.fee_rule_set.id;
    recognition = t.recognition;
    totals = totals;
    lines = lines;
    confidence = derive_confidence (bases_of_order t n.items n.reversals) (diagnostics_of_order t);
    diagnostics = sort_diagnostics (diagnostics_of_order t);
  })

abbrev reject : OrderProfitInput → List Diagnostic → OrderProfitResult
reject input ds = rejected (record {
  order_id = input.order.id;
  store_id = input.store.store_id;
  calc_version = calc_version;
  diagnostics = ds;
})

-- The `catch` of `computeOrderProfit`
abbrev pub code_of_error : Error → DiagnosticCode
code_of_error Error.malformed_instant = DiagnosticCode.malformed_timestamp
code_of_error Error.invalid_timezone = DiagnosticCode.invalid_timezone
code_of_error _ = DiagnosticCode.internal_invariant_violated

abbrev pub caught : OrderProfitInput → Result OrderProfitComputed → OrderProfitResult
caught input (ok c) = computed c
caught input (err e) = reject input (order_diagnostic (code_of_error e) ∷ [])

abbrev pub compute_normalized : ZoneConversion → OrderProfitInput → Normalized → OrderProfitResult
compute_normalized zone input (refused fatal) = reject input (sort_diagnostics fatal)
compute_normalized zone input (accepted n) = caught input (compute_accepted zone input n)

unfoldable pub compute_order_profit : ZoneConversion → OrderProfitInput → OrderProfitResult
compute_order_profit zone input = compute_normalized zone input (normalize_and_validate input)

abbrev is_incomplete : Level → Bool
is_incomplete Level.incomplete = true
is_incomplete _ = false

unfoldable pub is_rankable_for_loss_maker : OrderProfitResult → Bool
is_rankable_for_loss_maker (computed c) =
    not (is_incomplete c.confidence.level) && not (is_excluded c.recognition)
is_rankable_for_loss_maker (rejected r) = false
