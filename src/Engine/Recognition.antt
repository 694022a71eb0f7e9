-- ===== src/Engine/Recognition.antt =====
-- packages/core/src/engine/recognition.ts: whether an order's money counts, and how.
pub mod Footprint
use ghalla.Base.{Bool, true, false, not, ◌&&◌, List, if◌then◌else◌, filter, all, is_empty}
use ghalla.Contracts.Enums.{
  OrderLifecycle, PaymentState, FulfillmentState, ShipmentDirection, ShipmentStatus, is_live,
  is_dispatched, is_never_settled, eq_direction,
}
use ghalla.Contracts.Canonical.{CanonicalOrder, CanonicalShipment}

pub data CostOnlyReason : Type 0 where
  rto_uncollected cancelled_after_dispatch cancelled_after_capture payment_not_settled goods_lost :
      CostOnlyReason

pub data ExcludedReason : Type 0 where
  test_order draft cancelled_before_economic_effect : ExcludedReason

pub data ProfitRecognition : Type 0 where
  recognized : ProfitRecognition
  cost_only : CostOnlyReason → ProfitRecognition
  excluded : ExcludedReason → ProfitRecognition

abbrev pub is_rto : FulfillmentState → Bool
is_rto FulfillmentState.rto = true
is_rto _ = false

abbrev is_lost : ShipmentStatus → Bool
is_lost ShipmentStatus.lost = true
is_lost _ = false

-- The outbound legs that are economically live.
abbrev pub live_outbound : List CanonicalShipment → List CanonicalShipment
live_outbound =
    filter (λ s. eq_direction s.direction ShipmentDirection.outbound && is_live s.status)

abbrev pub all_lost : List CanonicalShipment → Bool
all_lost live = not (is_empty live) && all (λ s. is_lost s.status) live

abbrev pub cancelled_recognition : PaymentState → FulfillmentState → ProfitRecognition
cancelled_recognition PaymentState.partially_refunded f = recognized
cancelled_recognition PaymentState.paid f = cost_only cancelled_after_capture
cancelled_recognition PaymentState.refunded f = cost_only cancelled_after_capture
cancelled_recognition _ f =
    if is_dispatched f
    then cost_only cancelled_after_dispatch
    else excluded cancelled_before_economic_effect

abbrev pub is_draft : OrderLifecycle → Bool
is_draft OrderLifecycle.draft = true
is_draft _ = false

abbrev pub is_cancelled : OrderLifecycle → Bool
is_cancelled OrderLifecycle.cancelled = true
is_cancelled _ = false

abbrev pub is_voided_or_failed : PaymentState → Bool
is_voided_or_failed PaymentState.voided = true
is_voided_or_failed PaymentState.failed = true
is_voided_or_failed _ = false

unfoldable pub compute_recognition : CanonicalOrder → List CanonicalShipment → ProfitRecognition
compute_recognition o shipments =
    if o.is_test
    then excluded test_order
    else if is_draft o.lifecycle
    then excluded ExcludedReason.draft
    else if is_rto o.fulfillment_state && is_never_settled o.payment_state
    then cost_only rto_uncollected
    else if all_lost (live_outbound shipments) && is_never_settled o.payment_state
    then cost_only goods_lost
    else if is_voided_or_failed o.payment_state
    then (if is_dispatched o.fulfillment_state
        then cost_only payment_not_settled
        else excluded cancelled_before_economic_effect)
    else if is_cancelled o.lifecycle
    then cancelled_recognition o.payment_state o.fulfillment_state
    else recognized

abbrev pub is_recognized : ProfitRecognition → Bool
is_recognized recognized = true
is_recognized _ = false

abbrev pub is_cost_only : ProfitRecognition → Bool
is_cost_only (cost_only r) = true
is_cost_only _ = false

abbrev pub is_excluded : ProfitRecognition → Bool
is_excluded (excluded r) = true
is_excluded _ = false
