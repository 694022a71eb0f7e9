-- ===== src/Engine/Recognition/Footprint.antt =====
-- packages/core/src/engine/recognition.ts: which orders the recognition keeps and which it leaves out.
use ghalla.Base.{Bool, true, false, not, ◌&&◌, ◌||◌, ◌≡◌, List, refl, arith}
use ghalla.Contracts.Enums.{PaymentState, FulfillmentState, is_dispatched, is_never_settled}
use ghalla.Contracts.Canonical.{CanonicalOrder, CanonicalShipment}
use ghalla.Engine.Recognition.{
  compute_recognition, is_recognized, is_excluded, is_draft, is_cancelled, is_voided_or_failed,
  is_rto, all_lost, live_outbound, cancelled_recognition,
}

-- Whether goods or money of an order have moved.
abbrev pub has_footprint : FulfillmentState → PaymentState → Bool
has_footprint f p = is_dispatched f || not (is_never_settled p)

cancelled_footprint :
    (p : PaymentState) (f : FulfillmentState)
    → has_footprint f p ≡ true
    → is_excluded (cancelled_recognition p f) ≡ false
cancelled_footprint PaymentState.unpaid f h = ground arith
cancelled_footprint PaymentState.authorized f h = ground arith
cancelled_footprint PaymentState.paid f h = refl
cancelled_footprint PaymentState.partially_refunded f h = refl
cancelled_footprint PaymentState.refunded f h = refl
cancelled_footprint PaymentState.voided f h = ground arith
cancelled_footprint PaymentState.failed f h = ground arith

voided_unsettled : (p : PaymentState) → is_voided_or_failed p ≡ true → is_never_settled p ≡ true
voided_unsettled PaymentState.voided h = refl
voided_unsettled PaymentState.failed h = refl
voided_unsettled PaymentState.unpaid h = cc
voided_unsettled PaymentState.authorized h = cc
voided_unsettled PaymentState.paid h = cc
voided_unsettled PaymentState.partially_refunded h = cc
voided_unsettled PaymentState.refunded h = cc

-- A real order, neither a test order nor a draft, whose goods were dispatched or whose payment was
-- settled is never excluded from the profit.
pub footprint_not_excluded :
    (o : CanonicalOrder) (shipments : List CanonicalShipment)
    → o.is_test ≡ false
    → is_draft o.lifecycle ≡ false
    → has_footprint o.fulfillment_state o.payment_state ≡ true
    → is_excluded (compute_recognition o shipments) ≡ false
unfolding compute_recognition
footprint_not_excluded o shipments real placed moved = ground (
  arith,
  cancelled_footprint o.payment_state o.fulfillment_state moved,
  voided_unsettled o.payment_state,
)

-- Revenue is recognised exactly where the order is real, its payment was not voided and did not
-- fail, no return to origin and no loss of every live outbound leg meets an unsettled payment, and a
-- cancelled order was partially refunded.
is_recognized-compute_recognition :
    (o : CanonicalOrder) (shipments : List CanonicalShipment)
    → is_recognized (compute_recognition o shipments) ≡ (
        not (o.is_test || is_draft o.lifecycle)
        && not (is_voided_or_failed o.payment_state)
        && not (
            is_never_settled o.payment_state
            && (is_rto o.fulfillment_state || all_lost (live_outbound shipments)))
        && (not (is_cancelled o.lifecycle)
            || is_recognized (cancelled_recognition o.payment_state o.fulfillment_state)))
unfolding compute_recognition
is_recognized-compute_recognition o shipments = ground arith
