-- ===== src/Contracts/Enums.antt =====
-- packages/contracts/src/enums.ts, and `===` on the enumerations that the code compares.
use ghalla.Base.{ℕ, Bool, true, false, Option, none, some, ◌==◌}

pub data OrderLifecycle : Type 0 where
  draft open_order completed cancelled : OrderLifecycle

pub data PaymentState : Type 0 where
  unpaid authorized paid partially_refunded refunded voided failed : PaymentState

pub data FulfillmentState : Type 0 where
  unfulfilled partially_fulfilled in_transit delivered returned rto not_applicable :
      FulfillmentState

pub data FulfillmentMethod : Type 0 where
  carrier pickup self_delivery digital other : FulfillmentMethod

pub data PaymentInstrument : Type 0 where
  card bnpl wallet cod bank_transfer free unknown other : PaymentInstrument

pub data CardScheme : Type 0 where
  mada visa mastercard amex unionpay other unknown : CardScheme

pub data PaymentLegState : Type 0 where
  pending authorized captured failed refunded : PaymentLegState

pub data ShipmentDirection : Type 0 where
  outbound return_leg : ShipmentDirection

pub data ShipmentStatus : Type 0 where
  created in_transit out_for_delivery delivered failed_attempt returned_to_origin cancelled lost
        unknown :
      ShipmentStatus

pub data RestockOutcome : Type 0 where
  restocked_sellable restocked_damaged not_restocked pending_receipt not_applicable unknown :
      RestockOutcome

pub data CostSource : Type 0 where
  merchant_manual merchant_bulk_import platform category_default no_source : CostSource

pub data SubscriptionStatus : Type 0 where
  trialing active past_due canceled expired : SubscriptionStatus

pub data BillingInterval : Type 0 where
  month year : BillingInterval

-- `EXACT_COST_SOURCES.includes(source)`
unfoldable pub is_exact_source : CostSource → Bool
is_exact_source CostSource.merchant_manual = true
is_exact_source CostSource.merchant_bulk_import = true
is_exact_source CostSource.platform = true
is_exact_source CostSource.category_default = false
is_exact_source CostSource.no_source = false

-- Places in the lists of the enumerations, by which values are compared.
abbrev instrument_index : PaymentInstrument → ℕ
instrument_index PaymentInstrument.card = 0
instrument_index PaymentInstrument.bnpl = 1
instrument_index PaymentInstrument.wallet = 2
instrument_index PaymentInstrument.cod = 3
instrument_index PaymentInstrument.bank_transfer = 4
instrument_index PaymentInstrument.free = 5
instrument_index PaymentInstrument.unknown = 6
instrument_index PaymentInstrument.other = 7

abbrev pub eq_instrument : PaymentInstrument → PaymentInstrument → Bool
eq_instrument a b = instrument_index a == instrument_index b

abbrev scheme_index : CardScheme → ℕ
scheme_index CardScheme.mada = 0
scheme_index CardScheme.visa = 1
scheme_index CardScheme.mastercard = 2
scheme_index CardScheme.amex = 3
scheme_index CardScheme.unionpay = 4
scheme_index CardScheme.other = 5
scheme_index CardScheme.unknown = 6

-- A scheme may be `null` on both sides.
abbrev pub eq_scheme : Option CardScheme → Option CardScheme → Bool
eq_scheme none none = true
eq_scheme none (some b) = false
eq_scheme (some a) none = false
eq_scheme (some a) (some b) = scheme_index a == scheme_index b

abbrev pub eq_direction : ShipmentDirection → ShipmentDirection → Bool
eq_direction ShipmentDirection.outbound ShipmentDirection.outbound = true
eq_direction ShipmentDirection.outbound ShipmentDirection.return_leg = false
eq_direction ShipmentDirection.return_leg ShipmentDirection.outbound = false
eq_direction ShipmentDirection.return_leg ShipmentDirection.return_leg = true

abbrev pub is_captured : PaymentLegState → Bool
is_captured PaymentLegState.captured = true
is_captured _ = false

abbrev pub is_cod : PaymentInstrument → Bool
is_cod PaymentInstrument.cod = true
is_cod _ = false

-- The set `LIVE` of recognition.ts, shipping.ts and cod.ts: every status but `cancelled`.
abbrev pub is_live : ShipmentStatus → Bool
is_live ShipmentStatus.cancelled = false
is_live _ = true

-- The set `DISPATCHED` of recognition.ts
abbrev pub is_dispatched : FulfillmentState → Bool
is_dispatched FulfillmentState.partially_fulfilled = true
is_dispatched FulfillmentState.in_transit = true
is_dispatched FulfillmentState.delivered = true
is_dispatched FulfillmentState.returned = true
is_dispatched FulfillmentState.rto = true
is_dispatched FulfillmentState.unfulfilled = false
is_dispatched FulfillmentState.not_applicable = false

-- The set `NEVER_SETTLED` of recognition.ts
abbrev pub is_never_settled : PaymentState → Bool
is_never_settled PaymentState.unpaid = true
is_never_settled PaymentState.authorized = true
is_never_settled PaymentState.failed = true
is_never_settled PaymentState.voided = true
is_never_settled _ = false
