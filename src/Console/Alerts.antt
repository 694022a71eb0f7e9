-- ===== src/Console/Alerts.antt =====
-- apps/ghalla-ops/src/lib/queries/alerts.ts and portal/alert-acks.ts: the alerts that follow from
-- what is known of a store, and the acknowledgements of operators. The text of a detail is left out.
pub mod Acks
pub mod Silenced
use ghalla.Base.{
  ℕ, ◌+◌, Bool, true, false, List, [], ◌∷◌, ◌++◌, Option, none, some, map, filter, if◌then◌else◌,
  leb, ltb,
}
use ghalla.Base.Text.{Text, lit, eq_text}
use ghalla.Base.Dict.{Dict, lookup, insert}
use ghalla.Contracts.Enums.{SubscriptionStatus}
use ghalla.Console.Stores.{StoreFacts, is_silent, is_backfill_stuck, has_status, day_ms}

pub data AlertKind : Type 0 where
  silent_store stuck_backfill failed_jobs past_due platform_unreachable : AlertKind

abbrev pub kind_text : AlertKind → Text
kind_text AlertKind.silent_store = lit "silent_store"
kind_text AlertKind.stuck_backfill = lit "stuck_backfill"
kind_text AlertKind.failed_jobs = lit "failed_jobs"
kind_text AlertKind.past_due = lit "past_due"
kind_text AlertKind.platform_unreachable = lit "platform_unreachable"

pub record Alert : Type 0 where
  pub key : Text
  pub kind : AlertKind
  pub platform : Text
  pub store_id : Option Text
  pub acknowledged_until : Option ℕ

unfoldable pub alert_key : AlertKind → Text → Option Text → Text
alert_key kind platform none = kind_text kind ++ (lit ":" ++ platform)
alert_key kind platform (some store_id) =
    kind_text kind ++ (lit ":" ++ (platform ++ (lit ":" ++ store_id)))

abbrev pub ack_ttl_ms : ℕ
ack_ttl_ms = day_ms

abbrev pub raise : AlertKind → Text → Option Text → Alert
raise kind platform store_id = record {
  key = alert_key kind platform store_id;
  kind = kind;
  platform = platform;
  store_id = store_id;
  acknowledged_until = none;
}

abbrev pub raise_if : Bool → AlertKind → Text → Text → List Alert
raise_if true kind platform store_id = raise kind platform (some store_id) ∷ []
raise_if false kind platform store_id = []

unfoldable pub store_alerts : Text → StoreFacts → ℕ → List Alert
store_alerts platform facts now =
    raise_if (is_silent facts now) AlertKind.silent_store platform facts.store_id
    ++ (raise_if (is_backfill_stuck facts now) AlertKind.stuck_backfill platform facts.store_id
        ++ (raise_if (ltb 0 facts.failed_jobs) AlertKind.failed_jobs platform facts.store_id
            ++ raise_if (has_status SubscriptionStatus.past_due facts.subscription)
                AlertKind.past_due platform facts.store_id))

abbrev pub platform_unreachable_alert : Text → Alert
platform_unreachable_alert platform = raise AlertKind.platform_unreachable platform none

abbrev pub silence : Alert → Option ℕ → ℕ → Alert
silence alert none now = alert
silence alert (some acked) now =
    if leb (acked + ack_ttl_ms) now
    then alert
    else record alert { acknowledged_until = some (acked + ack_ttl_ms) }

unfoldable pub apply_acks : List Alert → Dict ℕ → ℕ → List Alert
apply_acks alerts acks now =
    map (λ (alert : Alert). silence alert (lookup alert.key acks) now) alerts

-- A row of `alert_ack`, by its key
pub record AckRow : Type 0 where
  pub alert_key : Text
  pub acknowledged_at : ℕ
  pub actor_session : Text
  pub note : Option Text

-- `new Map(rows.map(…))`
unfoldable pub ack_map : List AckRow → Dict ℕ → Dict ℕ
ack_map [] acks = acks
ack_map (row ∷ rows) acks = ack_map rows (insert row.alert_key row.acknowledged_at acks)

-- `gte(acknowledgedAt, now - ACK_TTL_MS)`
abbrev pub is_recent : ℕ → AckRow → Bool
is_recent now row = leb now (row.acknowledged_at + ack_ttl_ms)

unfoldable pub active_acks : List AckRow → ℕ → Dict ℕ
unfolding ack_map
active_acks rows now = ack_map (filter (is_recent now) rows) []

-- `INSERT … ON CONFLICT (alert_key) DO UPDATE`
unfoldable pub acknowledge : List AckRow → Text → Text → Option Text → ℕ → List AckRow
acknowledge [] key actor remark now =
    record { alert_key = key; acknowledged_at = now; actor_session = actor; note = remark } ∷ []
acknowledge (row ∷ rows) key actor remark now =
    if eq_text row.alert_key key
    then record row { acknowledged_at = now; actor_session = actor; note = remark } ∷ rows
    else row ∷ acknowledge rows key actor remark now

unfoldable pub forget : List AckRow → Text → List AckRow
forget rows key = filter (λ (row : AckRow). if eq_text row.alert_key key then false else true) rows
