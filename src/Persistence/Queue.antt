-- ===== src/Persistence/Queue.antt =====
-- packages/persistence/src/repositories/webhook-event.repository.ts: the queue of deliveries.
-- An instant is its milliseconds since the epoch, which the column holds; the payload of an event is
-- its text. The query of `claim` is a parameter of type `DueQuery` (Queue/Claim).
pub mod Claim
pub mod Steps
pub mod Rows
pub mod Invariant
pub mod Refinement
pub mod Exclusive
pub mod Retries
pub mod Race
use ghalla.Base.{
  ℕ, ◌+◌, ◌-◌, ◌*◌, ◌^◌, min, Bool, true, false, ◌&&◌, List, ◌∷◌, Option, none, some, map,
  if◌then◌else◌, leb, any, find,
}
use ghalla.Base.Text.{Text, eq_text}

pub data WebhookEventStatus : Type 0 where
  pending processing processed failed skipped : WebhookEventStatus

pub record NewWebhookEvent : Type 0 where
  pub id : Text
  pub store_id : Text
  pub platform_event_id : Text
  pub event_type : Text
  pub raw_event_type : Text
  pub received_at : ℕ
  pub raw_payload : Text

-- A row of `webhook_events`
pub record WebhookRow : Type 0 where
  pub id : Text
  pub store_id : Text
  pub platform_event_id : Text
  pub event_type : Text
  pub raw_event_type : Text
  pub received_at : ℕ
  pub processed_at : Option ℕ
  pub status : WebhookEventStatus
  pub attempts : ℕ
  pub next_attempt_at : ℕ
  pub locked_at : Option ℕ
  pub last_error : Option Text
  pub raw_payload : Text

pub record RetryPolicy : Type 0 where
  pub base_delay_ms : ℕ
  pub max_delay_ms : ℕ
  pub max_attempts : ℕ

abbrev pub default_retry_policy : RetryPolicy
default_retry_policy = record { base_delay_ms = 10000; max_delay_ms = 3600000; max_attempts = 8 }

-- `attempts` counts the one that just failed.
unfoldable pub backoff_ms : ℕ → RetryPolicy → ℕ
backoff_ms attempts policy =
    let exponent = attempts - 1 in
    let factor = 2 ^ min exponent 40 in min (policy.base_delay_ms * factor) policy.max_delay_ms

abbrev pub shift : ℕ → ℕ → ℕ
shift at ms = at + ms

-- `UPDATE … SET … WHERE …`
unfoldable pub update_where :
    (WebhookRow → Bool) → (WebhookRow → WebhookRow) → List WebhookRow → List WebhookRow
update_where test set = map (λ row. if test row then set row else row)

abbrev pub is_pending : WebhookEventStatus → Bool
is_pending WebhookEventStatus.pending = true
is_pending WebhookEventStatus.processing = false
is_pending WebhookEventStatus.processed = false
is_pending WebhookEventStatus.failed = false
is_pending WebhookEventStatus.skipped = false

abbrev pub is_processing : WebhookEventStatus → Bool
is_processing WebhookEventStatus.pending = false
is_processing WebhookEventStatus.processing = true
is_processing WebhookEventStatus.processed = false
is_processing WebhookEventStatus.failed = false
is_processing WebhookEventStatus.skipped = false

abbrev pub is_failed : WebhookEventStatus → Bool
is_failed WebhookEventStatus.pending = false
is_failed WebhookEventStatus.processing = false
is_failed WebhookEventStatus.processed = false
is_failed WebhookEventStatus.failed = true
is_failed WebhookEventStatus.skipped = false

-- The row that `enqueue` inserts
abbrev pub new_row : NewWebhookEvent → WebhookRow
new_row event = record {
  id = event.id;
  store_id = event.store_id;
  platform_event_id = event.platform_event_id;
  event_type = event.event_type;
  raw_event_type = event.raw_event_type;
  received_at = event.received_at;
  processed_at = none;
  status = WebhookEventStatus.pending;
  attempts = 0;
  next_attempt_at = event.received_at;
  locked_at = none;
  last_error = none;
  raw_payload = event.raw_payload;
}

-- Whether the unique index on the store and its event id holds an entry
unfoldable pub has_event : Text → Text → List WebhookRow → Bool
has_event store event =
    any (λ row. eq_text row.store_id store && eq_text row.platform_event_id event)

unfoldable pub has_id : Text → List WebhookRow → Bool
has_id id = any (λ row. eq_text row.id id)

-- `EnqueueOutcome`, or the error of the primary key
pub data Enqueued : Type 0 where
  duplicate : Enqueued
  inserted : List WebhookRow → Enqueued
  id_taken : Enqueued

unfoldable pub enqueue : List WebhookRow → NewWebhookEvent → Enqueued
enqueue rows event =
    if has_event event.store_id event.platform_event_id rows
    then duplicate
    else if has_id event.id rows
    then id_taken
    else inserted (new_row event ∷ rows)

abbrev pub set_processed : ℕ → WebhookRow → WebhookRow
set_processed now row = record row {
  status = WebhookEventStatus.processed;
  processed_at = some now;
  locked_at = none;
  last_error = none;
}

unfoldable pub mark_processed : List WebhookRow → Text → ℕ → List WebhookRow
mark_processed rows id now = update_where (λ row. eq_text row.id id) (set_processed now) rows

abbrev pub set_skipped : Text → ℕ → WebhookRow → WebhookRow
set_skipped reason now row = record row {
  status = WebhookEventStatus.skipped;
  processed_at = some now;
  locked_at = none;
  last_error = some reason;
}

unfoldable pub mark_skipped : List WebhookRow → Text → Text → ℕ → List WebhookRow
mark_skipped rows id reason now =
    update_where (λ row. eq_text row.id id) (set_skipped reason now) rows

pub data FailureOutcome : Type 0 where
  retrying dead_lettered : FailureOutcome

-- What `markFailed` sets, by the attempts that it read
abbrev pub set_failed : RetryPolicy → ℕ → Text → ℕ → WebhookRow → WebhookRow
set_failed policy attempts error now row =
    if leb policy.max_attempts attempts
    then record row {
      status = WebhookEventStatus.failed;
      locked_at = none;
      last_error = some error;
      next_attempt_at = now;
    }
    else record row {
      status = WebhookEventStatus.pending;
      locked_at = none;
      last_error = some error;
      next_attempt_at = shift now (backoff_ms attempts policy);
    }

abbrev fail_row :
    RetryPolicy
    → List WebhookRow
    → Text
    → Text
    → ℕ
    → Option WebhookRow
    → List WebhookRow × FailureOutcome
fail_row policy rows id error now none = (rows, dead_lettered)
fail_row policy rows id error now (some read) = (
  update_where (λ row. eq_text row.id id) (set_failed policy read.attempts error now) rows,
  if leb policy.max_attempts read.attempts then dead_lettered else retrying,
)

unfoldable pub mark_failed :
    RetryPolicy → List WebhookRow → Text → Text → ℕ → List WebhookRow × FailureOutcome
mark_failed policy rows id error now =
    fail_row policy rows id error now (find (λ row. eq_text row.id id) rows)

abbrev pub set_requeued : ℕ → WebhookRow → WebhookRow
set_requeued now row = record row {
  status = WebhookEventStatus.pending;
  attempts = 0;
  locked_at = none;
  next_attempt_at = now;
  processed_at = none;
}

abbrev pub is_dead : Text → WebhookRow → Bool
is_dead id row = eq_text row.id id && is_failed row.status

unfoldable pub requeue : List WebhookRow → Text → ℕ → List WebhookRow × Bool
requeue rows id now = (update_where (is_dead id) (set_requeued now) rows, any (is_dead id) rows)
