-- ===== src/Persistence/Queue/Claim.antt =====
-- `claim`, `reapStale` and `countByStatus` of
-- packages/persistence/src/repositories/webhook-event.repository.ts.
use ghalla.Base.{
  ℕ, ◌+◌, ◌-◌, ◌≡◌, Bool, true, false, ◌&&◌, List, [], ◌∷◌, Option, none, some, map, if◌then◌else◌,
  leb, ltb, filter, length, is_empty, All,
}
use ghalla.Base.Text.{Text, lit, eq_text}
use ghalla.Base.Dict.{has, Unique}
use ghalla.Persistence.Queue.{
  WebhookEventStatus, WebhookRow, RetryPolicy, backoff_ms, shift, update_where, is_pending,
  is_processing,
}

abbrev pub row_ids : List WebhookRow → List Text
row_ids = map (λ (row : WebhookRow). row.id)

-- The primary key
abbrev pub HasUniqueIds : List WebhookRow → Type 0
HasUniqueIds rows = Unique (row_ids rows)

-- `status = 'pending' AND next_attempt_at <= at`
abbrev pub is_due : ℕ → WebhookRow → Bool
is_due now row = is_pending row.status && leb row.next_attempt_at now

-- `SELECT id … WHERE … ORDER BY … LIMIT … FOR UPDATE SKIP LOCKED`, which the database answers: of
-- rows that tie, and of rows that another transaction has locked, the choice is its own. A row whose
-- id is selected is due.
pub record DueQuery : Type 0 where
  pub select_due : List WebhookRow → ℕ → ℕ → List Text
  pub selects_due :
      (rows : List WebhookRow) (now limit : ℕ)
      → HasUniqueIds rows
      → All (λ row. has row.id (select_due rows now limit) ≡ true → is_due now row ≡ true) rows

pub record WebhookEventRecord : Type 0 where
  pub id : Text
  pub store_id : Text
  pub platform_event_id : Text
  pub event_type : Text
  pub raw_event_type : Text
  pub received_at : ℕ
  pub attempts : ℕ
  pub raw_payload : Text

abbrev pub set_claimed : ℕ → WebhookRow → WebhookRow
set_claimed now row = record row {
  status = WebhookEventStatus.processing;
  attempts = row.attempts + 1;
  locked_at = some now;
}

abbrev pub record_of : WebhookRow → WebhookEventRecord
record_of row = record {
  id = row.id;
  store_id = row.store_id;
  platform_event_id = row.platform_event_id;
  event_type = row.event_type;
  raw_event_type = row.raw_event_type;
  received_at = row.received_at;
  attempts = row.attempts;
  raw_payload = row.raw_payload;
}

-- The update of the rows that were selected, with the rows that it returns
abbrev pub claim_ids : List WebhookRow → List Text → ℕ → List WebhookRow × List WebhookEventRecord
claim_ids rows ids now =
    let after = update_where (λ row. has row.id ids) (set_claimed now) rows in
    (after, map record_of (filter (λ row. has row.id ids) after))

unfoldable pub claim :
    DueQuery → List WebhookRow → ℕ → ℕ → List WebhookRow × List WebhookEventRecord
claim query rows limit now =
    if leb limit 0
    then (rows, [])
    else let due = query.select_due rows now limit in
      if is_empty due then (rows, []) else claim_ids rows due now

-- `status = 'processing' AND locked_at < cutoff`; a comparison with NULL does not hold
abbrev locked_before : ℕ → Option ℕ → Bool
locked_before cutoff none = false
locked_before cutoff (some at) = ltb at cutoff

abbrev pub is_stale_row : ℕ → WebhookRow → Bool
is_stale_row cutoff row = is_processing row.status && locked_before cutoff row.locked_at

abbrev pub is_exhausted : RetryPolicy → WebhookRow → Bool
is_exhausted policy row = leb policy.max_attempts row.attempts

abbrev pub set_abandoned : ℕ → WebhookRow → WebhookRow
set_abandoned now row = record row {
  status = WebhookEventStatus.failed;
  locked_at = none;
  last_error = some (lit "abandoned by a worker after exhausting its attempts");
  next_attempt_at = now;
}

-- What the loop sets, by the row `read` that was selected before it
abbrev pub set_reclaimed : RetryPolicy → ℕ → WebhookRow → WebhookRow → WebhookRow
set_reclaimed policy now read row = record row {
  status = WebhookEventStatus.pending;
  locked_at = none;
  last_error = some (lit "reclaimed after a worker stopped reporting");
  next_attempt_at = shift now (backoff_ms read.attempts policy);
}

-- The selection, which stands before the transaction. Before the epoch no row is locked, so a cutoff
-- below zero may be zero.
unfoldable pub select_stale : List WebhookRow → ℕ → ℕ → List WebhookRow
select_stale rows stale_after_ms now = filter (is_stale_row (now - stale_after_ms)) rows

unfoldable pub reclaim : RetryPolicy → ℕ → List WebhookRow → List WebhookRow → List WebhookRow
reclaim policy now [] rows = rows
reclaim policy now (read ∷ retry) rows =
    reclaim policy now retry
      (update_where (λ row. eq_text row.id read.id) (set_reclaimed policy now read) rows)

-- The transaction, over a selection that was made before
unfoldable pub release_stale : RetryPolicy → ℕ → List WebhookRow → List WebhookRow → List WebhookRow
release_stale policy now stale rows =
    let dead = row_ids (filter (is_exhausted policy) stale) in
    let retry = filter (λ read. ltb read.attempts policy.max_attempts) stale in
    reclaim policy now retry (
      if is_empty dead
      then rows
      else update_where (λ row. has row.id dead) (set_abandoned now) rows)

-- With no statement of another connection in between
unfoldable pub reap_stale : RetryPolicy → List WebhookRow → ℕ → ℕ → List WebhookRow × ℕ
reap_stale policy rows stale_after_ms now =
    let stale = select_stale rows stale_after_ms now in
    if is_empty stale then (rows, 0) else (release_stale policy now stale rows, length stale)

pub record StatusCounts : Type 0 where
  pub pending : ℕ
  pub processing : ℕ
  pub processed : ℕ
  pub failed : ℕ
  pub skipped : ℕ

abbrev no_rows : StatusCounts
no_rows = record { pending = 0; processing = 0; processed = 0; failed = 0; skipped = 0 }

abbrev pub count_status : WebhookEventStatus → StatusCounts → StatusCounts
count_status WebhookEventStatus.pending counts = record counts { pending = counts.pending + 1 }
count_status WebhookEventStatus.processing counts = record counts {
  processing = counts.processing + 1;
}
count_status WebhookEventStatus.processed counts = record counts {
  processed = counts.processed + 1;
}
count_status WebhookEventStatus.failed counts = record counts { failed = counts.failed + 1 }
count_status WebhookEventStatus.skipped counts = record counts { skipped = counts.skipped + 1 }

unfoldable pub count_by_status : List WebhookRow → StatusCounts
count_by_status [] = no_rows
count_by_status (row ∷ rows) = count_status row.status (count_by_status rows)
