-- ===== src/Persistence/Queue/Invariant.antt =====
-- What holds of the queue of packages/persistence/src/repositories/webhook-event.repository.ts in
-- every state that its methods reach.
pub mod Marks
pub mod Reaping
pub mod Reached
use ghalla.Base.{
  ℕ, ◌+◌, ◌≤◌, ◌≡◌, sym, subst, Bool, true, List, if◌then◌else◌, is_some, All, All-both,
}
use ghalla.Base.Dict.{Unique}
use ghalla.Persistence.Queue.{
  WebhookEventStatus, WebhookRow, RetryPolicy, update_where, is_pending, is_processing,
}
use ghalla.Persistence.Queue.Claim.{HasUniqueIds}
use ghalla.Persistence.Queue.Rows.{
  log_of, IsDistinct, KeepsIdentity, update_where-ids, update_where-log, update_where-All,
}

-- One more attempt is left to a row that waits.
abbrev pub attempts_to_come : WebhookEventStatus → ℕ
attempts_to_come status = if is_pending status then 1 else 0

-- A row is locked exactly while it is being worked on, and its attempts stay within the policy's.
abbrev pub RowIsValid : RetryPolicy → WebhookRow → Type 0
RowIsValid policy row =
    (is_processing row.status ≡ is_some row.locked_at)
    × (row.attempts + attempts_to_come row.status ≤ policy.max_attempts)

pub record QueueIsValid (policy : RetryPolicy) (rows : List WebhookRow) : Type 0 where
  pub each : All (RowIsValid policy) rows
  pub ids : HasUniqueIds rows
  pub events : IsDistinct (log_of rows)

module _ (policy : RetryPolicy) where
  -- An update is checked row by row.
  pub update_where-QueueIsValid :
      (P : WebhookRow → Type 0) (test : WebhookRow → Bool) (set : WebhookRow → WebhookRow)
      → KeepsIdentity set
      → ((row : WebhookRow)
          → RowIsValid policy row
          → P row
          → test row ≡ true
          → RowIsValid policy (set row))
      → (rows : List WebhookRow) → All P rows
      → QueueIsValid policy rows
      → QueueIsValid policy (update_where test set rows)
  update_where-QueueIsValid P test set keeps changed rows p v = record {
    each =
        update_where-All (λ row. RowIsValid policy row × P row) (RowIsValid policy) test set
          (λ row q hit. changed row q.0 q.1 hit) (λ row q miss. q.0) rows
          (All-both (RowIsValid policy) P rows v.each p);
    ids = subst Unique (sym (update_where-ids test set keeps rows)) v.ids;
    events = subst IsDistinct (sym (update_where-log test set keeps rows)) v.events;
  }
