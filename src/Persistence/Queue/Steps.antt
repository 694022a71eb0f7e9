-- ===== src/Persistence/Queue/Steps.antt =====
-- The queue of packages/persistence/src/repositories/webhook-event.repository.ts as a state machine:
-- any sequence of its methods, each run whole, from an empty table.
use ghalla.Base.{ℕ, ◌≡◌, List, []}
use ghalla.Base.Text.{Text}
use ghalla.Persistence.Queue.{
  WebhookRow, NewWebhookEvent, RetryPolicy, inserted, enqueue, mark_processed, mark_skipped,
  mark_failed, requeue,
}
use ghalla.Persistence.Queue.Claim.{DueQuery, claim, reap_stale}

pub data Step (query : DueQuery) (policy : RetryPolicy) (before after : List WebhookRow)
    : Type 0 where
  enqueued :
      (event : NewWebhookEvent)
      → enqueue before event ≡ inserted after
      → Step query policy before after
  claimed :
      (limit now : ℕ) → (claim query before limit now).0 ≡ after → Step query policy before after
  done :
      (id : Text) (now : ℕ) → mark_processed before id now ≡ after → Step query policy before after
  ignored :
      (id reason : Text) (now : ℕ)
      → mark_skipped before id reason now ≡ after
      → Step query policy before after
  broke :
      (id error : Text) (now : ℕ)
      → (mark_failed policy before id error now).0 ≡ after
      → Step query policy before after
  reaped :
      (stale_after_ms now : ℕ)
      → (reap_stale policy before stale_after_ms now).0 ≡ after
      → Step query policy before after
  replayed :
      (id : Text) (now : ℕ) → (requeue before id now).0 ≡ after → Step query policy before after

pub data Reach (query : DueQuery) (policy : RetryPolicy) : List WebhookRow → Type 0 where
  start : Reach query policy []
  next :
      {before after : List WebhookRow}
      → Reach query policy before
      → Step query policy before after
      → Reach query policy after
