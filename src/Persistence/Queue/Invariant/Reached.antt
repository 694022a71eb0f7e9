-- ===== src/Persistence/Queue/Invariant/Reached.antt =====
-- The queue in every state that its methods reach.
use ghalla.Base.{◌≤◌, subst, List}
use ghalla.Persistence.Queue.{WebhookRow, RetryPolicy}
use ghalla.Persistence.Queue.Claim.{DueQuery}
use ghalla.Persistence.Queue.Steps.{
  Step, Reach, enqueued, claimed, done, ignored, broke, reaped, replayed, start, next,
}
use ghalla.Persistence.Queue.Invariant.{QueueIsValid}
use ghalla.Persistence.Queue.Invariant.Marks.{
  enqueue-QueueIsValid, mark_processed-QueueIsValid, mark_skipped-QueueIsValid,
  mark_failed-QueueIsValid, requeue-QueueIsValid,
}
use ghalla.Persistence.Queue.Invariant.Reaping.{claim-QueueIsValid, reap_stale-QueueIsValid}

module _ {query : DueQuery} {policy : RetryPolicy} (one : 1 ≤ policy.max_attempts) where
  Step-QueueIsValid :
      {before after : List WebhookRow}
      → Step query policy before after
      → QueueIsValid policy before
      → QueueIsValid policy after
  Step-QueueIsValid {before} (enqueued event e) v = enqueue-QueueIsValid policy before event one e v
  Step-QueueIsValid {before} (claimed limit now e) v =
      subst (QueueIsValid policy) e (claim-QueueIsValid policy query before limit now v)
  Step-QueueIsValid {before} (done id now e) v =
      subst (QueueIsValid policy) e (mark_processed-QueueIsValid policy before id now v)
  Step-QueueIsValid {before} (ignored id reason now e) v =
      subst (QueueIsValid policy) e (mark_skipped-QueueIsValid policy before id reason now v)
  Step-QueueIsValid {before} (broke id error now e) v =
      subst (QueueIsValid policy) e (mark_failed-QueueIsValid policy before id error now v)
  Step-QueueIsValid {before} (reaped stale_after_ms now e) v =
      subst (QueueIsValid policy) e (reap_stale-QueueIsValid policy before stale_after_ms now v)
  Step-QueueIsValid {before} (replayed id now e) v =
      subst (QueueIsValid policy) e (requeue-QueueIsValid policy before id now one v)

  -- Where the policy allows an attempt, every state that the methods reach has distinct ids and at
  -- most one row for each event of a store; a row is locked exactly while it is being processed; and
  -- no row has more attempts than the policy allows, with one still left to a row that waits.
  pub Reach-QueueIsValid :
      {rows : List WebhookRow} → Reach query policy rows → QueueIsValid policy rows
  Reach-QueueIsValid start = record { each = tt; ids = tt; events = tt }
  Reach-QueueIsValid (next earlier step) = Step-QueueIsValid step (Reach-QueueIsValid earlier)
