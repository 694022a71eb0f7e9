-- ===== src/Persistence/Queue/Race.antt =====
-- `reapStale` of packages/persistence/src/repositories/webhook-event.repository.ts, with another
-- method between its selection and its updates.
use ghalla.Base.{ℕ, ◌≡◌, ◌<◌, refl, true, false, List, [], ◌∷◌, All, ltb, leb, arith}
use ghalla.Base.Text.{eq_text}
use ghalla.Persistence.Queue.{WebhookEventStatus, WebhookRow, RetryPolicy, mark_processed}
use ghalla.Persistence.Queue.Claim.{reclaim, release_stale, set_reclaimed}
use ghalla.Persistence.Queue.Rows.{update_where-All, anyway}

-- Where a worker completes an event after the reaper has selected its row and before the reaper's
-- transaction, the reaper puts the processed event back into the queue.
pub release_stale-reopens :
    (policy : RetryPolicy) (read : WebhookRow) (rows : List WebhookRow) (completed now : ℕ)
    → read.attempts < policy.max_attempts
    → All
        (λ row. eq_text row.id read.id ≡ true → row.status ≡ WebhookEventStatus.pending)
        (release_stale policy now (read ∷ []) (mark_processed rows read.id completed))
unfolding release_stale reclaim
release_stale-reopens policy read rows completed now room =
    let alive : leb policy.max_attempts read.attempts ≡ false = ground arith in
    let retried : ltb read.attempts policy.max_attempts ≡ true = ground arith in
    rw (alive, retried)
      (update_where-All (λ row. Unit {0})
        (λ row. eq_text row.id read.id ≡ true → row.status ≡ WebhookEventStatus.pending)
        (λ row. eq_text row.id read.id) (set_reclaimed policy now read) (λ row p hit again. refl)
        (λ row p miss hit. absurd (ground arith)) (mark_processed rows read.id completed)
        (anyway (mark_processed rows read.id completed)))
