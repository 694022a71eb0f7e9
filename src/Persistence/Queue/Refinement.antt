-- ===== src/Persistence/Queue/Refinement.antt =====
-- The queue of packages/persistence/src/repositories/webhook-event.repository.ts seen as a log of
-- the deliveries that were accepted.
use ghalla.Base.{
  ℕ, ◌≡◌, refl, sym, ap, ◌∙◌, subst, Bool, true, false, List, [], ◌∷◌, filter, find, leb, ltb,
  is_empty, Bool-cases, Option-cases, inl, inr, if◌then◌else◌,
}
use ghalla.Base.Text.{Text, eq_text}
use ghalla.Base.Dict.{has}
use ghalla.Persistence.Queue.{
  WebhookRow, NewWebhookEvent, RetryPolicy, inserted, enqueue, update_where, has_event, has_id,
  set_processed, set_skipped, set_failed, set_requeued, is_dead, mark_processed, mark_skipped,
  mark_failed, requeue,
}
use ghalla.Persistence.Queue.Claim.{
  DueQuery, claim, set_claimed, set_abandoned, set_reclaimed, select_stale, reclaim, release_stale,
  reap_stale, row_ids, is_exhausted,
}
use ghalla.Persistence.Queue.Steps.{Step, enqueued, claimed, done, ignored, broke, reaped, replayed}
use ghalla.Persistence.Queue.Rows.{Event, knows, log_of, knows-log, update_where-log}
use ghalla.Persistence.Queue.Invariant.Marks.{set_failed-keeps, inserted-injective}

-- What the queue promises: an event that is known is a duplicate, any other is added to the log.
unfoldable pub receive : List Event → Event → List Event × Bool
receive log event = if knows log event then (log, true) else (event ∷ log, false)

-- A step of the log: nothing, or the arrival of an event that was not known
pub data LogStep (before after : List Event) : Type 0 where
  same : after ≡ before → LogStep before after
  arrived : (event : Event) → receive before event ≡ (after, false) → LogStep before after

module _ (policy : RetryPolicy) where
  mark_failed-log :
      (rows : List WebhookRow) (id error : Text) (now : ℕ)
      → log_of (mark_failed policy rows id error now).0 ≡ log_of rows
  unfolding mark_failed
  mark_failed-log rows id error now = elim (Option-cases (find (λ row. eq_text row.id id) rows)) [
    | inl none_such ↦ rw none_such refl
    | inr (read, found) ↦ rw found (
        update_where-log (λ row. eq_text row.id id) (set_failed policy read.attempts error now)
          (set_failed-keeps policy read.attempts error now) rows)
  ]

  reclaim-log :
      (now : ℕ) (retry rows : List WebhookRow)
      → log_of (reclaim policy now retry rows) ≡ log_of rows
  unfolding reclaim
  reclaim-log now [] rows = refl
  reclaim-log now (read ∷ retry) rows =
      reclaim-log now retry
        (update_where (λ row. eq_text row.id read.id) (set_reclaimed policy now read) rows)
      ∙ update_where-log (λ row. eq_text row.id read.id) (set_reclaimed policy now read)
          (λ row. (refl, refl)) rows

  release_stale-log :
      (now : ℕ) (stale rows : List WebhookRow)
      → log_of (release_stale policy now stale rows) ≡ log_of rows
  unfolding release_stale
  release_stale-log now stale rows =
      let dead = row_ids (filter (is_exhausted policy) stale) in
      let retry = filter (λ read. ltb read.attempts policy.max_attempts) stale in
      elim (Bool-cases (is_empty dead)) [
        | inl nobody ↦ rw nobody (reclaim-log now retry rows)
        | inr somebody ↦ rw somebody (
            reclaim-log now retry (update_where (λ row. has row.id dead) (set_abandoned now) rows)
            ∙ update_where-log (λ row. has row.id dead) (set_abandoned now) (λ row. (refl, refl))
                rows)
      ]

  reap_stale-log :
      (rows : List WebhookRow) (stale_after_ms now : ℕ)
      → log_of (reap_stale policy rows stale_after_ms now).0 ≡ log_of rows
  unfolding reap_stale
  reap_stale-log rows stale_after_ms now =
      let stale = select_stale rows stale_after_ms now in
      elim (Bool-cases (is_empty stale)) [
        | inl nothing ↦ rw nothing refl
        | inr some_stale ↦ rw some_stale (release_stale-log now stale rows)
      ]

claim-log :
    (query : DueQuery) (rows : List WebhookRow) (limit now : ℕ)
    → log_of (claim query rows limit now).0 ≡ log_of rows
unfolding claim
claim-log query rows limit now =
    let ids = query.select_due rows now limit in
    elim (Bool-cases (leb limit 0)) [
      | inl nothing ↦ rw nothing refl
      | inr left ↦ elim (Bool-cases (is_empty ids)) [
        | inl nothing ↦ rw (left, nothing) refl
        | inr due ↦
            rw (left, due)
              (update_where-log (λ row. has row.id ids) (set_claimed now) (λ row. (refl, refl))
                rows)
      ]
    ]

enqueue-LogStep :
    (rows : List WebhookRow) (event : NewWebhookEvent) {after : List WebhookRow}
    → enqueue rows event ≡ inserted after
    → LogStep (log_of rows) (log_of after)
unfolding enqueue receive
enqueue-LogStep rows event {after} h =
    elim (Bool-cases (has_event event.store_id event.platform_event_id rows)) [
      | inl old ↦ absurd (let e = rw old at h in cc)
      | inr new ↦ elim (Bool-cases (has_id event.id rows)) [
        | inl taken ↦ absurd (let e = rw (new, taken) at h in cc)
        | inr fresh ↦
            subst (λ (table : List WebhookRow). LogStep (log_of rows) (log_of table))
              (inserted-injective (rw (new, fresh) at h))
              (arrived (event.store_id, event.platform_event_id)
                (rw (sym (knows-log event.store_id event.platform_event_id rows) ∙ new) refl))
      ]
    ]

-- Every step of the queue is a step of the log: it accepts one event that was not known to the log,
-- or it leaves the log as it was. So no event of a store is ever accepted twice, and none is lost.
pub Step-LogStep :
    {query : DueQuery} {policy : RetryPolicy} {before after : List WebhookRow}
    → Step query policy before after
    → LogStep (log_of before) (log_of after)
unfolding mark_processed mark_skipped requeue
Step-LogStep {before} (enqueued event e) = enqueue-LogStep before event e
Step-LogStep {query} {before} (claimed limit now e) =
    same (ap log_of (sym e) ∙ claim-log query before limit now)
Step-LogStep {before} (done id now e) = same (
    ap log_of (sym e)
    ∙ update_where-log (λ row. eq_text row.id id) (set_processed now) (λ row. (refl, refl)) before)
Step-LogStep {before} (ignored id reason now e) = same (
    ap log_of (sym e)
    ∙ update_where-log (λ row. eq_text row.id id) (set_skipped reason now) (λ row. (refl, refl))
        before)
Step-LogStep {policy} {before} (broke id error now e) =
    same (ap log_of (sym e) ∙ mark_failed-log policy before id error now)
Step-LogStep {policy} {before} (reaped stale_after_ms now e) =
    same (ap log_of (sym e) ∙ reap_stale-log policy before stale_after_ms now)
Step-LogStep {before} (replayed id now e) = same (
    ap log_of (sym e)
    ∙ update_where-log (is_dead id) (set_requeued now) (λ row. (refl, refl)) before)
