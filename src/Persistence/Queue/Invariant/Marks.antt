-- ===== src/Persistence/Queue/Invariant/Marks.antt =====
-- The invariant of the queue under the methods that add or settle one event.
use ghalla.Base.{
  ℕ, ◌≤◌, ◌≡◌, refl, sym, ap, ◌∙◌, subst, true, false, List, [], ◌∷◌, leb, find, All, find-All,
  Bool-cases, leb-false→lt, Option-cases, inl, inr, arith,
}
use ghalla.Base.Text.{Text, eq_text, eq_text_iff}
use ghalla.Base.Dict.{Apart}
use ghalla.Persistence.Queue.{
  WebhookRow, NewWebhookEvent, RetryPolicy, Enqueued, duplicate, id_taken, inserted, is_dead,
  has_event, has_id, enqueue, set_processed, set_skipped, set_failed, set_requeued, mark_processed,
  mark_skipped, mark_failed, requeue,
}
use ghalla.Persistence.Queue.Claim.{row_ids}
use ghalla.Persistence.Queue.Rows.{KeepsIdentity, anyway, IsRowOf, HasUniqueIds-rows, knows-log}
use ghalla.Persistence.Queue.Invariant.{RowIsValid, QueueIsValid, update_where-QueueIsValid}

inserted_or : List WebhookRow → Enqueued → List WebhookRow
inserted_or rows duplicate = rows
inserted_or rows (inserted after) = after
inserted_or rows id_taken = rows

pub inserted-injective : {a b : List WebhookRow} → inserted a ≡ inserted b → a ≡ b
unfolding inserted_or
inserted-injective {a} h = ap (inserted_or a) h

pub same_id :
    (row read : WebhookRow) (id : Text)
    → eq_text row.id id ≡ true
    → eq_text read.id id ≡ true
    → eq_text row.id read.id ≡ true
same_id row read id h k =
    ground (arith, eq_text_iff row.id id, eq_text_iff read.id id, eq_text_iff row.id read.id)

module _ (policy : RetryPolicy) where
  has_id-row_ids :
      (id : Text) (rows : List WebhookRow) → has_id id rows ≡ false → Apart id (row_ids rows)
  unfolding has_id
  has_id-row_ids id [] h = tt
  has_id-row_ids id (row ∷ rows) h = (
    ground (arith, eq_text_iff id row.id, eq_text_iff row.id id),
    has_id-row_ids id rows (ground arith),
  )

  pub enqueue-QueueIsValid :
      (rows : List WebhookRow) (event : NewWebhookEvent) {after : List WebhookRow}
      → 1 ≤ policy.max_attempts
      → enqueue rows event ≡ inserted after
      → QueueIsValid policy rows
      → QueueIsValid policy after
  unfolding enqueue
  enqueue-QueueIsValid rows event {after} one h v =
      elim (Bool-cases (has_event event.store_id event.platform_event_id rows)) [
        | inl old ↦ absurd (let e = rw old at h in cc)
        | inr new ↦ elim (Bool-cases (has_id event.id rows)) [
          | inl taken ↦ absurd (let e = rw (new, taken) at h in cc)
          | inr fresh ↦
              subst (QueueIsValid policy) (inserted-injective (rw (new, fresh) at h)) (record {
                each = ((refl, omega arith), v.each);
                ids = (has_id-row_ids event.id rows fresh, v.ids);
                events =
                    (sym (knows-log event.store_id event.platform_event_id rows) ∙ new, v.events);
              })
        ]
      ]

  pub mark_processed-QueueIsValid :
      (rows : List WebhookRow) (id : Text) (now : ℕ)
      → QueueIsValid policy rows
      → QueueIsValid policy (mark_processed rows id now)
  unfolding mark_processed
  mark_processed-QueueIsValid rows id now v =
      update_where-QueueIsValid policy (λ row. Unit {0}) (λ row. eq_text row.id id)
        (set_processed now) (λ row. (refl, refl)) (λ row p q hit. (refl, omega arith)) rows
        (anyway rows) v

  pub mark_skipped-QueueIsValid :
      (rows : List WebhookRow) (id reason : Text) (now : ℕ)
      → QueueIsValid policy rows
      → QueueIsValid policy (mark_skipped rows id reason now)
  unfolding mark_skipped
  mark_skipped-QueueIsValid rows id reason now v =
      update_where-QueueIsValid policy (λ row. Unit {0}) (λ row. eq_text row.id id)
        (set_skipped reason now) (λ row. (refl, refl)) (λ row p q hit. (refl, omega arith)) rows
        (anyway rows) v

  pub requeue-QueueIsValid :
      (rows : List WebhookRow) (id : Text) (now : ℕ)
      → 1 ≤ policy.max_attempts
      → QueueIsValid policy rows
      → QueueIsValid policy (requeue rows id now).0
  unfolding requeue
  requeue-QueueIsValid rows id now one v =
      update_where-QueueIsValid policy (λ row. Unit {0}) (λ row. is_dead id row) (set_requeued now)
        (λ row. (refl, refl)) (λ row p q hit. (refl, omega arith)) rows (anyway rows) v

  pub set_failed-keeps :
      (read : ℕ) (error : Text) (now : ℕ) → KeepsIdentity (set_failed policy read error now)
  set_failed-keeps read error now row = elim (Bool-cases (leb policy.max_attempts read)) [
    | inl out ↦ rw out (refl, refl)
    | inr left ↦ rw left (refl, refl)
  ]

  set_failed-RowIsValid :
      (read : WebhookRow) (error : Text) (now : ℕ) (row : WebhookRow)
      → RowIsValid policy row
      → row ≡ read
      → RowIsValid policy (set_failed policy read.attempts error now row)
  set_failed-RowIsValid read error now row valid same =
      let as_read : row.attempts ≡ read.attempts = ap (λ (r : WebhookRow). r.attempts) same in
      elim (Bool-cases (leb policy.max_attempts read.attempts)) [
        | inl out ↦ rw out (refl, omega arith)
        | inr left ↦
            rw left
              (refl, omega (arith, leb-false→lt policy.max_attempts read.attempts left, as_read))
      ]

  pub mark_failed-QueueIsValid :
      (rows : List WebhookRow) (id error : Text) (now : ℕ)
      → QueueIsValid policy rows
      → QueueIsValid policy (mark_failed policy rows id error now).0
  unfolding mark_failed
  mark_failed-QueueIsValid rows id error now v =
      elim (Option-cases (find (λ row. eq_text row.id id) rows)) [
        | inl none_such ↦ rw none_such v
        | inr (read, found) ↦
            let (one, hit) =
              find-All (λ read. All (IsRowOf read) rows) (λ row. eq_text row.id id) rows
                (HasUniqueIds-rows rows v.ids) found in
            rw found (
              update_where-QueueIsValid policy (IsRowOf read) (λ row. eq_text row.id id)
                (set_failed policy read.attempts error now)
                (set_failed-keeps read.attempts error now)
                (λ row p q same.
                  set_failed-RowIsValid read error now row p (q (same_id row read id same hit)))
                rows one v)
      ]
