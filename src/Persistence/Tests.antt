-- ===== src/Persistence/Tests.antt =====
-- Runs of the repositories.
use ghalla.Base.{
  ℕ, ◌+◌, ◌≡◌, refl, sym, ap, subst, Bool, true, false, List, [], ◌∷◌, All, leb, if◌then◌else◌,
  Bool-cases, inl, inr, arith,
}
use ghalla.Base.Text.{Text, lit, eq_text}
use ghalla.Base.Dict.{has, Apart}
use ghalla.Persistence.Queue.{
  WebhookEventStatus, NewWebhookEvent, WebhookRow, RetryPolicy, default_retry_policy, backoff_ms,
  enqueue, has_event, has_id, new_row, mark_processed,
}
use ghalla.Persistence.Queue.Claim.{
  DueQuery, WebhookEventRecord, row_ids, is_due, claim, HasUniqueIds, release_stale,
}
use ghalla.Persistence.Queue.Steps.{Step, Reach, enqueued, start, next}
use ghalla.Persistence.Queue.Rows.{log_of}
use ghalla.Persistence.Queue.Invariant.{QueueIsValid}
use ghalla.Persistence.Queue.Invariant.Reached.{Reach-QueueIsValid}
use ghalla.Persistence.Queue.Refinement.{LogStep, Step-LogStep}
use ghalla.Persistence.Queue.Exclusive.{record_ids, claim-claim}
use ghalla.Persistence.Queue.Retries.{keep_failing, keep_failing-dead_letters}
use ghalla.Persistence.Queue.Race.{release_stale-reopens}
use ghalla.Base.Int.{negsuc}
use ghalla.Base.Result.{ok}
use ghalla.Persistence.MoneyColumn.{minor_to_numeric, numeric_to_minor}
use ghalla.Persistence.MoneyColumn.RoundTrip.{numeric_to_minor-minor_to_numeric}

-- A database that offers the newest row, where it is due
abbrev select_newest : List WebhookRow → ℕ → ℕ → List Text
select_newest [] now limit = []
select_newest (row ∷ rows) now limit = if is_due now row then row.id ∷ [] else []

others :
    (id : Text) (now : ℕ) (rows : List WebhookRow)
    → Apart id (row_ids rows)
    → All (λ row. has row.id (id ∷ []) ≡ true → is_due now row ≡ true) rows
unfolding has
others id now [] p = tt
others id now (row ∷ rows) p = ((λ h. absurd (ground (arith, p.0))), others id now rows p.1)

none_selected :
    (now : ℕ) (rows : List WebhookRow)
    → All (λ row. has row.id [] ≡ true → is_due now row ≡ true) rows
unfolding has
none_selected now [] = tt
none_selected now (row ∷ rows) = ((λ h. cc), none_selected now rows)

newest_due :
    (rows : List WebhookRow) (now limit : ℕ)
    → HasUniqueIds rows
    → All (λ row. has row.id (select_newest rows now limit) ≡ true → is_due now row ≡ true) rows
newest_due [] now limit u = tt
newest_due (row ∷ rows) now limit u =
    let chosen : Bool → List Text = λ b. if b then row.id ∷ [] else [] in
    let goal : List Text → Type 0 =
      λ ids. All (λ (r : WebhookRow). has r.id ids ≡ true → is_due now r ≡ true) (row ∷ rows) in
    elim (Bool-cases (is_due now row)) [
      | inl due ↦ subst goal (sym (ap chosen due)) ((λ h. due), others row.id now rows u.0)
      | inr waits ↦ subst goal (sym (ap chosen waits)) (none_selected now (row ∷ rows))
    ]

abbrev newest : DueQuery
newest = record { select_due = select_newest; selects_due = newest_due }

abbrev event : Text → Text → NewWebhookEvent
event id key = record {
  id = id;
  store_id = lit "store";
  platform_event_id = key;
  event_type = lit "order.created";
  raw_event_type = lit "order.created";
  received_at = 1000;
  raw_payload = [];
}

abbrev first : NewWebhookEvent
first = event (lit "a") (lit "e1")

abbrev second : NewWebhookEvent
second = event (lit "b") (lit "e2")

abbrev two_rows : List WebhookRow
two_rows = new_row second ∷ new_row first ∷ []

enqueue_twice : enqueue two_rows (event (lit "c") (lit "e1")) ≡ ghalla.Persistence.Queue.duplicate
unfolding enqueue has_event eq_text
enqueue_twice = refl

one-Step : Step newest default_retry_policy [] (new_row first ∷ [])
unfolding enqueue has_event has_id
one-Step = enqueued first refl

two-Step : Step newest default_retry_policy (new_row first ∷ []) two_rows
unfolding enqueue has_event has_id eq_text
two-Step = enqueued second refl

abbrev two_reached : Reach newest default_retry_policy two_rows
two_reached = next (next start one-Step) two-Step

Reach-QueueIsValid_example : QueueIsValid default_retry_policy two_rows
Reach-QueueIsValid_example = Reach-QueueIsValid (omega arith) two_reached

Step-LogStep_example : LogStep (log_of (new_row first ∷ [])) (log_of two_rows)
Step-LogStep_example = Step-LogStep two-Step

two_rows-HasUniqueIds : HasUniqueIds two_rows
unfolding eq_text
two_rows-HasUniqueIds = ((refl, tt), (tt, tt))

claim-claim_example :
    All
      (λ (e : WebhookEventRecord).
        has e.id (record_ids (claim newest (claim newest two_rows 5 2000).0 5 3000).1) ≡ false)
      (claim newest two_rows 5 2000).1
claim-claim_example = claim-claim newest two_rows 5 2000 5 3000 two_rows-HasUniqueIds

backoff_run : backoff_ms 3 default_retry_policy ≡ 40000
unfolding backoff_ms
backoff_run = refl

abbrev strict : RetryPolicy
strict = record { base_delay_ms = 10; max_delay_ms = 100; max_attempts = 2 }

keep_failing-dead_letters_example :
    ((keep_failing strict (lit "503") ((2000, 2001) ∷ (3000, 3001) ∷ []) (new_row first)).attempts
      ≡ 0 + 2)
    × ((keep_failing strict (lit "503") ((2000, 2001) ∷ (3000, 3001) ∷ []) (new_row first)).status
        ≡ (if leb 2 (0 + 2) then WebhookEventStatus.failed else WebhookEventStatus.pending))
keep_failing-dead_letters_example =
    keep_failing-dead_letters strict (lit "503") ((2000, 2001) ∷ (3000, 3001) ∷ []) (new_row first)
      refl (omega arith) (omega arith)

release_stale-reopens_example :
    All
      (λ (row : WebhookRow).
        eq_text row.id (lit "a") ≡ true → row.status ≡ WebhookEventStatus.pending)
      (release_stale default_retry_policy 9000
        (new_row first ∷ [])
        (mark_processed two_rows (lit "a") 8000))
release_stale-reopens_example =
    release_stale-reopens default_retry_policy (new_row first) two_rows 8000 9000 (omega arith)

column_run : minor_to_numeric (negsuc 4) ≡ lit "-0.05"
unfolding minor_to_numeric
column_run = refl

numeric_to_minor-minor_to_numeric_example : numeric_to_minor (lit "-123.45") ≡ ok (negsuc 12344)
unfolding minor_to_numeric
numeric_to_minor-minor_to_numeric_example =
    numeric_to_minor-minor_to_numeric (negsuc 12344) (omega arith)
