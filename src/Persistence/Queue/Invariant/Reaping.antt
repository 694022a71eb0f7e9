-- ===== src/Persistence/Queue/Invariant/Reaping.antt =====
-- The invariant of the queue under the methods that claim and reap rows.
use ghalla.Base.{
  ℕ, ◌-◌, ◌≡◌, refl, ap, Bool, true, List, [], ◌∷◌, leb, ltb, filter, is_empty, All, All-filter,
  filter-All, All-weaken, All-swap, ltb→lt, ◌<◌, Bool-cases, inl, inr, arith,
}
use ghalla.Base.Text.{eq_text}
use ghalla.Base.Dict.{has}
use ghalla.Persistence.Queue.{WebhookRow, RetryPolicy, update_where, is_pending}
use ghalla.Persistence.Queue.Claim.{
  DueQuery, row_ids, is_due, claim, set_claimed, is_stale_row, is_exhausted, set_abandoned,
  set_reclaimed, select_stale, reclaim, release_stale, reap_stale,
}
use ghalla.Persistence.Queue.Rows.{update_where-All, anyway, IsRowOf, HasUniqueIds-rows}
use ghalla.Persistence.Queue.Invariant.{RowIsValid, QueueIsValid, update_where-QueueIsValid}

module _ (policy : RetryPolicy) where
  due-RowIsValid :
      (now : ℕ) (row : WebhookRow)
      → RowIsValid policy row
      → is_due now row ≡ true
      → RowIsValid policy (set_claimed now row)
  due-RowIsValid now row v due = elim (Bool-cases (is_pending row.status)) [
    | inl waits ↦ (refl, ground (arith, v.1))
    | inr other ↦ absurd (ground arith)
  ]

  pub claim-QueueIsValid :
      (query : DueQuery) (rows : List WebhookRow) (limit now : ℕ)
      → QueueIsValid policy rows
      → QueueIsValid policy (claim query rows limit now).0
  unfolding claim
  claim-QueueIsValid query rows limit now v =
      let ids = query.select_due rows now limit in
      elim (Bool-cases (leb limit 0)) [
        | inl nothing ↦ rw nothing v
        | inr some_left ↦ elim (Bool-cases (is_empty ids)) [
          | inl nothing ↦ rw (some_left, nothing) v
          | inr some_due ↦
              rw (some_left, some_due)
                (update_where-QueueIsValid policy
                  (λ row. has row.id ids ≡ true → is_due now row ≡ true) (λ row. has row.id ids)
                  (set_claimed now) (λ row. (refl, refl))
                  (λ row p due hit. due-RowIsValid now row p (due hit)) rows
                  (query.selects_due rows now limit v.ids) v)
        ]
      ]

  -- The rows that were read are still there, but for their status.
  abbrev HasAttemptsOf : List WebhookRow → WebhookRow → Type 0
  HasAttemptsOf reads row =
      All (λ (read : WebhookRow). eq_text row.id read.id ≡ true → row.attempts ≡ read.attempts)
        reads

  abbrev IsOpen : WebhookRow → Type 0
  IsOpen read = read.attempts < policy.max_attempts

  pub reclaim-QueueIsValid :
      (now : ℕ) (retry rows : List WebhookRow)
      → All IsOpen retry
      → All (HasAttemptsOf retry) rows
      → QueueIsValid policy rows
      → QueueIsValid policy (reclaim policy now retry rows)
  unfolding reclaim
  reclaim-QueueIsValid now [] rows room agree v = v
  reclaim-QueueIsValid now (read ∷ retry) rows room agree v =
      reclaim-QueueIsValid now retry
        (update_where (λ row. eq_text row.id read.id) (set_reclaimed policy now read) rows) room.1
        (update_where-All (HasAttemptsOf (read ∷ retry)) (HasAttemptsOf retry)
          (λ row. eq_text row.id read.id) (set_reclaimed policy now read) (λ row p hit. p.1)
          (λ row p miss. p.1) rows agree)
        (update_where-QueueIsValid policy (HasAttemptsOf (read ∷ retry))
          (λ row. eq_text row.id read.id) (set_reclaimed policy now read) (λ row. (refl, refl))
          (λ row p q hit. (refl, omega (arith, q.0 hit, room.0))) rows agree v)

  attempts_of :
      (read row : WebhookRow)
      → IsRowOf read row
      → eq_text row.id read.id ≡ true
      → row.attempts ≡ read.attempts
  attempts_of read row one same = ap (λ (r : WebhookRow). r.attempts) (one same)

  reads-HasAttemptsOf :
      (reads rows : List WebhookRow)
      → All (λ read. All (IsRowOf read) rows) reads
      → All (HasAttemptsOf reads) rows
  reads-HasAttemptsOf reads rows one =
      All-weaken (λ row. All (λ read. IsRowOf read row) reads) (HasAttemptsOf reads) rows
        (λ row p.
          All-weaken (λ read. IsRowOf read row)
            (λ read. eq_text row.id read.id ≡ true → row.attempts ≡ read.attempts) reads
            (λ read q. attempts_of read row q) p)
        (All-swap IsRowOf reads rows one)

  abbrev still_open : WebhookRow → Bool
  still_open read = ltb read.attempts policy.max_attempts

  tests : (reads : List WebhookRow) → All (λ read. still_open read ≡ true → IsOpen read) reads
  tests [] = tt
  tests (read ∷ reads) = (ltb→lt read.attempts policy.max_attempts, tests reads)

  all-IsOpen : (reads : List WebhookRow) → All IsOpen (filter still_open reads)
  all-IsOpen reads = filter-All IsOpen still_open reads (tests reads)

  pub release_stale-QueueIsValid :
      (now : ℕ) (stale rows : List WebhookRow)
      → All (λ read. All (IsRowOf read) rows) stale
      → QueueIsValid policy rows
      → QueueIsValid policy (release_stale policy now stale rows)
  unfolding release_stale
  release_stale-QueueIsValid now stale rows one v =
      let dead = row_ids (filter (is_exhausted policy) stale) in
      let retry = filter still_open stale in
      let agree =
        reads-HasAttemptsOf retry rows
          (All-filter (λ read. All (IsRowOf read) rows) still_open stale one) in
      elim (Bool-cases (is_empty dead)) [
        | inl nobody ↦ rw nobody (reclaim-QueueIsValid now retry rows (all-IsOpen stale) agree v)
        | inr somebody ↦ rw somebody (
            reclaim-QueueIsValid now retry
              (update_where (λ row. has row.id dead) (set_abandoned now) rows) (all-IsOpen stale)
              (update_where-All (HasAttemptsOf retry) (HasAttemptsOf retry) (λ row. has row.id dead)
                (set_abandoned now) (λ row p hit. p) (λ row p miss. p) rows agree)
              (update_where-QueueIsValid policy (λ row. Unit {0}) (λ row. has row.id dead)
                (set_abandoned now) (λ row. (refl, refl)) (λ row p q hit. (refl, omega arith)) rows
                (anyway rows) v))
      ]

  pub reap_stale-QueueIsValid :
      (rows : List WebhookRow) (stale_after_ms now : ℕ)
      → QueueIsValid policy rows
      → QueueIsValid policy (reap_stale policy rows stale_after_ms now).0
  unfolding reap_stale select_stale
  reap_stale-QueueIsValid rows stale_after_ms now v =
      let stale = select_stale rows stale_after_ms now in
      elim (Bool-cases (is_empty stale)) [
        | inl nothing ↦ rw nothing v
        | inr some_stale ↦ rw some_stale (
            release_stale-QueueIsValid now stale rows
              (All-filter (λ read. All (IsRowOf read) rows) (is_stale_row (now - stale_after_ms))
                rows (HasUniqueIds-rows rows v.ids))
              v)
      ]
