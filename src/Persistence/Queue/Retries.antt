-- ===== src/Persistence/Queue/Retries.antt =====
-- `backoffMs` and `markFailed` of
-- packages/persistence/src/repositories/webhook-event.repository.ts: an event that keeps failing.
use ghalla.Base.{
  ℕ, zero, suc, ◌+◌, ◌-◌, ◌*◌, ◌^◌, min, ◌≤◌, ◌<◌, ◌≡◌, refl, ap, ◌∙◌, true, false, List, [], ◌∷◌,
  length, leb, if◌then◌else◌, Bool-cases, inl, inr, arith,
}
use ghalla.Base.Text.{Text}
use ghalla.Persistence.Queue.{WebhookEventStatus, WebhookRow, RetryPolicy, backoff_ms, set_failed}
use ghalla.Persistence.Queue.Claim.{is_due, set_claimed}

power_pos : (n : ℕ) → 1 ≤ 2 ^ n
power_pos zero = omega arith
power_pos (suc n) = omega (arith, power_pos n)

-- A retry waits at least the first delay, or the longest where that is shorter, and at most the
-- longest.
pub backoff_ms-between :
    (attempts : ℕ) (policy : RetryPolicy)
    → (min policy.base_delay_ms policy.max_delay_ms ≤ backoff_ms attempts policy)
      × (backoff_ms attempts policy ≤ policy.max_delay_ms)
unfolding backoff_ms
backoff_ms-between attempts policy =
    let factor = 2 ^ min (attempts - 1) 40 in
    let grows : policy.base_delay_ms ≤ policy.base_delay_ms * factor =
      grind (arith, power_pos (min (attempts - 1) 40)) in
    (omega (arith, grows), omega arith)

-- A row that is claimed at the first time and fails at the second
abbrev pub claim_and_fail : RetryPolicy → Text → ℕ × ℕ → WebhookRow → WebhookRow
claim_and_fail policy error (start, end) row =
    let claimed = set_claimed start row in set_failed policy claimed.attempts error end claimed

-- A row whose every attempt fails
abbrev pub keep_failing : RetryPolicy → Text → List (ℕ × ℕ) → WebhookRow → WebhookRow
keep_failing policy error [] row = row
keep_failing policy error (round ∷ rounds) row =
    keep_failing policy error rounds (claim_and_fail policy error round row)

-- Where the policy allows another attempt, a row that failed is not due before the first delay has
-- passed, or the longest where that is shorter, and it is due once the longest delay has passed.
set_failed-due :
    (policy : RetryPolicy) (row : WebhookRow) (error : Text) (now early late : ℕ)
    → row.attempts < policy.max_attempts
    → early < min policy.base_delay_ms policy.max_delay_ms
    → policy.max_delay_ms ≤ late
    → (is_due (now + early) (set_failed policy row.attempts error now row) ≡ false)
      × (is_due (now + late) (set_failed policy row.attempts error now row) ≡ true)
set_failed-due policy row error now early late room before past =
    let (least, most) = backoff_ms-between row.attempts policy in
    let left : leb policy.max_attempts row.attempts ≡ false = ground arith in
    rw left (ground arith, ground arith)

claim_and_fail-attempts :
    (policy : RetryPolicy) (error : Text) (round : ℕ × ℕ) (row : WebhookRow)
    → (claim_and_fail policy error round row).attempts ≡ row.attempts + 1
claim_and_fail-attempts policy error round row =
    elim (Bool-cases (leb policy.max_attempts (row.attempts + 1))) [
      | inl out ↦ rw out refl
      | inr left ↦ rw left refl
    ]

claim_and_fail-status :
    (policy : RetryPolicy) (error : Text) (round : ℕ × ℕ) (row : WebhookRow)
    → (claim_and_fail policy error round row).status ≡ (
        if leb policy.max_attempts (row.attempts + 1)
        then WebhookEventStatus.failed
        else WebhookEventStatus.pending)
claim_and_fail-status policy error round row =
    elim (Bool-cases (leb policy.max_attempts (row.attempts + 1))) [
      | inl out ↦ rw out refl
      | inr left ↦ rw left refl
    ]

-- A row that waits and whose every attempt fails counts each of them; it still waits while the policy
-- allows another, and it is a dead letter as soon as it has used them up.
pub keep_failing-dead_letters :
    (policy : RetryPolicy) (error : Text) (rounds : List (ℕ × ℕ)) (row : WebhookRow)
    → row.status ≡ WebhookEventStatus.pending
    → row.attempts < policy.max_attempts
    → row.attempts + length rounds ≤ policy.max_attempts
    → ((keep_failing policy error rounds row).attempts ≡ row.attempts + length rounds)
      × ((keep_failing policy error rounds row).status ≡ (
          if leb policy.max_attempts (row.attempts + length rounds)
          then WebhookEventStatus.failed
          else WebhookEventStatus.pending))
keep_failing-dead_letters policy error [] row waits room fits = (omega arith, ground arith)
keep_failing-dead_letters policy error (round ∷ []) row waits room fits =
    (claim_and_fail-attempts policy error round row, claim_and_fail-status policy error round row)
keep_failing-dead_letters policy error (round ∷ another ∷ rounds) row waits room fits =
    let failed_row = claim_and_fail policy error round row in
    let counted = claim_and_fail-attempts policy error round row in
    let left : leb policy.max_attempts (row.attempts + 1) ≡ false = ground arith in
    let still : failed_row.status ≡ WebhookEventStatus.pending =
      claim_and_fail-status policy error round row
      ∙ ap (λ b. if b then WebhookEventStatus.failed else WebhookEventStatus.pending) left in
    let same : failed_row.attempts + suc (length rounds)
        ≡ row.attempts + suc (suc (length rounds)) =
      omega (arith, counted) in
    let (attempts, status) =
      keep_failing-dead_letters policy error (another ∷ rounds) failed_row still
        (omega (arith, counted)) (omega (arith, same)) in
    (
      attempts ∙ same,
      status
          ∙ ap
              (λ n.
                if leb policy.max_attempts n
                then WebhookEventStatus.failed
                else WebhookEventStatus.pending)
              same,
    )
