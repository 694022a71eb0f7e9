-- ===== src/Console/RateLimit/Pruning.antt =====
-- `prune` of apps/ghalla-ops/src/lib/auth/rate-limit.ts and the decisions after it.
use ghalla.Base.{
  ℕ, ◌≤◌, ◌-◌, ltb, ◌≡◌, ap, ◌&&◌, Option, none, some, if◌then◌else◌, leb, Bool-cases, inl, inr,
  arith, ◌∙◌, refl,
}
use ghalla.Base.Text.{Text}
use ghalla.Base.Dict.{lookup, Unique}
use ghalla.Console.RateLimit.{
  allow, refuse, Bucket, LimiterOptions, FailureLimiter, LimitDecision, check, decide_bucket,
  counting_bucket, count_failure, record_failure, is_idle, prune,
}
use ghalla.Console.RateLimit.Buckets.{keys_of, drop_idle, lookup-prune}

dropped-decision :
    (options : LimiterOptions) (pruned now : ℕ) (bucket : Option Bucket)
    → pruned ≤ now
    → decide_bucket (drop_idle options pruned bucket) now ≡ decide_bucket bucket now
dropped-decision options pruned now none h = refl
dropped-decision options pruned now (some b) h =
    elim (Bool-cases (is_idle options b pruned && leb b.blocked_until pruned)) [
      | inl gone ↦ rw gone (ground arith)
      | inr kept ↦ rw kept refl
    ]

dropped-count :
    (options : LimiterOptions) (pruned now : ℕ) (bucket : Option Bucket)
    → pruned ≤ now
    → counting_bucket options (drop_idle options pruned bucket) now
      ≡ counting_bucket options bucket now
dropped-count options pruned now none h = refl
dropped-count options pruned now (some b) h =
    elim (Bool-cases (is_idle options b pruned && leb b.blocked_until pruned)) [
      | inl gone ↦ rw gone (ground arith)
      | inr kept ↦ rw kept refl
    ]

abbrev decision_of : ℕ → Bucket → LimitDecision
decision_of now b = if ltb now b.blocked_until then refuse (b.blocked_until - now) else allow

-- Pruning at some time changes no decision from then on, whether a caller is checked or fails again.
pub prune-same :
    (limiter : FailureLimiter) (key : Text) (pruned now : ℕ)
    → Unique (keys_of limiter.buckets)
    → pruned ≤ now
    → (check (prune limiter pruned) key now ≡ check limiter key now)
      × ((record_failure (prune limiter pruned) key now).1 ≡ (record_failure limiter key now).1)
unfolding check prune record_failure
prune-same limiter key pruned now unique h =
    let same = lookup-prune limiter.options pruned key limiter.buckets unique in
    (
      ap (λ b. decide_bucket b now) same
          ∙ dropped-decision limiter.options pruned now (lookup key limiter.buckets) h,
      ap
            (λ b.
              decision_of now
                (count_failure limiter.options (counting_bucket limiter.options b now) now))
            same
          ∙ ap (λ b. decision_of now (count_failure limiter.options b now))
              (dropped-count limiter.options pruned now (lookup key limiter.buckets) h),
    )
