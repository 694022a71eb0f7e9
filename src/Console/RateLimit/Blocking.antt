-- ===== src/Console/RateLimit/Blocking.antt =====
-- `recordFailure` of apps/ghalla-ops/src/lib/auth/rate-limit.ts: repeated failures of one caller.
use ghalla.Base.{
  ℕ, suc, ◌+◌, ◌-◌, ◌<◌, ◌≡◌, refl, sym, ap, ◌∙◌, true, false, List, [], ◌∷◌, length, All, some,
  if◌then◌else◌, leb, arith,
}
use ghalla.Base.Text.{Text}
use ghalla.Base.Dict.{lookup, lookup-insert_self}
use ghalla.Console.RateLimit.{
  Bucket, LimiterOptions, FailureLimiter, allow, refuse, check, decide_bucket, counting_bucket,
  count_failure, record_failure, is_idle,
}

-- A caller fails at each of the times.
abbrev pub fail_all : FailureLimiter → Text → List ℕ → FailureLimiter
fail_all limiter key [] = limiter
fail_all limiter key (now ∷ times) = fail_all (record_failure limiter key now).0 key times

lookup-record_failure :
    (limiter : FailureLimiter) (key : Text) (now : ℕ)
    → lookup key (record_failure limiter key now).0.buckets
      ≡ some (
          count_failure limiter.options
            (counting_bucket limiter.options (lookup key limiter.buckets) now)
            now)
unfolding record_failure
lookup-record_failure limiter key now =
    lookup-insert_self key
      (count_failure limiter.options
        (counting_bucket limiter.options (lookup key limiter.buckets) now) now)
      limiter.buckets

options-record_failure :
    (limiter : FailureLimiter) (key : Text) (now : ℕ)
    → (record_failure limiter key now).0.options ≡ limiter.options
unfolding record_failure
options-record_failure limiter key now = refl

-- The window of a bucket has not passed at a time.
abbrev pub IsWithin : LimiterOptions → ℕ → ℕ → Type 0
IsWithin options started now = now < started + options.window_ms

counted :
    (options : LimiterOptions) (b : Bucket) (now : ℕ)
    → IsWithin options b.window_started_at now
    → b.failures + 1 < options.max_failures
    → count_failure options (counting_bucket options (some b) now) now
      ≡ record b { failures = b.failures + 1 }
unfolding count_failure
counted options b now within few =
    let busy : is_idle options b now ≡ false = ground arith in
    let more : leb options.max_failures (b.failures + 1) ≡ false = ground arith in
    rw (busy, more) refl

limited :
    (options : LimiterOptions) (b : Bucket) (now : ℕ)
    → IsWithin options b.window_started_at now
    → b.failures + 1 ≡ options.max_failures
    → count_failure options (counting_bucket options (some b) now) now
      ≡ record { failures = 0; window_started_at = now; blocked_until = now + options.block_ms }
unfolding count_failure
limited options b now within full =
    let busy : is_idle options b now ≡ false = ground arith in
    let more : leb options.max_failures (b.failures + 1) ≡ true = ground arith in
    rw (busy, more) refl

plus_none : (n : ℕ) → n ≡ n + 0
plus_none n = omega arith

plus_more : (n k : ℕ) → n + 1 + k ≡ n + suc k
plus_more n k = omega arith

-- The bucket after failures that do not use up the allowance
fail_all-bucket :
    (options : LimiterOptions) (limiter : FailureLimiter) (key : Text) (b : Bucket) (times : List ℕ)
    → limiter.options ≡ options
    → lookup key limiter.buckets ≡ some b
    → All (IsWithin options b.window_started_at) times
    → b.failures + length times < options.max_failures
    → (lookup key (fail_all limiter key times).buckets
        ≡ some (record b { failures = b.failures + length times }))
      × ((fail_all limiter key times).options ≡ options)
fail_all-bucket options limiter key b [] same found within few =
    (found ∙ ap (λ n. some (record b { failures = n })) (plus_none b.failures), same)
fail_all-bucket options limiter key b (now ∷ times) same found within few =
    let after = record b { failures = b.failures + 1 } in
    let next = (record_failure limiter key now).0 in
    let stored : lookup key next.buckets ≡ some after =
      lookup-record_failure limiter key now
      ∙ (ap (λ o. some (count_failure o (counting_bucket o (lookup key limiter.buckets) now) now))
            same
          ∙ (ap (λ f. some (count_failure options (counting_bucket options f now) now)) found
              ∙ ap (λ x. some x) (counted options b now within.0 (omega (arith, few))))) in
    let (bucket, kept) =
      fail_all-bucket options next key after times (options-record_failure limiter key now ∙ same)
        stored within.1 (omega (arith, few)) in
    (
      bucket ∙ ap (λ n. some (record b { failures = n })) (plus_more b.failures (length times)),
      kept,
    )

-- While the failures of a caller within its window stay below the limit, they leave its decision as it
-- was; the failure that reaches the limit blocks it for exactly the time of a block.
pub record_failure-blocks :
    (limiter : FailureLimiter) (key : Text) (b : Bucket) (earlier : List ℕ) (last later : ℕ)
    → lookup key limiter.buckets ≡ some b
    → All (IsWithin limiter.options b.window_started_at) earlier
    → IsWithin limiter.options b.window_started_at last
    → b.failures + length earlier + 1 ≡ limiter.options.max_failures
    → (check (fail_all limiter key earlier) key later ≡ check limiter key later)
      × (check (record_failure (fail_all limiter key earlier) key last).0 key later ≡ (
          if leb (last + limiter.options.block_ms) later
          then allow
          else refuse (last + limiter.options.block_ms - later)))
unfolding check
record_failure-blocks limiter key b earlier last later found within close full =
    let options = limiter.options in
    let failing = fail_all limiter key earlier in
    let (bucket, same) =
      fail_all-bucket options limiter key b earlier refl found within (omega (arith, full)) in
    let full_bucket = record b { failures = b.failures + length earlier } in
    let stored =
      lookup-record_failure failing key last
      ∙ (ap (λ o. some (count_failure o (counting_bucket o (lookup key failing.buckets) last) last))
            same
          ∙ (ap (λ f. some (count_failure options (counting_bucket options f last) last)) bucket
              ∙ ap (λ x. some x) (limited options full_bucket last close full))) in
    (
      ap (λ f. decide_bucket f later) bucket ∙ sym (ap (λ f. decide_bucket f later) found),
      ap (λ f. decide_bucket f later) stored,
    )
