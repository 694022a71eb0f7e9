-- ===== src/Console/RateLimit.antt =====
-- apps/ghalla-ops/src/lib/auth/rate-limit.ts: the limiter of failed logins. The map of buckets is
-- passed from call to call.
pub mod Buckets
pub mod Blocking
pub mod Pruning
pub mod Release
use ghalla.Base.{
  ℕ, ◌+◌, ◌-◌, ◌*◌, max, Bool, true, false, ◌&&◌, [], ◌∷◌, Option, none, some, if◌then◌else◌, leb,
  ltb, length,
}
use ghalla.Base.Text.{Text, lit}
use ghalla.Base.Dict.{Dict, lookup, insert, erase}

pub record LimitDecision : Type 0 where
  pub allowed : Bool
  pub retry_after_ms : ℕ

pub record Bucket : Type 0 where
  pub failures : ℕ
  pub window_started_at : ℕ
  pub blocked_until : ℕ

pub record LimiterOptions : Type 0 where
  pub max_failures : ℕ
  pub window_ms : ℕ
  pub block_ms : ℕ

abbrev pub per_source_limit : LimiterOptions
per_source_limit = record { max_failures = 5; window_ms = 15 * 60 * 1000; block_ms = 60 * 1000 }

abbrev pub global_limit : LimiterOptions
global_limit = record { max_failures = 20; window_ms = 15 * 60 * 1000; block_ms = 60 * 1000 }

pub record FailureLimiter : Type 0 where
  pub buckets : Dict Bucket
  pub options : LimiterOptions

abbrev pub allow : LimitDecision
allow = record { allowed = true; retry_after_ms = 0 }

abbrev pub refuse : ℕ → LimitDecision
refuse ms = record { allowed = false; retry_after_ms = ms }

abbrev pub decide_bucket : Option Bucket → ℕ → LimitDecision
decide_bucket none now = allow
decide_bucket (some bucket) now =
    if leb bucket.blocked_until now then allow else refuse (bucket.blocked_until - now)

unfoldable pub check : FailureLimiter → Text → ℕ → LimitDecision
check limiter key now = decide_bucket (lookup key limiter.buckets) now

-- `now - windowStartedAt >= windowMs`
abbrev pub is_idle : LimiterOptions → Bucket → ℕ → Bool
is_idle options bucket now = leb (bucket.window_started_at + options.window_ms) now

abbrev pub fresh_bucket : ℕ → Bucket
fresh_bucket now = record { failures = 0; window_started_at = now; blocked_until = 0 }

-- The bucket that a failure is counted in
abbrev pub counting_bucket : LimiterOptions → Option Bucket → ℕ → Bucket
counting_bucket options none now = fresh_bucket now
counting_bucket options (some existing) now =
    if is_idle options existing now then fresh_bucket now else existing

unfoldable pub count_failure : LimiterOptions → Bucket → ℕ → Bucket
count_failure options bucket now =
    if leb options.max_failures (bucket.failures + 1)
    then record { failures = 0; window_started_at = now; blocked_until = now + options.block_ms }
    else record bucket { failures = bucket.failures + 1 }

unfoldable pub record_failure : FailureLimiter → Text → ℕ → FailureLimiter × LimitDecision
unfolding count_failure
record_failure limiter key now =
    let bucket =
      count_failure limiter.options
        (counting_bucket limiter.options (lookup key limiter.buckets) now) now in
    (
      record limiter { buckets = insert key bucket limiter.buckets },
      if ltb now bucket.blocked_until then refuse (bucket.blocked_until - now) else allow,
    )

unfoldable pub clear : FailureLimiter → Text → FailureLimiter
clear limiter key = record limiter { buckets = erase key limiter.buckets }

-- The loop of `prune`
unfoldable pub prune_buckets : LimiterOptions → ℕ → Dict Bucket → Dict Bucket
prune_buckets options now [] = []
prune_buckets options now ((key, bucket) ∷ buckets) =
    let rest = prune_buckets options now buckets in
    if is_idle options bucket now && leb bucket.blocked_until now
    then rest
    else (key, bucket) ∷ rest

unfoldable pub prune : FailureLimiter → ℕ → FailureLimiter
prune limiter now = record limiter { buckets = prune_buckets limiter.options now limiter.buckets }

abbrev pub size : FailureLimiter → ℕ
size limiter = length limiter.buckets

abbrev pub global_key : Text
global_key = lit "global"

pub record LoginLimiter : Type 0 where
  pub per_source : FailureLimiter
  pub global : FailureLimiter

abbrev pub create_login_limiter : LoginLimiter
create_login_limiter = record {
  per_source = record { buckets = []; options = per_source_limit };
  global = record { buckets = []; options = global_limit };
}

-- Both tiers, after the buckets of sources are pruned
unfoldable pub check_login : LoginLimiter → Text → ℕ → LoginLimiter × LimitDecision
check_login limiter source now =
    let pruned = prune limiter.per_source now in
    let per_source = check pruned source now in
    let global = check limiter.global global_key now in
    (
      record limiter { per_source = pruned },
      if per_source.allowed && global.allowed
          then allow
          else refuse (max per_source.retry_after_ms global.retry_after_ms),
    )

unfoldable pub record_login_failure : LoginLimiter → Text → ℕ → LoginLimiter
record_login_failure limiter source now = record {
  per_source = (record_failure limiter.per_source source now).0;
  global = (record_failure limiter.global global_key now).0;
}

unfoldable pub record_login_success : LoginLimiter → Text → LoginLimiter
record_login_success limiter source = record limiter {
  per_source = clear limiter.per_source source;
}
