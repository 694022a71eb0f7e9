-- ===== src/Console/RateLimit/Release.antt =====
-- The limiter of apps/ghalla-ops/src/lib/auth/rate-limit.ts after any sequence of calls.
use ghalla.Base.{
  ℕ, ◌+◌, ◌≤◌, ◌≡◌, refl, sym, ◌∙◌, subst, List, [], ◌∷◌, All, Option, none, some, leb, Bool-cases,
  inl, inr, arith,
}
use ghalla.Base.Text.{Text}
use ghalla.Base.Dict.{lookup}
use ghalla.Console.RateLimit.{
  Bucket, LimiterOptions, FailureLimiter, allow, check, decide_bucket, counting_bucket,
  count_failure, record_failure, is_idle, prune, clear,
}
use ghalla.Console.RateLimit.Buckets.{
  Buckets, OfOption, Buckets-lookup, Buckets-insert, Buckets-erase, Buckets-prune,
}

-- What a process may call, at its own times
pub data LimiterCall : Type 0 where
  failed : Text → ℕ → LimiterCall
  succeeded : Text → LimiterCall
  pruned : ℕ → LimiterCall

abbrev pub call : FailureLimiter → LimiterCall → FailureLimiter
call limiter (failed key now) = (record_failure limiter key now).0
call limiter (succeeded key) = clear limiter key
call limiter (pruned now) = prune limiter now

abbrev pub call_all : FailureLimiter → List LimiterCall → FailureLimiter
call_all limiter [] = limiter
call_all limiter (c ∷ calls) = call_all (call limiter c) calls

-- A call counts no failure after a time.
abbrev pub IsBy : ℕ → LimiterCall → Type 0
IsBy time (failed key now) = now ≤ time
IsBy time (succeeded key) = Unit
IsBy time (pruned now) = Unit

-- No bucket is blocked for longer than a block after a time.
abbrev IsReleasedBy : ℕ → Bucket → Type 0
IsReleasedBy end bucket = bucket.blocked_until ≤ end

counting-IsReleasedBy :
    (options : LimiterOptions) (end now : ℕ) (o : Option Bucket)
    → OfOption (IsReleasedBy end) o
    → IsReleasedBy end (counting_bucket options o now)
counting-IsReleasedBy options end now none p = omega arith
counting-IsReleasedBy options end now (some b) p = elim (Bool-cases (is_idle options b now)) [
  | inl idle ↦ rw idle (omega arith)
  | inr busy ↦ rw busy p
]

count-IsReleasedBy :
    (options : LimiterOptions) (end now : ℕ) (b : Bucket)
    → IsReleasedBy end b
    → now + options.block_ms ≤ end
    → IsReleasedBy end (count_failure options b now)
unfolding count_failure
count-IsReleasedBy options end now b p h =
    elim (Bool-cases (leb options.max_failures (b.failures + 1))) [
      | inl full ↦ rw full h
      | inr more ↦ rw more p
    ]

call-IsReleasedBy :
    (limiter : FailureLimiter) (c : LimiterCall) (time : ℕ)
    → IsBy time c
    → Buckets (IsReleasedBy (time + limiter.options.block_ms)) limiter.buckets
    → Buckets (IsReleasedBy (time + limiter.options.block_ms)) (call limiter c).buckets
      × ((call limiter c).options ≡ limiter.options)
unfolding record_failure clear prune
call-IsReleasedBy limiter (failed key now) time by p =
    let end = time + limiter.options.block_ms in
    let old = lookup key limiter.buckets in
    let bucket = counting_bucket limiter.options old now in
    (
      Buckets-insert (IsReleasedBy end) key (count_failure limiter.options bucket now)
          limiter.buckets
          (count-IsReleasedBy limiter.options end now bucket
            (counting-IsReleasedBy limiter.options end now old
              (Buckets-lookup (IsReleasedBy end) key limiter.buckets p))
            (omega (arith, by)))
          p,
      refl,
    )
call-IsReleasedBy limiter (succeeded key) time by p =
    (Buckets-erase (IsReleasedBy (time + limiter.options.block_ms)) key limiter.buckets p, refl)
call-IsReleasedBy limiter (pruned now) time by p = (
  Buckets-prune (IsReleasedBy (time + limiter.options.block_ms)) limiter.options now limiter.buckets
      p,
  refl,
)

calls-IsReleasedBy :
    (options : LimiterOptions) (limiter : FailureLimiter) (calls : List LimiterCall) (time : ℕ)
    → limiter.options ≡ options
    → All (IsBy time) calls
    → Buckets (IsReleasedBy (time + options.block_ms)) limiter.buckets
    → Buckets (IsReleasedBy (time + options.block_ms)) (call_all limiter calls).buckets
calls-IsReleasedBy options limiter [] time same by p = p
calls-IsReleasedBy options limiter (c ∷ calls) time same by p =
    let (kept, still) = call-IsReleasedBy limiter c time by.0 (
      subst (λ (o : LimiterOptions). Buckets (IsReleasedBy (time + o.block_ms)) limiter.buckets)
        (sym same) p) in
    calls-IsReleasedBy options (call limiter c) calls time (still ∙ same) by.1 (
      subst
        (λ (o : LimiterOptions).
          Buckets (IsReleasedBy (time + o.block_ms)) (call limiter c).buckets)
        same kept)

allowed-by :
    (end later : ℕ) (o : Option Bucket)
    → OfOption (IsReleasedBy end) o
    → end ≤ later
    → decide_bucket o later ≡ allow
allowed-by end later none p h = refl
allowed-by end later (some b) p h = ground arith

-- Whatever was called before, in whatever order, once the time of a block has passed since the last
-- failure every caller is allowed to try again.
pub call_all-releases :
    (options : LimiterOptions) (calls : List LimiterCall) (key : Text) (time later : ℕ)
    → All (IsBy time) calls
    → time + options.block_ms ≤ later
    → check (call_all (record { buckets = []; options = options }) calls) key later ≡ allow
unfolding check
call_all-releases options calls key time later by past =
    let limiter : FailureLimiter = record { buckets = []; options = options } in
    allowed-by (time + options.block_ms) later (lookup key (call_all limiter calls).buckets)
      (Buckets-lookup (IsReleasedBy (time + options.block_ms)) key (call_all limiter calls).buckets
        (calls-IsReleasedBy options limiter calls time refl by tt))
      past
