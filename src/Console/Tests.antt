-- ===== src/Console/Tests.antt =====
-- Runs of the console.
use ghalla.Base.{
  ℕ, ◌+◌, ◌-◌, ◌≡◌, ◌↔◌, refl, ap, ◌∙◌, true, false, List, [], ◌∷◌, Option, none, some, All, map,
  length, if◌then◌else◌, leb, is_empty, ◌==◌, arith,
}
use ghalla.Base.Text.{Text, lit, eq_text}
use ghalla.Base.Dict.{has, lookup}
use ghalla.Console.RateLimit.{
  Bucket, LimiterOptions, FailureLimiter, allow, refuse, check, record_failure, prune,
  prune_buckets,
}
use ghalla.Console.RateLimit.Blocking.{fail_all, record_failure-blocks}
use ghalla.Console.RateLimit.Pruning.{prune-same}
use ghalla.Console.RateLimit.Release.{
  LimiterCall, failed, succeeded, pruned, call_all, call_all-releases,
}
use ghalla.Console.Auth.AccessKey.{timing_safe_equal}
use ghalla.Console.Auth.AccessKey.Equal.{timing_safe_equal_iff}
use ghalla.Console.Auth.Session.{
  Session, PartialSession, Platform, IsPlain, strip_padding, valid, refused, expired, mint_session,
  verify_session,
}
use ghalla.Console.Auth.Session.RoundTrip.{verify_session-mint_session}
use ghalla.Console.Auth.Guard.{UrlParser, GuardOutcome, guard, is_public_path, starts_with}
use ghalla.Console.Auth.Gate.{gate}
use ghalla.Console.Auth.Gate.Protects.{IsSignedFor, gate-protects}

abbrev strict : LimiterOptions
strict = record { max_failures = 2; window_ms = 1000; block_ms = 60 }

abbrev suspect : Bucket
suspect = record { failures = 0; window_started_at = 100; blocked_until = 0 }

abbrev watching : FailureLimiter
watching = record { buckets = (lit "10.0.0.1", suspect) ∷ []; options = strict }

record_failure-blocks_example :
    (check (fail_all watching (lit "10.0.0.1") (200 ∷ [])) (lit "10.0.0.1") 310
      ≡ check watching (lit "10.0.0.1") 310)
    × (check
          (record_failure (fail_all watching (lit "10.0.0.1") (200 ∷ [])) (lit "10.0.0.1") 300).0
          (lit "10.0.0.1")
          310
        ≡ (if leb (300 + 60) 310 then allow else refuse (300 + 60 - 310)))
unfolding lookup eq_text
record_failure-blocks_example =
    record_failure-blocks watching (lit "10.0.0.1") suspect (200 ∷ []) 300 310 refl
      (omega arith, tt) (omega arith) refl

prune-same_example :
    (check (prune watching 1200) (lit "10.0.0.1") 1300 ≡ check watching (lit "10.0.0.1") 1300)
    × ((record_failure (prune watching 1200) (lit "10.0.0.1") 1300).1
        ≡ (record_failure watching (lit "10.0.0.1") 1300).1)
prune-same_example = prune-same watching (lit "10.0.0.1") 1200 1300 (tt, tt) (omega arith)

pruned_run : prune watching 1200 ≡ record { buckets = []; options = strict }
unfolding prune prune_buckets
pruned_run = refl

abbrev calls : List LimiterCall
calls = failed (lit "a") 5 ∷ failed (lit "a") 6 ∷ pruned 7 ∷ succeeded (lit "b") ∷ []

call_all-releases_example :
    check (call_all (record { buckets = []; options = strict }) calls) (lit "a") 100 ≡ allow
call_all-releases_example =
    call_all-releases strict calls (lit "a") 6 100 (omega arith, (omega arith, (tt, (tt, tt))))
      (omega arith)

abbrev one_two : List ℕ
one_two = 1 ∷ 2 ∷ []

abbrev one_three : List ℕ
one_three = 1 ∷ 3 ∷ []

timing_safe_equal_iff_example : (timing_safe_equal one_two one_three ≡ true) ↔ (one_two ≡ one_three)
timing_safe_equal_iff_example = timing_safe_equal_iff one_two one_three

-- A platform whose base64 is a shift of the bytes and whose sessions are their end and their id
abbrev shifted : List ℕ → Text
shifted = map (λ b. b + 100)

abbrev unshifted : Text → List ℕ
unshifted = map (λ c. c - 100)

shifted-IsPlain : (bytes : List ℕ) → All IsPlain (shifted bytes)
shifted-IsPlain [] = tt
shifted-IsPlain (b ∷ bytes) = ((ground arith, ground arith, ground arith), shifted-IsPlain bytes)

strip_shifted : (bytes : List ℕ) → strip_padding (shifted bytes) ≡ shifted bytes
unfolding strip_padding
strip_shifted [] = refl
strip_shifted (b ∷ []) = let letter : (b + 100 == b'=') ≡ false = ground arith in rw letter refl
strip_shifted (b ∷ c ∷ bytes) = rw (strip_shifted (c ∷ bytes)) refl

unshifted-shifted : (bytes : List ℕ) → unshifted (shifted bytes) ≡ bytes
unshifted-shifted [] = refl
unshifted-shifted (b ∷ bytes) =
    let same : b + 100 - 100 ≡ b = omega arith in λ i. same i ∷ unshifted-shifted bytes i

shifted_back : (bytes : List ℕ) → some (unshifted (strip_padding (shifted bytes))) ≡ some bytes
shifted_back bytes =
    ap (λ (t : Text). some (unshifted t)) (strip_shifted bytes)
    ∙ ap (λ (b : List ℕ). some b) (unshifted-shifted bytes)

abbrev written : Session → List ℕ
written s = s.expires_at ∷ s.session_id

abbrev read_back : List ℕ → Option PartialSession
read_back [] = none
read_back (at ∷ id) = some (record { session_id = some id; expires_at = some at })

written_some : (s : Session) → is_empty (strip_padding (shifted (written s))) ≡ false
written_some s = ap (λ t. is_empty t) (strip_shifted (written s))

abbrev toy : Platform
toy = record {
  btoa = shifted;
  atob = λ t. some (unshifted t);
  hmac = λ key text. length key ∷ text;
  write_session = written;
  read_session = read_back;
  btoa_plain = shifted-IsPlain;
  atob_btoa = shifted_back;
  btoa_some = written_some;
  read_write = λ s. refl;
}

abbrev operator : Session
operator = record { session_id = lit "s1"; expires_at = 9000 }

verify_session-mint_session_example :
    verify_session toy (lit "key") (some (mint_session toy (lit "key") operator)) 5000
    ≡ (if leb 9000 5000 then refused expired else valid operator)
verify_session-mint_session_example = verify_session-mint_session toy (lit "key") operator 5000

abbrev parser : UrlParser
parser = record {
  resolve = λ value base. some (record { origin = base; pathname = value; search = [] });
  encode_component = λ t. t;
}

overview_closed : is_public_path (lit "/overview") ≡ false
unfolding is_public_path starts_with eq_text has
overview_closed = refl

overview_passed :
    (gate toy parser
      (lit "key")
      (lit "/overview")
      []
      (some (mint_session toy (lit "key") operator))
      5000).outcome
    ≡ GuardOutcome.allow
unfolding gate guard
overview_passed =
    rw (verify_session-mint_session toy (lit "key") operator 5000, overview_closed) refl

gate-protects_example :
    IsSignedFor toy
      (lit "key")
      5000
      (some (mint_session toy (lit "key") operator))
      (gate toy parser
        (lit "key")
        (lit "/overview")
        []
        (some (mint_session toy (lit "key") operator))
        5000).session_id
gate-protects_example =
    gate-protects toy parser (lit "key") (lit "/overview") []
      (some (mint_session toy (lit "key") operator)) 5000 overview_closed overview_passed
