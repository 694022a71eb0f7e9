-- ===== src/Billing/Usage.antt =====
-- packages/billing/src/usage.ts: the window of a billing period and the cache of counts. The cache is
-- passed from call to call; milliseconds are natural numbers.
pub mod Cache
use ghalla.Base.{ℕ, ◌+◌, ◌-◌, Bool, false, ltb, Option, none, some, if◌then◌else◌, leb, ◌++◌}
use ghalla.Base.Text.{Text, lit}
use ghalla.Base.Dict.{Dict, lookup, insert, erase}
use ghalla.Billing.Subscription.{Subscription}

pub record UsageWindow : Type 0 where
  pub window_from : Text
  pub window_to : Text

unfoldable pub usage_window : Subscription → UsageWindow
usage_window s = record { window_from = s.current_period_start; window_to = s.current_period_end }

-- All but the percentage
pub record UsageStatus : Type 0 where
  pub count : ℕ
  pub cap : Option ℕ
  pub over_cap : Bool
  pub remaining : Option ℕ

-- `Math.max(0, cap - count)` is the subtraction of natural numbers.
unfoldable pub usage_status : ℕ → Option ℕ → UsageStatus
usage_status count none = record { count = count; cap = none; over_cap = false; remaining = none }
usage_status count (some cap) = record {
  count = count;
  cap = some cap;
  over_cap = ltb cap count;
  remaining = some (cap - count);
}

unfoldable pub usage_cache_key : Text → UsageWindow → Text
usage_cache_key store_id w = lit "usage:" ++ (store_id ++ (lit ":" ++ w.window_from))

pub record CacheEntry : Type 0 where
  pub value : ℕ
  pub expires_at : ℕ

pub record UsageCache : Type 0 where
  pub entries : Dict CacheEntry
  pub ttl_ms : ℕ

abbrev pub read_entry : UsageCache → Text → ℕ → Option CacheEntry → Option ℕ × UsageCache
read_entry c key now none = (none, c)
read_entry c key now (some e) =
    if leb e.expires_at now
    then (none, record c { entries = erase key c.entries })
    else (some e.value, c)

unfoldable pub get : UsageCache → Text → ℕ → Option ℕ × UsageCache
get c key now = read_entry c key now (lookup key c.entries)

unfoldable pub set : UsageCache → Text → ℕ → ℕ → UsageCache
set c key value now = record c {
  entries = insert key (record { value = value; expires_at = now + c.ttl_ms }) c.entries;
}

unfoldable pub invalidate : UsageCache → Text → UsageCache
invalidate c key = record c { entries = erase key c.entries }
