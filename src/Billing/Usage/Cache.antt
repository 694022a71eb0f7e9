-- ===== src/Billing/Usage/Cache.antt =====
-- packages/billing/src/usage.ts: what the cache gives back, and for how long.
use ghalla.Base.{ℕ, ◌+◌, ◌≡◌, refl, false, Option, none, some, if◌then◌else◌, leb, arith}
use ghalla.Base.Text.{Text, eq_text}
use ghalla.Base.Dict.{lookup, lookup-insert, lookup-insert_self}
use ghalla.Billing.Usage.{UsageCache, CacheEntry, get, set, read_entry}

read_entry-value :
    (c : UsageCache) (key : Text) (now : ℕ) (e : CacheEntry)
    → (read_entry c key now (some e)).0 ≡ (if leb e.expires_at now then none else some e.value)
read_entry-value c key now e = ground arith

read_entry-same :
    (c d : UsageCache) (key : Text) (now : ℕ) (o : Option CacheEntry)
    → (read_entry c key now o).0 ≡ (read_entry d key now o).0
read_entry-same c d key now none = refl
read_entry-same c d key now (some e) = ground arith

-- A count that was cached is given back under its key until its time is up, and not from then on.
get-set :
    (c : UsageCache) (key : Text) (value now later : ℕ)
    → (get (set c key value now) key later).0
      ≡ (if leb (now + c.ttl_ms) later then none else some value)
unfolding get set
get-set c key value now later =
    rw (lookup-insert_self key (record { value = value; expires_at = now + c.ttl_ms }) c.entries) (
      read_entry-value (set c key value now) key later
        (record { value = value; expires_at = now + c.ttl_ms }))

-- Caching a count changes nothing that is found under another key.
get-set_other :
    (c : UsageCache) (key other : Text) (value now later : ℕ)
    → eq_text key other ≡ false
    → (get (set c key value now) other later).0 ≡ (get c other later).0
unfolding get set
get-set_other c key other value now later apart =
    rw
      (
        lookup-insert key other (record { value = value; expires_at = now + c.ttl_ms }) c.entries,
        apart,
      )
      (read_entry-same (set c key value now) c other later (lookup other c.entries))
