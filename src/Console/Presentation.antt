-- ===== src/Console/Presentation.antt =====
-- apps/ghalla-ops/src/lib/ui/presentation.ts: how a store reads in the table, and the saved views.
-- Caps are in twelfths of an order, as the caps of plans are compared; percentages are left out.
pub mod Views
pub mod Caps
use ghalla.Base.{
  ℕ, ◌+◌, ◌*◌, Bool, true, false, ◌&&◌, List, [], ◌∷◌, ◌++◌, Option, none, some, map, filter, any,
  if◌then◌else◌, leb, ltb, is_empty,
}
use ghalla.Base.Int.{ℤ, pos, eq_ℤ}
use ghalla.Base.Text.{Text, lit}
use ghalla.Contracts.Enums.{SubscriptionStatus}
use ghalla.Billing.Plans.{Plan, plan_of, monthly_cap_of}
use ghalla.Console.Stores.{HealthFlag, PlatformStore, SubscriptionRow, has_status}

pub data Severity : Type 0 where
  fine warn bad : Severity

abbrev pub eq_flag : HealthFlag → HealthFlag → Bool
eq_flag HealthFlag.silent HealthFlag.silent = true
eq_flag HealthFlag.jobs_failing HealthFlag.jobs_failing = true
eq_flag HealthFlag.backfill_stuck HealthFlag.backfill_stuck = true
eq_flag HealthFlag.coverage_low HealthFlag.coverage_low = true
eq_flag HealthFlag.past_due HealthFlag.past_due = true
eq_flag _ _ = false

-- `flags.includes(flag)`
abbrev pub has_flag : HealthFlag → List HealthFlag → Bool
has_flag flag = any (λ f. eq_flag f flag)

-- `CRITICAL.includes(flag)`
abbrev pub is_critical : HealthFlag → Bool
is_critical HealthFlag.silent = true
is_critical HealthFlag.past_due = true
is_critical HealthFlag.jobs_failing = true
is_critical HealthFlag.backfill_stuck = false
is_critical HealthFlag.coverage_low = false

unfoldable pub flags_severity : List HealthFlag → Severity
flags_severity flags =
    if is_empty flags
    then Severity.fine
    else if any is_critical flags
    then Severity.bad
    else Severity.warn

pub record CapUsage : Type 0 where
  pub used : ℕ
  pub cap : Option ℕ
  pub over_cap : Bool

abbrev pub usage_of_cap : ℕ → Option ℕ → CapUsage
usage_of_cap used none = record { used = used; cap = none; over_cap = false }
usage_of_cap used (some cap) =
    if leb cap 0
    then record { used = used; cap = none; over_cap = false }
    else record { used = used; cap = some cap; over_cap = ltb cap (12 * used) }

abbrev pub usage_of_plan : ℕ → Option Plan → CapUsage
usage_of_plan used none = record { used = used; cap = none; over_cap = false }
usage_of_plan used (some plan) = usage_of_cap used (monthly_cap_of plan)

abbrev pub plan_of_row : Option SubscriptionRow → Option Plan
plan_of_row none = none
plan_of_row (some s) = plan_of s.effective_plan_code

unfoldable pub cap_usage : PlatformStore → CapUsage
cap_usage store = usage_of_plan store.facts.orders_in_period (plan_of_row store.facts.subscription)

abbrev pub flag_label : HealthFlag → Text
flag_label HealthFlag.silent = lit "Silent"
flag_label HealthFlag.past_due = lit "Past due"
flag_label HealthFlag.jobs_failing = lit "Jobs failing"
flag_label HealthFlag.backfill_stuck = lit "Backfill stuck"
flag_label HealthFlag.coverage_low = lit "Low coverage"

-- `toLowerCase()` of a label, which is ASCII
abbrev pub lower : Text → Text
lower = map (λ c. if leb b'A' c && leb c b'Z' then c + 32 else c)

abbrev pub part_of : Option ℤ → HealthFlag → Text
part_of coverage flag =
    if eq_flag flag HealthFlag.coverage_low
      && elim coverage [ none ↦ false | some bps ↦ eq_ℤ bps (pos 0) ]
    then lit "No coverage"
    else flag_label flag

-- `parts.map((p) => p.toLowerCase()).join(' · ')`, with what comes before it
unfoldable pub join_lower : List Text → Text
join_lower [] = []
join_lower (part ∷ parts) = 32 ∷ 183 ∷ 32 ∷ lower part ++ join_lower parts

abbrev pub label_of : List Text → Text
label_of [] = lit "Healthy"
label_of (head ∷ rest) = head ++ join_lower rest

abbrev pub combined : Severity → Bool → Severity
combined Severity.bad over = Severity.bad
combined Severity.warn over = if over then Severity.bad else Severity.warn
combined Severity.fine over = if over then Severity.warn else Severity.fine

pub record StorePresentation : Type 0 where
  pub severity : Severity
  pub label : Text
  pub cap : CapUsage

abbrev pub parts_of : CapUsage → Option ℤ → List HealthFlag → List Text
parts_of cap coverage flags =
    (if cap.over_cap then lit "Over cap" ∷ [] else []) ++ map (part_of coverage) flags

abbrev pub present_row : Option ℕ → CapUsage → Option ℤ → List HealthFlag → StorePresentation
present_row (some left) cap coverage flags = record {
  severity = Severity.fine;
  label = lit "Churned";
  cap = cap;
}
present_row none cap coverage flags = record {
  severity = combined (flags_severity flags) cap.over_cap;
  label = label_of (parts_of cap coverage flags);
  cap = cap;
}

unfoldable pub store_presentation : PlatformStore → StorePresentation
store_presentation store =
    present_row store.facts.uninstalled_at (cap_usage store) store.facts.coverage store.health.flags

pub record SavedViewCounts : Type 0 where
  pub trialing : ℕ
  pub over_cap : ℕ
  pub past_due : ℕ
  pub low_coverage : ℕ
  pub silent : ℕ

pub data StoreView : Type 0 where
  trialing over_cap past_due low_coverage silent : StoreView

abbrev pub in_view : StoreView → PlatformStore → Bool
in_view StoreView.trialing store = has_status SubscriptionStatus.trialing store.facts.subscription
in_view StoreView.past_due store = has_status SubscriptionStatus.past_due store.facts.subscription
in_view StoreView.over_cap store = (cap_usage store).over_cap
in_view StoreView.low_coverage store = has_flag HealthFlag.coverage_low store.health.flags
in_view StoreView.silent store = has_flag HealthFlag.silent store.health.flags

unfoldable pub apply_store_view : List PlatformStore → Option StoreView → List PlatformStore
apply_store_view stores none = stores
apply_store_view stores (some view) = filter (in_view view) stores

abbrev add_if : Bool → ℕ → ℕ
add_if test n = if test then n + 1 else n

abbrev pub count_store : PlatformStore → SavedViewCounts → SavedViewCounts
count_store store c = record {
  trialing = add_if (has_status SubscriptionStatus.trialing store.facts.subscription) c.trialing;
  over_cap = add_if (cap_usage store).over_cap c.over_cap;
  past_due = add_if (has_status SubscriptionStatus.past_due store.facts.subscription) c.past_due;
  low_coverage = add_if (has_flag HealthFlag.coverage_low store.health.flags) c.low_coverage;
  silent = add_if (has_flag HealthFlag.silent store.health.flags) c.silent;
}

-- The loop over the stores
unfoldable pub count_stores : List PlatformStore → SavedViewCounts → SavedViewCounts
count_stores [] c = c
count_stores (store ∷ stores) c = count_stores stores (count_store store c)

unfoldable pub saved_view_counts : List PlatformStore → SavedViewCounts
unfolding count_stores
saved_view_counts stores =
    count_stores stores
      (record { trialing = 0; over_cap = 0; past_due = 0; low_coverage = 0; silent = 0 })
