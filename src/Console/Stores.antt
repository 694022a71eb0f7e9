-- ===== src/Console/Stores.antt =====
-- apps/ghalla-ops/src/lib/queries/store-health.ts and stores.ts: what is known of a store, its
-- health, and the pages of the list of stores.
pub mod Paging
use ghalla.Base.{
  ℕ, zero, suc, ◌+◌, ◌*◌, Bool, true, false, not, ◌&&◌, List, [], ◌∷◌, ◌++◌, Option, none, some,
  take, length, if◌then◌else◌, leb, ltb, is_some, is_none, is_empty,
}
use ghalla.Base.Int.{ℤ, pos, ltb_ℤ}
use ghalla.Base.Text.{Text, lit, eq_text}
use ghalla.Contracts.Enums.{SubscriptionStatus}
use ghalla.Billing.Subscription.{eq_status}
use ghalla.Billing.Access.{is_paying}

pub data HealthFlag : Type 0 where
  silent jobs_failing backfill_stuck coverage_low past_due : HealthFlag

-- The fields of a subscription that the rules read
pub record SubscriptionRow : Type 0 where
  pub effective_plan_code : Text
  pub status : SubscriptionStatus

pub record BackfillState : Type 0 where
  pub status : Text
  pub started_at : Option ℕ

-- `coverage` is its `coverageBps`; `none` stands for no coverage and for no revenue.
pub record StoreFacts : Type 0 where
  pub store_id : Text
  pub installed_at : ℕ
  pub uninstalled_at : Option ℕ
  pub subscription : Option SubscriptionRow
  pub coverage : Option ℤ
  pub last_webhook_at : Option ℕ
  pub failed_jobs : ℕ
  pub backfill : Option BackfillState
  pub orders_in_period : ℕ
  pub dashboard_session : Option Bool

abbrev pub day_ms : ℕ
day_ms = 24 * 60 * 60 * 1000

abbrev pub failed_jobs_threshold : ℕ
failed_jobs_threshold = 5

abbrev pub coverage_low_bps : ℤ
coverage_low_bps = pos 2_000

abbrev pub activation_coverage_bps : ℤ
activation_coverage_bps = pos 5_000

-- `ageMs(from, now) >= DAY_MS`
abbrev pub is_day_old : ℕ → ℕ → Bool
is_day_old from now = leb (from + day_ms) now

abbrev pub has_status : SubscriptionStatus → Option SubscriptionRow → Bool
has_status status none = false
has_status status (some s) = eq_status s.status status

abbrev pub is_paid : Option SubscriptionRow → Bool
is_paid none = false
is_paid (some s) = is_paying s.status

abbrev pub is_live : StoreFacts → Bool
is_live facts = is_none facts.uninstalled_at && is_paid facts.subscription

abbrev is_silent_since : Option ℕ → ℕ → Bool
is_silent_since none now = true
is_silent_since (some at) now = is_day_old at now

unfoldable pub is_silent : StoreFacts → ℕ → Bool
is_silent facts now =
    is_live facts && is_day_old facts.installed_at now && is_silent_since facts.last_webhook_at now

abbrev is_stuck_since : Option ℕ → ℕ → Bool
is_stuck_since none now = false
is_stuck_since (some at) now = is_day_old at now

abbrev stuck_of : Option BackfillState → ℕ → Option BackfillState
stuck_of none now = none
stuck_of (some b) now =
    if eq_text b.status (lit "complete")
    then none
    else if is_stuck_since b.started_at now
    then some b
    else none

unfoldable pub stuck_backfill : StoreFacts → ℕ → Option BackfillState
stuck_backfill facts now = stuck_of facts.backfill now

abbrev pub is_backfill_stuck : StoreFacts → ℕ → Bool
is_backfill_stuck facts now = is_some (stuck_backfill facts now)

abbrev pub is_coverage_low : StoreFacts → Bool
is_coverage_low facts = elim facts.coverage [ none ↦ false | some bps ↦ ltb_ℤ bps coverage_low_bps ]

abbrev pub flag_if : Bool → HealthFlag → List HealthFlag
flag_if true flag = flag ∷ []
flag_if false flag = []

unfoldable pub health_flags : StoreFacts → ℕ → List HealthFlag
health_flags facts now =
    flag_if (is_silent facts now) HealthFlag.silent
    ++ (flag_if (leb failed_jobs_threshold facts.failed_jobs) HealthFlag.jobs_failing
        ++ (flag_if (is_backfill_stuck facts now) HealthFlag.backfill_stuck
            ++ (flag_if (is_coverage_low facts) HealthFlag.coverage_low
                ++ flag_if (has_status SubscriptionStatus.past_due facts.subscription)
                    HealthFlag.past_due)))

pub record StoreHealth : Type 0 where
  pub store_id : Text
  pub flags : List HealthFlag
  pub healthy : Bool

abbrev pub store_health : StoreFacts → ℕ → StoreHealth
store_health facts now =
    let flags = health_flags facts now in
    record { store_id = facts.store_id; flags = flags; healthy = is_empty flags }

pub record Activation : Type 0 where
  pub store_id : Text
  pub backfill_complete : Bool
  pub coverage_above_threshold : Bool
  pub dashboard_session : Option Bool
  pub activated : Option Bool

unfoldable pub activation : StoreFacts → Activation
activation facts =
    let complete : Bool = elim facts.backfill [
      | none ↦ false
      | some b ↦ eq_text b.status (lit "complete")
    ] in
    let above : Bool = elim facts.coverage [
      | none ↦ false
      | some bps ↦ ltb_ℤ activation_coverage_bps bps
    ] in
    record {
      store_id = facts.store_id;
      backfill_complete = complete;
      coverage_above_threshold = above;
      dashboard_session = facts.dashboard_session;
      activated = elim facts.dashboard_session [
        | none ↦ none
        | some opened ↦ some (complete && above && opened)
      ];
    }

-- A summary with its platform. It repeats the facts that it is derived from.
pub record PlatformStore : Type 0 where
  pub platform : Text
  pub facts : StoreFacts
  pub health : StoreHealth
  pub activation : Activation

abbrev pub platform_store : Text → StoreFacts → ℕ → PlatformStore
platform_store platform facts now = record {
  platform = platform;
  facts = facts;
  health = store_health facts now;
  activation = activation facts;
}

pub record StoreFilter : Type 0 where
  pub platform : Option Text
  pub status : Option SubscriptionStatus
  pub plan : Option Text
  pub needs_attention : Bool

abbrev on_plan : Text → Option SubscriptionRow → Bool
on_plan plan none = false
on_plan plan (some s) = eq_text s.effective_plan_code plan

unfoldable pub matches_filter : PlatformStore → StoreFilter → Bool
matches_filter store filter =
    if elim filter.platform [ none ↦ false | some p ↦ not (eq_text store.platform p) ]
    then false
    else if elim filter.status [
      | none ↦ false
      | some s ↦ not (has_status s store.facts.subscription)
    ]
    then false
    else if elim filter.plan [ none ↦ false | some p ↦ not (on_plan p store.facts.subscription) ]
    then false
    else if filter.needs_attention && store.health.healthy
    then false
    else true

pub record StorePage : Type 0 where
  pub stores : List PlatformStore
  pub total : ℕ
  pub next_cursor : Option ℕ

-- `slice(start)`
unfoldable pub after {ℓ} : {A : Type ℓ} → ℕ → List A → List A
after zero xs = xs
after (suc n) [] = []
after (suc n) (x ∷ xs) = after n xs

-- `slice(start, start + limit)` from a cursor that is not negative
unfoldable pub paginate : List PlatformStore → ℕ → ℕ → StorePage
unfolding after
paginate list cursor limit = record {
  stores = take limit (after cursor list);
  total = length list;
  next_cursor = if ltb (cursor + limit) (length list) then some (cursor + limit) else none;
}
