-- ===== src/Billing/Subscription.antt =====
-- packages/billing/src/subscription.ts: what an event does to a subscription, and a reconciliation.
pub mod Events
pub mod Deferral
pub mod Reconciliation
use ghalla.Base.{
  Bool, true, false, not, ◌&&◌, ◌||◌, Option, none, some, if◌then◌else◌, or_else, or_option,
}
use ghalla.Base.Text.{Text, eq_text, lt_text}
use ghalla.Contracts.Enums.{SubscriptionStatus}
use ghalla.Billing.Plans.{plan_of, is_downgrade, Plan}

pub record Subscription : Type 0 where
  pub store_id : Text
  pub plan_code : Text
  pub platform_plan_id : Option Text
  pub status : SubscriptionStatus
  pub trial_ends_at : Option Text
  pub current_period_start : Text
  pub current_period_end : Text
  pub last_event_at : Option Text
  pub last_reconciled_at : Option Text
  pub pending_plan_code : Option Text
  pub pending_plan_effective_at : Option Text

pub record SubscriptionChange : Type 0 where
  pub status : SubscriptionStatus
  pub plan_code : Option Text
  pub platform_plan_id : Option Text
  pub trial_ends_at : Option Text
  pub current_period_start : Option Text
  pub current_period_end : Option Text
  pub occurred_at : Text

pub data ApplyOutcome : Type 0 where
  applied : Subscription → ApplyOutcome
  stale : ApplyOutcome

pub data ReconcileOutcome : Type 0 where
  reconciled : Subscription → ReconcileOutcome
  unchanged : ReconcileOutcome

-- Instants are compared as strings.
abbrev pub leb_text : Text → Text → Bool
leb_text a b = not (lt_text b a)

abbrev pub is_stale : Subscription → Text → Bool
is_stale current occurred_at = elim current.last_event_at [
  | none ↦ false
  | some last ↦ leb_text occurred_at last
]

abbrev is_known_downgrade : Option Plan → Option Plan → Bool
is_known_downgrade (some from) (some to) = is_downgrade from to
is_known_downgrade _ _ = false

-- `defer` of `deferUntilPeriodEnd`
abbrev pub defers : Subscription → SubscriptionChange → Bool
defers current change = elim change.plan_code [
  | none ↦ false
  | some code ↦
      not (eq_text code current.plan_code)
      && is_known_downgrade (plan_of current.plan_code) (plan_of code)
      && lt_text change.occurred_at current.current_period_end
]

abbrev pub changed : Subscription → SubscriptionChange → Subscription
changed current change =
    let defer = defers current change in
    record current {
      status = change.status;
      plan_code = if defer then current.plan_code else or_else change.plan_code current.plan_code;
      pending_plan_code = if defer then change.plan_code else none;
      pending_plan_effective_at = if defer then some current.current_period_end else none;
      platform_plan_id = or_option change.platform_plan_id current.platform_plan_id;
      trial_ends_at = or_option change.trial_ends_at current.trial_ends_at;
      current_period_start = or_else change.current_period_start current.current_period_start;
      current_period_end = or_else change.current_period_end current.current_period_end;
      last_event_at = some change.occurred_at;
    }

unfoldable pub apply_change : Subscription → SubscriptionChange → ApplyOutcome
apply_change current change =
    if is_stale current change.occurred_at then stale else applied (changed current change)

abbrev pub plan_at : Text → Option Text → Option Text → Text → Text
plan_at plan (some pending) (some effective_at) now =
    if leb_text effective_at now then pending else plan
plan_at plan _ _ now = plan

unfoldable pub effective_plan_code : Subscription → Text → Text
effective_plan_code s now = plan_at s.plan_code s.pending_plan_code s.pending_plan_effective_at now

abbrev pub eq_status : SubscriptionStatus → SubscriptionStatus → Bool
eq_status SubscriptionStatus.trialing SubscriptionStatus.trialing = true
eq_status SubscriptionStatus.active SubscriptionStatus.active = true
eq_status SubscriptionStatus.past_due SubscriptionStatus.past_due = true
eq_status SubscriptionStatus.canceled SubscriptionStatus.canceled = true
eq_status SubscriptionStatus.expired SubscriptionStatus.expired = true
eq_status _ _ = false

-- `truth !== null && current !== truth`
abbrev pub differs : Option Text → Text → Bool
differs none current = false
differs (some truth) current = not (eq_text current truth)

abbrev pub differs_option : Option Text → Option Text → Bool
differs_option none current = false
differs_option (some truth) none = true
differs_option (some truth) (some current) = not (eq_text current truth)

unfoldable pub differs_from : Subscription → SubscriptionChange → Bool
differs_from current truth =
    not (eq_status current.status truth.status)
    || differs truth.plan_code current.plan_code
    || differs_option truth.platform_plan_id current.platform_plan_id
    || differs truth.current_period_start current.current_period_start
    || differs truth.current_period_end current.current_period_end
    || differs_option truth.trial_ends_at current.trial_ends_at

unfoldable pub reconcile : Subscription → SubscriptionChange → Text → ReconcileOutcome
reconcile current truth at =
    if not (differs_from current truth)
    then unchanged
    else reconciled (record current {
      status = truth.status;
      plan_code = or_else truth.plan_code current.plan_code;
      platform_plan_id = or_option truth.platform_plan_id current.platform_plan_id;
      trial_ends_at = or_option truth.trial_ends_at current.trial_ends_at;
      current_period_start = or_else truth.current_period_start current.current_period_start;
      current_period_end = or_else truth.current_period_end current.current_period_end;
      last_reconciled_at = some at;
    })
