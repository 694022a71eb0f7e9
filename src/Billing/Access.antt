-- ===== src/Billing/Access.antt =====
-- packages/billing/src/access.ts and entitlements.ts: what a subscription gives access to.
pub mod Promises
use ghalla.Base.{
  ℕ, Bool, false, ◌&&◌, ◌||◌, List, Option, none, some, if◌then◌else◌, is_none, or_else,
}
use ghalla.Base.Text.{Text, lt_text}
use ghalla.Contracts.Enums.{SubscriptionStatus}
use ghalla.Billing.Plans.{Feature, plan_of, starter, includes}
use ghalla.Billing.Subscription.{Subscription, effective_plan_code, eq_status}

pub data DashboardAccess : Type 0 where
  full read_only locked : DashboardAccess

pub data PipelineAccess : Type 0 where
  running stopped : PipelineAccess

pub data ExportAccess : Type 0 where
  available unavailable : ExportAccess

pub data AccessNotice : Type 0 where
  no_notice over_order_cap payment_past_due trial_expired subscription_canceled : AccessNotice

pub record AccessDecision : Type 0 where
  pub dashboard : DashboardAccess
  pub ingestion : PipelineAccess
  pub profit_computation : PipelineAccess
  pub export_access : ExportAccess
  pub notice : AccessNotice

unfoldable pub is_trial_expired : Subscription → Text → Bool
is_trial_expired s now =
    eq_status s.status SubscriptionStatus.trialing
    && elim s.trial_ends_at [ none ↦ false | some ends ↦ lt_text ends now ]

unfoldable pub is_paying : SubscriptionStatus → Bool
is_paying status =
    eq_status status SubscriptionStatus.active
    || eq_status status SubscriptionStatus.past_due
    || eq_status status SubscriptionStatus.trialing

unfoldable pub is_billed : SubscriptionStatus → Bool
is_billed status =
    eq_status status SubscriptionStatus.active || eq_status status SubscriptionStatus.past_due

unfoldable pub decide_access : Subscription → Text → Bool → AccessDecision
decide_access s now over_cap =
    if eq_status s.status SubscriptionStatus.canceled
    then record {
      dashboard = DashboardAccess.locked;
      ingestion = PipelineAccess.stopped;
      profit_computation = PipelineAccess.stopped;
      export_access = ExportAccess.available;
      notice = AccessNotice.subscription_canceled;
    }
    else if eq_status s.status SubscriptionStatus.expired || is_trial_expired s now
    then record {
      dashboard = DashboardAccess.read_only;
      ingestion = PipelineAccess.running;
      profit_computation = PipelineAccess.running;
      export_access = ExportAccess.available;
      notice = AccessNotice.trial_expired;
    }
    else record {
      dashboard = DashboardAccess.full;
      ingestion = PipelineAccess.running;
      profit_computation = PipelineAccess.running;
      export_access = ExportAccess.available;
      notice =
          if over_cap
          then AccessNotice.over_order_cap
          else if eq_status s.status SubscriptionStatus.past_due
          then AccessNotice.payment_past_due
          else AccessNotice.no_notice;
    }

pub record Entitlements : Type 0 where
  pub plan_code : Text
  pub features : List Feature
  pub order_cap : Option ℕ
  pub access : AccessDecision
  pub plan_unknown : Bool

unfoldable pub resolve_entitlements : Subscription → Text → Bool → Entitlements
resolve_entitlements s now over_cap =
    let code = effective_plan_code s now in
    let plan = plan_of code in
    let effective = or_else plan starter in
    record {
      plan_code = code;
      features = effective.features;
      order_cap = effective.order_cap;
      access = decide_access s now over_cap;
      plan_unknown = is_none plan;
    }

unfoldable pub has_feature : Entitlements → Feature → Bool
has_feature e f = includes e.features f
