-- ===== src/Billing/Tests.antt =====
-- Runs of the billing rules on one subscription.
use ghalla.Base.{◌≡◌, refl, true, false, none, some, [], ◌∷◌, ◌↔◌, inr}
use ghalla.Base.Text.{Text, lit, eq_text, lt_text}
use ghalla.Base.Dict.{lookup}
use ghalla.Contracts.Enums.{SubscriptionStatus}
use ghalla.Billing.Plans.{Plan, plan_of, starter, is_downgrade}
use ghalla.Billing.Subscription.{
  Subscription, SubscriptionChange, applied, apply_change, changed, effective_plan_code, reconcile,
  unchanged, stale,
}
use ghalla.Billing.Subscription.Events.{after_events-HasReached, after_events, HasReached}
use ghalla.Billing.Subscription.Deferral.{apply_change-deferred}
use ghalla.Billing.Subscription.Reconciliation.{reconcile-settles, Follows, row_after}
use ghalla.Billing.Access.{decide_access, PipelineAccess, DashboardAccess, ExportAccess}
use ghalla.Billing.Access.Promises.{decide_access-promises}
use ghalla.Billing.Usage.{UsageCache}

abbrev scale_store : Subscription
scale_store = record {
  store_id = lit "st";
  plan_code = lit "scale";
  platform_plan_id = none;
  status = SubscriptionStatus.active;
  trial_ends_at = none;
  current_period_start = lit "2026-03-01";
  current_period_end = lit "2026-04-01";
  last_event_at = some (lit "2026-03-01");
  last_reconciled_at = none;
  pending_plan_code = none;
  pending_plan_effective_at = none;
}

abbrev change_to : Text → Text → SubscriptionChange
change_to plan at_time = record {
  status = SubscriptionStatus.active;
  plan_code = some plan;
  platform_plan_id = none;
  trial_ends_at = none;
  current_period_start = none;
  current_period_end = none;
  occurred_at = at_time;
}

abbrev down : SubscriptionChange
down = change_to (lit "starter") (lit "2026-03-10")

abbrev across : SubscriptionChange
across = change_to (lit "ads") (lit "2026-03-12")

down_run : apply_change scale_store down ≡ applied (changed scale_store down)
unfolding apply_change lt_text
down_run = refl

across_run : apply_change scale_store across ≡ applied (changed scale_store across)
unfolding apply_change lt_text
across_run = refl

abbrev scale : Plan
scale = record starter { order_cap = none; price_minor = 44_900; annual_price_minor = 449_000 }

scale_found : plan_of (lit "scale") ≡ some scale
unfolding plan_of lookup eq_text
scale_found = refl

starter_found : plan_of (lit "starter") ≡ some starter
unfolding plan_of lookup eq_text
starter_found = refl

after_events-HasReached_example :
    HasReached (lit "2026-03-12") (after_events scale_store (across ∷ down ∷ []))
    × (apply_change (after_events scale_store (across ∷ down ∷ [])) across ≡ stale)
after_events-HasReached_example = after_events-HasReached scale_store [] (down ∷ []) across

apply_change-deferred_example :
    effective_plan_code (changed scale_store down) (lit "2026-03-31") ≡ lit "scale"
unfolding lt_text
apply_change-deferred_example =
    apply_change-deferred scale_store down (lit "starter") (lit "2026-03-31") scale starter down_run
      refl scale_found starter_found (inr tt)

-- A downgrade to starter whose time has come, in a row whose period has moved on
abbrev due_store : Subscription
due_store = record scale_store {
  current_period_end = lit "2026-05-01";
  pending_plan_code = some (lit "starter");
  pending_plan_effective_at = some (lit "2026-04-01");
}

due_in_force : effective_plan_code due_store (lit "2026-04-10") ≡ lit "starter"
unfolding effective_plan_code lt_text
due_in_force = refl

due_run :
    effective_plan_code
      (changed due_store (change_to (lit "growth") (lit "2026-04-10")))
      (lit "2026-04-15")
    ≡ lit "scale"
unfolding effective_plan_code plan_of lookup eq_text lt_text is_downgrade
due_run = refl

silent_run : (changed due_store (record down { plan_code = none })).pending_plan_code ≡ none
silent_run = refl

reconcile-settles_example :
    Follows (row_after scale_store across (lit "2026-03-20")) across
    × (reconcile (row_after scale_store across (lit "2026-03-20")) across (lit "2026-03-21")
        ≡ unchanged)
reconcile-settles_example =
    reconcile-settles scale_store across (lit "2026-03-20") (lit "2026-03-21")

decide_access-promises_example :
    (((decide_access scale_store (lit "2026-03-20") true).ingestion ≡ PipelineAccess.stopped)
      ↔ (false ≡ true))
    × ((decide_access scale_store (lit "2026-03-20") true).profit_computation
        ≡ (decide_access scale_store (lit "2026-03-20") true).ingestion)
    × (((decide_access scale_store (lit "2026-03-20") true).dashboard ≡ DashboardAccess.locked)
        ↔ (false ≡ true))
    × ((decide_access scale_store (lit "2026-03-20") true).dashboard
        ≡ (decide_access scale_store (lit "2026-03-20") false).dashboard)
    × ((decide_access scale_store (lit "2026-03-20") true).export_access ≡ ExportAccess.available)
decide_access-promises_example = decide_access-promises scale_store (lit "2026-03-20") true

abbrev odd_store : Subscription
odd_store = record scale_store { plan_code = lit "gold" }

unknown_run : plan_of (effective_plan_code odd_store (lit "2026-03-20")) ≡ none
unfolding plan_of effective_plan_code lookup eq_text
unknown_run = refl

abbrev no_counts : UsageCache
no_counts = record { entries = []; ttl_ms = 300_000 }

k_apart : eq_text (lit "k") (lit "j") ≡ false
unfolding eq_text
k_apart = refl
