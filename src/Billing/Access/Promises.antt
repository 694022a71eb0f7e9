-- ===== src/Billing/Access/Promises.antt =====
-- packages/billing/src/access.ts and entitlements.ts: what a store keeps, whatever happens to it.
use ghalla.Base.{◌≡◌, refl, Bool, true, not, none, ◌↔◌, arith}
use ghalla.Base.Text.{Text}
use ghalla.Contracts.Enums.{SubscriptionStatus}
use ghalla.Billing.Plans.{Feature, eq_feature, plan_of}
use ghalla.Billing.Subscription.{Subscription, eq_status, effective_plan_code}
use ghalla.Billing.Access.{
  DashboardAccess, PipelineAccess, ExportAccess, decide_access, resolve_entitlements, has_feature,
}

-- The pipeline runs and the dashboard opens for every store that has not canceled, the cap and an
-- expired trial notwithstanding; going over the cap changes no access; and the data of a store can
-- always be exported.
pub decide_access-promises :
    (s : Subscription) (now : Text) (over : Bool)
    → (((decide_access s now over).ingestion ≡ PipelineAccess.stopped)
        ↔ (eq_status s.status SubscriptionStatus.canceled ≡ true))
      × ((decide_access s now over).profit_computation ≡ (decide_access s now over).ingestion)
      × (((decide_access s now over).dashboard ≡ DashboardAccess.locked)
          ↔ (eq_status s.status SubscriptionStatus.canceled ≡ true))
      × ((decide_access s now over).dashboard ≡ (decide_access s now (not over)).dashboard)
      × ((decide_access s now over).export_access ≡ ExportAccess.available)
unfolding decide_access
decide_access-promises s now over = ground arith

-- A plan that this build does not know gives exactly the core features, and says so.
resolve_entitlements-unknown :
    (s : Subscription) (now : Text) (over : Bool) (f : Feature)
    → plan_of (effective_plan_code s now) ≡ none
    → (has_feature (resolve_entitlements s now over) f ≡ eq_feature Feature.core f)
      × ((resolve_entitlements s now over).plan_unknown ≡ true)
unfolding resolve_entitlements has_feature
resolve_entitlements-unknown s now over Feature.core h = rw h (refl, refl)
resolve_entitlements-unknown s now over Feature.attribution h = rw h (refl, refl)
resolve_entitlements-unknown s now over Feature.ltv h = rw h (refl, refl)
resolve_entitlements-unknown s now over Feature.reports h = rw h (refl, refl)
