-- ===== src/Console/StoreTests.antt =====
-- Runs of what the console says of stores.
use ghalla.Base.{
  ℕ, ◌+◌, ◌≡◌, refl, true, false, ◌||◌, ◌&&◌, not, List, [], ◌∷◌, ◌++◌, Option, none, some, map,
  length, if◌then◌else◌, leb, is_some, is_empty, arith, All,
}
use ghalla.Base.Int.{pos}
use ghalla.Base.Text.{Text, lit, eq_text, lt_text}
use ghalla.Base.Dict.{lookup, insert}
use ghalla.Base.Result.{ok}
use ghalla.Contracts.Enums.{SubscriptionStatus, BillingInterval}
use ghalla.Money.{to_minor}
use ghalla.Billing.Plans.{Plan, plan_of, Feature}
use ghalla.Billing.Usage.{usage_status}
use ghalla.Billing.Access.{is_billed, is_paying}
use ghalla.Billing.Catalog.{annualised_price, to_monthly_rate}
use ghalla.Console.Revenue.{SubscriptionState, MrrBreakdown, mrr, billed_rows, insert_revenue}
use ghalla.Console.Revenue.Conserved.{Conserves, mrr-Conserves}
use ghalla.Console.Stores.{
  HealthFlag, SubscriptionRow, StoreFacts, PlatformStore, platform_store, health_flags, is_silent,
  stuck_backfill,
}
use ghalla.Console.Stores.Paging.{follow, follow-paginate, stores_of, IsPage}
use ghalla.Console.Alerts.{
  Alert, AlertKind, raise, store_alerts, acknowledge, active_acks, apply_acks, ack_ttl_ms,
}
use ghalla.Console.Alerts.Acks.{IsAckTable}
use ghalla.Console.Alerts.Silenced.{acknowledge-silences, shown_at}
use ghalla.Console.Presentation.{
  StoreView, cap_usage, store_presentation, flags_severity, join_lower, saved_view_counts,
  apply_store_view,
}
use ghalla.Console.Presentation.Views.{
  count_of, saved_view_counts-view, store_presentation-fine, is_fine,
}
use ghalla.Console.Presentation.Caps.{cap_usage-yearly}

abbrev state : Text → Option Text → SubscriptionStatus → SubscriptionState
state code pending status = record {
  plan_code = code;
  pending_plan_code = pending;
  pending_plan_effective_at = some (lit "2026-05-01");
  status = status;
}

abbrev rows : List SubscriptionState
rows =
    state (lit "starter") none SubscriptionStatus.active
    ∷ state (lit "growth") (some (lit "starter")) SubscriptionStatus.past_due
    ∷ state (lit "scale_annual") none SubscriptionStatus.active
    ∷ state (lit "ads") none SubscriptionStatus.trialing
    ∷ state (lit "gold") none SubscriptionStatus.active
    ∷ []

abbrev breakdown : MrrBreakdown
breakdown = record {
  list_mrr_minor = pos 75_217;
  list_arr_minor = pos 902_600;
  billed_stores = 4;
  by_plan =
      record { plan_code = lit "scale_annual"; stores = 1; list_mrr_minor = pos 37_417 }
      ∷ record { plan_code = lit "growth"; stores = 1; list_mrr_minor = pos 24_900 }
      ∷ record { plan_code = lit "starter"; stores = 1; list_mrr_minor = pos 12_900 }
      ∷ [];
  unknown_plans = (lit "gold", 1) ∷ [];
}

mrr_run : mrr rows (lit "2026-04-01") ≡ ok breakdown
unfolding mrr lookup insert eq_text lt_text plan_of is_billed annualised_price to_minor
    to_monthly_rate insert_revenue
mrr_run = refl

mrr-Conserves_example : Conserves (lit "2026-04-01") (billed_rows rows) breakdown
mrr-Conserves_example = mrr-Conserves rows (lit "2026-04-01") mrr_run

abbrev yearly_row : SubscriptionRow
yearly_row = record {
  effective_plan_code = lit "starter_annual";
  status = SubscriptionStatus.active;
}

abbrev annual : Plan
annual = record {
  interval = BillingInterval.year;
  order_cap = some 3_600;
  features = Feature.core ∷ [];
  price_minor = 129_000;
  annual_price_minor = 129_000;
  purchasable = true;
  monthly_equivalent = some (lit "starter");
}

starter_annual_found : plan_of (lit "starter_annual") ≡ some annual
unfolding plan_of lookup eq_text
starter_annual_found = refl

abbrev facts : Text → ℕ → StoreFacts
facts id orders = record {
  store_id = id;
  installed_at = 1_000;
  uninstalled_at = none;
  subscription = some yearly_row;
  coverage = some (pos 1_200);
  last_webhook_at = some 2_000;
  failed_jobs = 3;
  backfill = none;
  orders_in_period = orders;
  dashboard_session = none;
}

abbrev busy : PlatformStore
busy = platform_store (lit "salla") (facts (lit "s1") 400) 90_000_000

abbrev quiet : PlatformStore
quiet = platform_store (lit "salla") (facts (lit "s2") 12) 90_000

abbrev stores : List PlatformStore
stores = busy ∷ quiet ∷ busy ∷ []

busy_run : busy.health.flags ≡ HealthFlag.silent ∷ HealthFlag.coverage_low ∷ []
unfolding health_flags is_silent stuck_backfill is_paying
busy_run = refl

busy_label :
    (store_presentation busy).label
    ≡ lit "Over cap" ++ (32 ∷ 183 ∷ lit " silent") ++ (32 ∷ 183 ∷ lit " low coverage")
unfolding store_presentation cap_usage flags_severity health_flags is_silent stuck_backfill
    is_paying join_lower plan_of lookup eq_text
busy_label = refl

cap_usage-yearly_example :
    ((cap_usage busy).over_cap ≡ true) × ((usage_status 400 (some 3_600)).over_cap ≡ false)
cap_usage-yearly_example =
    cap_usage-yearly busy yearly_row annual 3_600 refl starter_annual_found refl refl (omega arith)
      (omega arith) (omega arith)

follow-paginate_example :
    (pages : List (List PlatformStore)) × ((follow 3 stores 0 2 ≡ some pages)
      × ((stores_of pages ≡ stores) × All (IsPage 2) pages))
follow-paginate_example = follow-paginate stores 2 (omega arith) refl

saved_view_counts-view_example :
    count_of StoreView.silent (saved_view_counts stores)
    ≡ length (apply_store_view stores (some StoreView.silent))
saved_view_counts-view_example = saved_view_counts-view stores StoreView.silent

store_presentation-fine_example : is_fine (store_presentation busy).severity ≡ (
    is_some busy.facts.uninstalled_at
    || (is_empty busy.health.flags && not (cap_usage busy).over_cap))
store_presentation-fine_example = store_presentation-fine busy

abbrev alerts : List Alert
alerts = store_alerts (lit "salla") (facts (lit "s1") 400) 90_000_000

abbrev silent_key : Text
silent_key = lit "silent_store:salla:s1"

alerts_run :
    alerts
    ≡ raise AlertKind.silent_store (lit "salla") (some (lit "s1"))
      ∷ raise AlertKind.failed_jobs (lit "salla") (some (lit "s1"))
      ∷ []
unfolding store_alerts is_silent stuck_backfill is_paying
alerts_run = refl

acknowledge-silences_example :
    IsAckTable (acknowledge [] silent_key (lit "me") none 80_000_000)
    × (apply_acks alerts
          (active_acks (acknowledge [] silent_key (lit "me") none 80_000_000) 90_000_000)
          90_000_000
        ≡ map
            (λ (alert : Alert).
              if eq_text silent_key alert.key
              then (if leb (80_000_000 + ack_ttl_ms) 90_000_000
                  then alert
                  else record alert { acknowledged_until = some (80_000_000 + ack_ttl_ms) })
              else shown_at 90_000_000 [] alert)
            alerts)
acknowledge-silences_example =
    acknowledge-silences silent_key (lit "me") none [] alerts 80_000_000 90_000_000 tt
