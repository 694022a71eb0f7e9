-- ===== src/Console/Revenue.antt =====
-- apps/ghalla-ops/src/lib/queries/subscriptions.ts: the counts of subscriptions and the recurring
-- revenue that follows from them.
pub mod Sums
pub mod Conserved
pub mod Statuses
use ghalla.Base.{
  ℕ, ◌+◌, List, [], ◌∷◌, Option, none, some, map, filter, length, or_else, sum_by, if◌then◌else◌,
}
use ghalla.Base.Int.{ℤ, pos, abs, ltb_ℤ}
use ghalla.Base.Text.{Text, lit}
use ghalla.Base.Dict.{Dict, lookup, insert}
use ghalla.Base.Result.{Result, ok, ◌>>=◌, map_result}
use ghalla.Contracts.Enums.{SubscriptionStatus}
use ghalla.Money.{to_minor}
use ghalla.Billing.Plans.{Plan, plan_of}
use ghalla.Billing.Subscription.{plan_at}
use ghalla.Billing.Access.{is_billed}
use ghalla.Billing.Catalog.{annualised_price, to_monthly_rate}

-- The columns of `store_subscription` that are read
pub record SubscriptionState : Type 0 where
  pub plan_code : Text
  pub pending_plan_code : Option Text
  pub pending_plan_effective_at : Option Text
  pub status : SubscriptionStatus

pub record StatusCounts : Type 0 where
  pub active : ℕ
  pub trialing : ℕ
  pub past_due : ℕ
  pub canceled : ℕ
  pub expired : ℕ
  pub subscriptions : ℕ

pub record PlanRevenue : Type 0 where
  pub plan_code : Text
  pub stores : ℕ
  pub list_mrr_minor : ℤ

pub record MrrBreakdown : Type 0 where
  pub list_mrr_minor : ℤ
  pub list_arr_minor : ℤ
  pub billed_stores : ℕ
  pub by_plan : List PlanRevenue
  pub unknown_plans : Dict ℕ

pub record PlanTotal : Type 0 where
  pub stores : ℕ
  pub annualised : ℕ

abbrev pub status_text : SubscriptionStatus → Text
status_text SubscriptionStatus.trialing = lit "trialing"
status_text SubscriptionStatus.active = lit "active"
status_text SubscriptionStatus.past_due = lit "past_due"
status_text SubscriptionStatus.canceled = lit "canceled"
status_text SubscriptionStatus.expired = lit "expired"

-- `tally.get(key) ?? 0`
abbrev pub count_at : Text → Dict ℕ → ℕ
count_at key tally = or_else (lookup key tally) 0

unfoldable pub tally : List Text → Dict ℕ → Dict ℕ
tally [] counts = counts
tally (key ∷ keys) counts = tally keys (insert key (count_at key counts + 1) counts)

unfoldable pub status_counts : List SubscriptionState → StatusCounts
unfolding tally
status_counts rows =
    let counts = tally (map (λ (s : SubscriptionState). status_text s.status) rows) [] in
    record {
      active = count_at (status_text SubscriptionStatus.active) counts;
      trialing = count_at (status_text SubscriptionStatus.trialing) counts;
      past_due = count_at (status_text SubscriptionStatus.past_due) counts;
      canceled = count_at (status_text SubscriptionStatus.canceled) counts;
      expired = count_at (status_text SubscriptionStatus.expired) counts;
      subscriptions = length rows;
    }

abbrev pub no_total : PlanTotal
no_total = record { stores = 0; annualised = 0 }

abbrev pub add_to_total : ℕ → PlanTotal → PlanTotal
add_to_total annualised t = record { stores = t.stores + 1; annualised = t.annualised + annualised }

abbrev pub count_row :
    Text → Option Plan → Dict PlanTotal × Dict ℕ → Result (Dict PlanTotal × Dict ℕ)
count_row code none (by_plan, unknown) =
    ok (by_plan, insert code (count_at code unknown + 1) unknown)
count_row code (some plan) (by_plan, unknown) = annualised_price plan >>= λ price. ok (
  insert code (add_to_total (abs price) (or_else (lookup code by_plan) no_total)) by_plan,
  unknown,
)

abbrev pub plan_in_force : SubscriptionState → Text → Text
plan_in_force s at = plan_at s.plan_code s.pending_plan_code s.pending_plan_effective_at at

-- The loop over the rows
unfoldable pub count_rows :
    Text → List SubscriptionState → Dict PlanTotal × Dict ℕ → Result (Dict PlanTotal × Dict ℕ)
count_rows at [] state = ok state
count_rows at (s ∷ rows) state =
    let code = plan_in_force s at in
    count_row code (plan_of code) state >>= λ next. count_rows at rows next

abbrev pub revenue_of : Text × PlanTotal → Result PlanRevenue
revenue_of (code, total) = to_minor (pos (to_monthly_rate total.annualised)) >>= λ rate.
    ok (record { plan_code = code; stores = total.stores; list_mrr_minor = rate })

-- `sort((a, b) => b.listMrrMinor - a.listMrrMinor)`
unfoldable pub insert_revenue : PlanRevenue → List PlanRevenue → List PlanRevenue
insert_revenue r [] = r ∷ []
insert_revenue r (s ∷ rest) =
    if ltb_ℤ r.list_mrr_minor s.list_mrr_minor then s ∷ insert_revenue r rest else r ∷ s ∷ rest

unfoldable pub sort_revenue : List PlanRevenue → List PlanRevenue
sort_revenue [] = []
sort_revenue (r ∷ rest) = insert_revenue r (sort_revenue rest)

abbrev pub billed_rows : List SubscriptionState → List SubscriptionState
billed_rows = filter (λ (s : SubscriptionState). is_billed s.status)

abbrev pub breakdown_of : ℕ → Dict PlanTotal → Dict ℕ → Result MrrBreakdown
breakdown_of billed by_plan unknown = map_result revenue_of by_plan >>= λ revenues.
    let total = sum_by (λ (e : Text × PlanTotal). e.1.annualised) by_plan in
    to_minor (pos (to_monthly_rate total)) >>= λ mrr_minor. to_minor (pos total) >>= λ arr_minor.
    ok (record {
      list_mrr_minor = mrr_minor;
      list_arr_minor = arr_minor;
      billed_stores = billed;
      by_plan = sort_revenue revenues;
      unknown_plans = unknown;
    })

unfoldable pub mrr : List SubscriptionState → Text → Result MrrBreakdown
unfolding count_rows sort_revenue
mrr rows at =
    let billed = billed_rows rows in
    count_rows at billed ([], []) >>= λ (by_plan, unknown).
    breakdown_of (length billed) by_plan unknown
