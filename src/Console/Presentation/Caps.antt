-- ===== src/Console/Presentation/Caps.antt =====
-- apps/ghalla-ops/src/lib/ui/presentation.ts: `capUsage` against the banner of the merchant.
use ghalla.Base.{ℕ, ◌*◌, ◌≤◌, ◌<◌, ◌≡◌, true, false, Option, none, some, ltb, leb, arith}
use ghalla.Contracts.Enums.{BillingInterval}
use ghalla.Billing.Plans.{Plan, plan_of, monthly_cap_of}
use ghalla.Billing.Usage.{usage_status}
use ghalla.Console.Stores.{PlatformStore, SubscriptionRow}
use ghalla.Console.Presentation.{cap_usage}

yearly_cap :
    (interval : BillingInterval) (order_cap : Option ℕ) {cap : ℕ}
    → interval ≡ BillingInterval.year
    → order_cap ≡ some cap
    → elim order_cap as (λ o. Option ℕ) [
      | none ↦ none
      | some c ↦
          some (elim interval as (λ i. ℕ) [
            | BillingInterval.year ↦ c
            | BillingInterval.month ↦ 12 * c
          ])
    ]
      ≡ some cap
yearly_cap BillingInterval.year none yearly capped = capped
yearly_cap BillingInterval.year (some c) yearly capped = capped
yearly_cap BillingInterval.month order_cap yearly capped = cc

-- A store on a plan that is billed by the year is shown as over its cap once the orders of its year
-- pass a twelfth of the cap, while the usage of the merchant counts them against the whole cap.
pub cap_usage-yearly :
    (store : PlatformStore) (row : SubscriptionRow) (plan : Plan) (cap : ℕ)
    → store.facts.subscription ≡ some row
    → plan_of row.effective_plan_code ≡ some plan
    → plan.interval ≡ BillingInterval.year
    → plan.order_cap ≡ some cap
    → 0 < cap
    → cap < 12 * store.facts.orders_in_period
    → store.facts.orders_in_period ≤ cap
    → ((cap_usage store).over_cap ≡ true)
      × ((usage_status store.facts.orders_in_period plan.order_cap).over_cap ≡ false)
unfolding cap_usage usage_status
cap_usage-yearly store row plan cap subscribed found yearly capped some_cap above within =
    let some_cap_test : leb cap 0 ≡ false = ground arith in
    let above_test : ltb cap (12 * store.facts.orders_in_period) ≡ true = ground arith in
    let within_test : ltb cap store.facts.orders_in_period ≡ false = ground arith in
    let by_year : monthly_cap_of plan ≡ some cap =
      yearly_cap plan.interval plan.order_cap yearly capped in
    (simp (subscribed, found, by_year, some_cap_test, above_test), simp (capped, within_test))
