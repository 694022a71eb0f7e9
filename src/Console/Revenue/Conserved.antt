-- ===== src/Console/Revenue/Conserved.antt =====
-- apps/ghalla-ops/src/lib/queries/subscriptions.ts: the figures of `mrr` and the billed
-- subscriptions.
use ghalla.Base.{
  ℕ, ◌+◌, ◌*◌, ◌≤◌, ◌<◌, ◌≡◌, refl, sym, ap, ◌∙◌, ◌/◌, subst, List, [], ◌∷◌, Option, none, some,
  length, sum_by, arith, or_else,
}
use ghalla.Base.Int.{ℤ, pos, abs}
use ghalla.Base.Text.{Text}
use ghalla.Base.Dict.{Dict, lookup}
use ghalla.Base.Result.{ok, >>=-eq-ok, ok-injective, map_result}
use ghalla.Contracts.Enums.{BillingInterval}
use ghalla.Money.{to_minor}
use ghalla.Money.Exact.{to_minor-ok}
use ghalla.Billing.Plans.{Plan, plan_of}
use ghalla.Billing.Catalog.{annualised_price, to_monthly_rate}
use ghalla.Console.Revenue.{
  SubscriptionState, PlanRevenue, PlanTotal, MrrBreakdown, count_row, count_rows, plan_in_force,
  breakdown_of, billed_rows, mrr, revenue_of, count_at, add_to_total, no_total,
}
use ghalla.Console.Revenue.Sums.{
  total_of, worth, total_of-insert, sort_revenue-stores, revenue_of-stores,
}

-- What a subscription bills in a year at list price: twelve months of a plan by the month, and
-- nothing for a plan that is not in the table
abbrev pub list_price : Option Plan → ℕ
list_price none = 0
list_price (some plan) = elim plan.interval [
  | BillingInterval.month ↦ plan.price_minor * 12
  | BillingInterval.year ↦ plan.price_minor
]

abbrev pub list_price_of : Text → SubscriptionState → ℕ
list_price_of at s = list_price (plan_of (plan_in_force s at))

abbrev stores_in : Dict PlanTotal × Dict ℕ → ℕ
stores_in (by_plan, unknown) =
    total_of (λ (t : PlanTotal). t.stores) by_plan + total_of (λ (n : ℕ). n) unknown

abbrev amount_in : Dict PlanTotal × Dict ℕ → ℕ
amount_in (by_plan, unknown) = total_of (λ (t : PlanTotal). t.annualised) by_plan

abs_pos : (n : ℕ) → abs (pos n) ≡ n
abs_pos n = omega arith

annualised-list_price :
    (plan : Plan) {price : ℤ}
    → annualised_price plan ≡ ok price
    → abs price ≡ list_price (some plan)
unfolding annualised_price
annualised-list_price plan h = ap abs (to_minor-ok _ h).0 ∙ abs_pos (list_price (some plan))

worth_or {ℓ} :
    {V : Type ℓ} (f : V → ℕ) (default : V) (o : Option V)
    → f default ≡ 0
    → worth f o ≡ f (or_else o default)
worth_or f default none h = sym h
worth_or f default (some v) h = refl

counted :
    (code : Text) (plan : Option Plan) (state : Dict PlanTotal × Dict ℕ)
    {next : Dict PlanTotal × Dict ℕ}
    → count_row code plan state ≡ ok next
    → (stores_in next ≡ stores_in state + 1) × (amount_in next ≡ amount_in state + list_price plan)
counted code none (by_plan, unknown) {next} h =
    let set = total_of-insert (λ (n : ℕ). n) code (count_at code unknown + 1) unknown in
    let old = worth_or (λ (n : ℕ). n) 0 (lookup code unknown) refl in
    let same = sym (ok-injective {b = next} h) in
    (ap stores_in same ∙ omega (arith, set, old), ap amount_in same ∙ omega arith)
counted code (some plan) (by_plan, unknown) {next} h =
    let (price, checked, out) = >>=-eq-ok (annualised_price plan) _ h in
    let old = or_else (lookup code by_plan) no_total in
    let set =
      λ (f : PlanTotal → ℕ). total_of-insert f code (add_to_total (abs price) old) by_plan in
    let stores_set = set (λ t. t.stores) in
    let amount_set = set (λ t. t.annualised) in
    let stores_old = worth_or (λ (t : PlanTotal). t.stores) no_total (lookup code by_plan) refl in
    let amount_old =
      worth_or (λ (t : PlanTotal). t.annualised) no_total (lookup code by_plan) refl in
    let amount = annualised-list_price plan checked in
    let same = sym (ok-injective {b = next} out) in
    (
      ap stores_in same ∙ omega (arith, stores_set, stores_old),
      ap amount_in same ∙ omega (arith, amount_set, amount_old, amount),
    )

count_rows-conserves :
    (at : Text) (rows : List SubscriptionState) (state : Dict PlanTotal × Dict ℕ)
    {next : Dict PlanTotal × Dict ℕ}
    → count_rows at rows state ≡ ok next
    → (stores_in next ≡ stores_in state + length rows)
      × (amount_in next ≡ amount_in state + sum_by (list_price_of at) rows)
unfolding count_rows
count_rows-conserves at [] state {next} h =
    let same = sym (ok-injective {b = next} h) in
    (ap stores_in same ∙ omega arith, ap amount_in same ∙ omega arith)
count_rows-conserves at (s ∷ rows) state h =
    let code = plan_in_force s at in
    let (mid, first, rest) = >>=-eq-ok (count_row code (plan_of code) state) _ h in
    let (stores, amount) = counted code (plan_of code) state first in
    let (more, later) = count_rows-conserves at rows mid rest in
    (omega (arith, stores, more), omega (arith, amount, later))

-- The counts add up to the billed subscriptions; the annual figure is the sum of the list prices; the
-- monthly figure is its twelfth, rounded to the nearest.
abbrev pub Conserves : Text → List SubscriptionState → MrrBreakdown → Type 0
Conserves at billed b =
    (b.billed_stores ≡ length billed)
    × ((sum_by (λ (r : PlanRevenue). r.stores) b.by_plan + total_of (λ (n : ℕ). n) b.unknown_plans
          ≡ b.billed_stores)
        × ((b.list_arr_minor ≡ pos (sum_by (list_price_of at) billed))
            × ((12 * abs b.list_mrr_minor ≤ abs b.list_arr_minor + 6)
                × (abs b.list_arr_minor < 12 * abs b.list_mrr_minor + 6))))

breakdown_of-Conserves :
    (at : Text) (billed : List SubscriptionState) (by_plan : Dict PlanTotal) (unknown : Dict ℕ)
    {b : MrrBreakdown}
    → stores_in (by_plan, unknown) ≡ length billed
    → amount_in (by_plan, unknown) ≡ sum_by (list_price_of at) billed
    → breakdown_of (length billed) by_plan unknown ≡ ok b
    → Conserves at billed b
unfolding to_monthly_rate
breakdown_of-Conserves at billed by_plan unknown {b} stores amount h =
    let (revenues, mapped, h₁) = >>=-eq-ok (map_result revenue_of by_plan) _ h in
    let total = total_of (λ (t : PlanTotal). t.annualised) by_plan in
    let (rate, rate_checked, h₂) = >>=-eq-ok (to_minor (pos (to_monthly_rate total))) _ h₁ in
    let (arr, arr_checked, h₃) = >>=-eq-ok (to_minor (pos total)) _ h₂ in
    let sorted = sort_revenue-stores revenues ∙ revenue_of-stores by_plan mapped in
    let rate_is : abs rate ≡ (total + 6) / 12 =
      ap abs (to_minor-ok _ rate_checked).0 ∙ abs_pos ((total + 6) / 12) in
    let arr_is = (to_minor-ok _ arr_checked).0 in
    let arr_abs : abs arr ≡ total = ap abs arr_is ∙ abs_pos total in
    subst (Conserves at billed) (ok-injective {b = b} h₃) (
      refl,
      (
        omega (arith, stores, sorted),
        (
          arr_is ∙ ap pos amount,
          (omega (arith, rate_is, arr_abs), omega (arith, rate_is, arr_abs)),
        ),
      ),
    )

-- In a breakdown of recurring revenue the counts by plan and the counts of unknown plans add up to the
-- number of billed subscriptions; its annual figure is the sum of the list prices of the plans in
-- force; and the monthly figure is a twelfth of that sum, rounded once to the nearest amount.
pub mrr-Conserves :
    (rows : List SubscriptionState) (at : Text) {b : MrrBreakdown}
    → mrr rows at ≡ ok b
    → Conserves at (billed_rows rows) b
unfolding mrr
mrr-Conserves rows at h =
    let ((by_plan, unknown), rows_counted, out) =
      >>=-eq-ok (count_rows at (billed_rows rows) ([], [])) _ h in
    let (stores, amount) = count_rows-conserves at (billed_rows rows) ([], []) rows_counted in
    breakdown_of-Conserves at (billed_rows rows) by_plan unknown (omega (arith, stores))
      (omega (arith, amount)) out
