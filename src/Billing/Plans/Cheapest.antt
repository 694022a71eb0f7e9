-- ===== src/Billing/Plans/Cheapest.antt =====
-- packages/billing/src/plans.ts: the plan that the table has for a feature, and its price.
use ghalla.Base.{◌≡◌, refl, Bool, true, false, not, ◌&&◌, ◌||◌, Option, none, some, all, leb}
use ghalla.Base.Text.{Text, eq_text}
use ghalla.Base.Dict.{lookup}
use ghalla.Billing.Plans.{Feature, Plan, plans, sells, first_with, cheapest_plan_with, plan_of}

-- Whether the plan with a code sells a feature, and no plan of the table that sells it costs less.
abbrev pub is_cheapest : Feature → Option Text → Bool
is_cheapest f none = all (λ (e : Text × Plan). not (sells f e.1)) plans
is_cheapest f (some code) = elim (plan_of code) [
  | none ↦ false
  | some p ↦
      sells f p
      && all (λ (e : Text × Plan). not (sells f e.1) || leb p.price_minor e.1.price_minor) plans
]

-- The plan that is offered for a feature sells it and is the cheapest plan by the month that does;
-- none is offered only where no plan sells the feature.
cheapest_plan_with-cheapest : (f : Feature) → is_cheapest f (cheapest_plan_with f) ≡ true
unfolding cheapest_plan_with first_with plan_of lookup eq_text
cheapest_plan_with-cheapest Feature.core = refl
cheapest_plan_with-cheapest Feature.attribution = refl
cheapest_plan_with-cheapest Feature.ltv = refl
cheapest_plan_with-cheapest Feature.reports = refl
