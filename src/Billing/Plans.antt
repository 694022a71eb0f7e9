-- ===== src/Billing/Plans.antt =====
-- packages/billing/src/plans.ts: the table of plans and the comparison of two of them.
pub mod Cheapest
use ghalla.Base.{
  ℕ, ◌*◌, Bool, true, false, not, ◌&&◌, List, [], ◌∷◌, Option, none, some, if◌then◌else◌, any, ltb,
  is_some,
}
use ghalla.Base.Text.{Text, lit}
use ghalla.Base.Dict.{Dict, lookup}
use ghalla.Contracts.Enums.{BillingInterval}

pub data Feature : Type 0 where
  core attribution ltv reports : Feature

abbrev pub eq_feature : Feature → Feature → Bool
eq_feature Feature.core Feature.core = true
eq_feature Feature.attribution Feature.attribution = true
eq_feature Feature.ltv Feature.ltv = true
eq_feature Feature.reports Feature.reports = true
eq_feature _ _ = false

pub record Plan : Type 0 where
  pub interval : BillingInterval
  -- `none` is no cap
  pub order_cap : Option ℕ
  pub features : List Feature
  pub price_minor : ℕ
  pub annual_price_minor : ℕ
  pub purchasable : Bool
  pub monthly_equivalent : Option Text

-- A plan that is billed by the month, and the plan that is billed by the year for it
abbrev monthly : Option ℕ → List Feature → ℕ → ℕ → Bool → Plan
monthly cap features price annual purchasable = record {
  interval = BillingInterval.month;
  order_cap = cap;
  features = features;
  price_minor = price;
  annual_price_minor = annual;
  purchasable = purchasable;
  monthly_equivalent = none;
}

abbrev yearly : Option ℕ → List Feature → ℕ → Bool → Text → Plan
yearly cap features price purchasable month = record {
  interval = BillingInterval.year;
  order_cap = cap;
  features = features;
  price_minor = price;
  annual_price_minor = price;
  purchasable = purchasable;
  monthly_equivalent = some month;
}

abbrev only_core : List Feature
only_core = Feature.core ∷ []

abbrev all_features : List Feature
all_features = Feature.core ∷ Feature.attribution ∷ Feature.ltv ∷ Feature.reports ∷ []

abbrev pub starter : Plan
starter = monthly (some 300) only_core 12_900 129_000 true

-- `PLANS`
abbrev pub plans : Dict Plan
plans =
    (lit "starter", starter)
    ∷ (lit "growth", monthly (some 1_500) only_core 24_900 249_000 true)
    ∷ (lit "scale", monthly none only_core 44_900 449_000 true)
    ∷ (lit "ads", monthly none all_features 64_900 649_000 false)
    ∷ (lit "starter_annual", yearly (some 3_600) only_core 129_000 true (lit "starter"))
    ∷ (lit "growth_annual", yearly (some 18_000) only_core 249_000 true (lit "growth"))
    ∷ (lit "scale_annual", yearly none only_core 449_000 true (lit "scale"))
    ∷ (lit "ads_annual", yearly none all_features 649_000 false (lit "ads"))
    ∷ []

unfoldable pub plan_of : Text → Option Plan
plan_of code = lookup code plans

-- The cap in twelfths of an order, so that the cap of a year needs no division.
abbrev pub monthly_cap_of : Plan → Option ℕ
monthly_cap_of p = elim p.order_cap [
  | none ↦ none
  | some cap ↦
      some (elim p.interval [ BillingInterval.year ↦ cap | BillingInterval.month ↦ 12 * cap ])
]

abbrev pub includes : List Feature → Feature → Bool
includes features f = any (λ g. eq_feature g f) features

abbrev pub is_lower_cap : Option ℕ → Option ℕ → Bool
is_lower_cap none to = is_some to
is_lower_cap (some f) none = false
is_lower_cap (some f) (some t) = ltb t f

unfoldable pub is_downgrade : Plan → Plan → Bool
is_downgrade from to =
    if any (λ f. not (includes to.features f)) from.features
    then true
    else is_lower_cap (monthly_cap_of from) (monthly_cap_of to)

abbrev pub is_monthly : Plan → Bool
is_monthly p = elim p.interval [ BillingInterval.month ↦ true | BillingInterval.year ↦ false ]

abbrev pub sells : Feature → Plan → Bool
sells f p = p.purchasable && is_monthly p && includes p.features f

-- The loop over the table
unfoldable pub first_with : Feature → Dict Plan → Option Text
first_with f [] = none
first_with f ((code, p) ∷ rest) = if sells f p then some code else first_with f rest

unfoldable pub cheapest_plan_with : Feature → Option Text
cheapest_plan_with f = first_with f plans
