-- ===== src/Billing/CatalogTests.antt =====
-- Runs of the comparison of the catalogs.
use ghalla.Base.{◌≡◌, ◌↔◌, refl, List, [], ◌∷◌, Option, none, some, length}
use ghalla.Base.Int.{ℤ, pos}
use ghalla.Base.Text.{Text, lit, eq_text}
use ghalla.Base.Dict.{lookup}
use ghalla.Contracts.Enums.{BillingInterval}
use ghalla.Billing.Plans.{plan_of}
use ghalla.Billing.Catalog.{
  PlanListing, mismatch, unmapped_remote_plan, unknown_plan_code, price_differs, duplicate_mapping,
  missing_remotely, all_agree, compare_plan_catalog, push_listing, each_listing,
  purchasable_plan_codes, unpurchasable_plan_listed, to_monthly_rate,
}
use ghalla.Billing.Catalog.Clean.{Agrees}
use ghalla.Billing.Catalog.Agreement.{compare_plan_catalog-Agrees}

abbrev listing : Text → Option Text → ℤ → BillingInterval → PlanListing
listing id code price interval = record {
  platform_plan_id = id;
  plan_code = code;
  price_minor = price;
  interval = interval;
}

abbrev by_month : List PlanListing
by_month =
    listing (lit "1") (some (lit "starter")) (pos 12_900) BillingInterval.month
    ∷ listing (lit "2") (some (lit "growth")) (pos 24_900) BillingInterval.month
    ∷ listing (lit "3") (some (lit "scale")) (pos 44_900) BillingInterval.month
    ∷ []

abbrev all_plans : List PlanListing
all_plans =
    listing (lit "4") (some (lit "scale_annual")) (pos 449_000) BillingInterval.year
    ∷ listing (lit "5") (some (lit "starter_annual")) (pos 129_000) BillingInterval.year
    ∷ listing (lit "6") (some (lit "growth_annual")) (pos 249_000) BillingInterval.year
    ∷ by_month

all_plans_run : compare_plan_catalog all_plans ≡ all_agree 6
unfolding compare_plan_catalog lookup eq_text push_listing each_listing plan_of
all_plans_run = refl

abbrev odd_plans : List PlanListing
odd_plans =
    listing (lit "7") none (pos 1) BillingInterval.month
    ∷ listing (lit "8") (some (lit "gold")) (pos 1) BillingInterval.month
    ∷ listing (lit "9") (some (lit "starter")) (pos 19_900) BillingInterval.month
    ∷ listing (lit "10") (some (lit "ads")) (pos 64_900) BillingInterval.month
    ∷ all_plans

odd_plans_run :
    compare_plan_catalog odd_plans
    ≡ mismatch (
        unmapped_remote_plan (lit "7")
        ∷ unknown_plan_code (lit "8") (lit "gold")
        ∷ duplicate_mapping (lit "starter") (lit "9" ∷ lit "1" ∷ [])
        ∷ price_differs (lit "starter") 12_900 (pos 19_900)
        ∷ unpurchasable_plan_listed (lit "ads") (lit "10")
        ∷ [])
unfolding compare_plan_catalog lookup eq_text push_listing each_listing plan_of
odd_plans_run = refl

monthly_only_run :
    compare_plan_catalog by_month
    ≡ mismatch (
        missing_remotely (lit "starter_annual")
        ∷ missing_remotely (lit "growth_annual")
        ∷ missing_remotely (lit "scale_annual")
        ∷ [])
unfolding compare_plan_catalog lookup eq_text push_listing each_listing plan_of
monthly_only_run = refl

compare_plan_catalog-Agrees_example :
    (compare_plan_catalog all_plans ≡ all_agree (length purchasable_plan_codes)) ↔ Agrees all_plans
compare_plan_catalog-Agrees_example = compare_plan_catalog-Agrees all_plans

monthly_rate_run : to_monthly_rate 449_000 ≡ 37_417
unfolding to_monthly_rate
monthly_rate_run = refl
