-- ===== src/Billing/Catalog.antt =====
-- packages/billing/src/plan-catalog.ts: the table of plans against the one of the platform.
-- packages/billing/src/pricing.ts: the prices of plans as rates.
pub mod Grouping
pub mod Clean
pub mod Agreement
use ghalla.Base.{
  ℕ, ◌+◌, ◌*◌, ◌/◌, Bool, true, false, not, List, [], ◌∷◌, ◌++◌, Option, none, some, map, filter,
  length, if◌then◌else◌, ltb, is_some, is_none, is_empty,
}
use ghalla.Base.Int.{ℤ, pos, eq_ℤ}
use ghalla.Base.Text.{Text, eq_text}
use ghalla.Base.Dict.{Dict, lookup}
use ghalla.Base.Result.{Result}
use ghalla.Contracts.Enums.{BillingInterval}
use ghalla.Money.{to_minor}
use ghalla.Billing.Plans.{Plan, plans, plan_of}

pub record PlanListing : Type 0 where
  pub platform_plan_id : Text
  pub plan_code : Option Text
  pub price_minor : ℤ
  pub interval : BillingInterval

pub data CatalogMismatch : Type 0 where
  missing_remotely : Text → CatalogMismatch
  unmapped_remote_plan : Text → CatalogMismatch
  unknown_plan_code : Text → Text → CatalogMismatch
  price_differs : Text → ℕ → ℤ → CatalogMismatch
  interval_differs : Text → BillingInterval → BillingInterval → CatalogMismatch
  unpurchasable_plan_listed : Text → Text → CatalogMismatch
  duplicate_mapping : Text → List Text → CatalogMismatch

pub data CatalogVerdict : Type 0 where
  all_agree : ℕ → CatalogVerdict
  mismatch : List CatalogMismatch → CatalogVerdict

abbrev pub Listings : Type 0
Listings = Dict (List PlanListing)

abbrev pub eq_interval : BillingInterval → BillingInterval → Bool
eq_interval BillingInterval.month BillingInterval.month = true
eq_interval BillingInterval.month BillingInterval.year = false
eq_interval BillingInterval.year BillingInterval.month = false
eq_interval BillingInterval.year BillingInterval.year = true

-- `isPlanCode`
abbrev pub is_plan_code : Text → Bool
is_plan_code code = is_some (plan_of code)

-- `existing.push(listing)` where the code has listings, else `byCode.set(code, [listing])`
unfoldable pub push_listing : Text → PlanListing → Listings → Listings
push_listing code listing [] = (code, listing ∷ []) ∷ []
push_listing code listing ((first, existing) ∷ rest) =
    if eq_text first code
    then (first, existing ++ (listing ∷ [])) ∷ rest
    else (first, existing) ∷ push_listing code listing rest

abbrev pub add_listing :
    PlanListing → Option Text → List CatalogMismatch × Listings → List CatalogMismatch × Listings
add_listing listing none (found, by_code) =
    (found ++ (unmapped_remote_plan listing.platform_plan_id ∷ []), by_code)
add_listing listing (some code) (found, by_code) =
    if is_plan_code code
    then (found, push_listing code listing by_code)
    else (found ++ (unknown_plan_code listing.platform_plan_id code ∷ []), by_code)

-- The first loop
unfoldable pub group :
    List PlanListing → List CatalogMismatch × Listings → List CatalogMismatch × Listings
group [] state = state
group (listing ∷ rest) state = group rest (add_listing listing listing.plan_code state)

abbrev pub mismatch_if : Bool → CatalogMismatch → List CatalogMismatch
mismatch_if true m = m ∷ []
mismatch_if false m = []

abbrev pub listing_mismatches : Text → Plan → PlanListing → List CatalogMismatch
listing_mismatches code plan listing =
    mismatch_if (not plan.purchasable) (unpurchasable_plan_listed code listing.platform_plan_id)
    ++ (mismatch_if (not (eq_ℤ listing.price_minor (pos plan.price_minor)))
          (price_differs code plan.price_minor listing.price_minor)
        ++ mismatch_if (not (eq_interval listing.interval plan.interval))
            (interval_differs code plan.interval listing.interval))

unfoldable pub each_listing : Text → Plan → List PlanListing → List CatalogMismatch
each_listing code plan [] = []
each_listing code plan (listing ∷ rest) =
    listing_mismatches code plan listing ++ each_listing code plan rest

-- Only codes of the table are grouped.
abbrev pub plan_mismatches : Text → Option Plan → List PlanListing → List CatalogMismatch
plan_mismatches code none listings = []
plan_mismatches code (some plan) listings =
    mismatch_if (ltb 1 (length listings))
      (duplicate_mapping code (map (λ (l : PlanListing). l.platform_plan_id) listings))
    ++ each_listing code plan listings

-- The second loop
unfoldable pub compare_groups : Listings → List CatalogMismatch
compare_groups [] = []
compare_groups ((code, listings) ∷ rest) =
    plan_mismatches code (plan_of code) listings ++ compare_groups rest

abbrev pub purchasable_plan_codes : List Text
purchasable_plan_codes =
    map (λ (e : Text × Plan). e.0) (filter (λ (e : Text × Plan). e.1.purchasable) plans)

-- The third loop
unfoldable pub missing_codes : Listings → List Text → List CatalogMismatch
missing_codes by_code [] = []
missing_codes by_code (code ∷ codes) =
    mismatch_if (is_none (lookup code by_code)) (missing_remotely code)
    ++ missing_codes by_code codes

abbrev pub verdict_of : List CatalogMismatch → CatalogVerdict
verdict_of found =
    if is_empty found then all_agree (length purchasable_plan_codes) else mismatch found

unfoldable pub compare_plan_catalog : List PlanListing → CatalogVerdict
unfolding group compare_groups missing_codes
compare_plan_catalog remote =
    let (found, by_code) = group remote ([], []) in
    verdict_of ((found ++ compare_groups by_code) ++ missing_codes by_code purchasable_plan_codes)

-- Halalas in a year
unfoldable pub annualised_price : Plan → Result ℤ
annualised_price plan = to_minor (
    pos (elim plan.interval [
      | BillingInterval.year ↦ plan.price_minor
      | BillingInterval.month ↦ plan.price_minor * 12
    ]))

-- `Math.round(n / 12)` of an amount that is not negative: halves go up.
unfoldable pub to_monthly_rate : ℕ → ℕ
to_monthly_rate annualised = (annualised + 6) / 12
