-- ===== src/Billing/Catalog/Agreement.antt =====
-- packages/billing/src/plan-catalog.ts: comparePlanCatalog and the agreement of the two tables.
use ghalla.Base.{
  ◌≡◌, ◌↔◌, refl, sym, ap, ◌∙◌, subst, true, false, ◌||◌, List, [], ◌∷◌, ◌++◌, Option, none, some,
  All, All-append, All-both, All-weaken, length, is_some, is_none, Option-cases, inl, inr, arith,
}
use ghalla.Base.Text.{Text, eq_text, eq_text_iff}
use ghalla.Base.Dict.{lookup, has}
use ghalla.Billing.Plans.{plan_of}
use ghalla.Billing.Catalog.{
  PlanListing, CatalogMismatch, all_agree, Listings, push_listing, group, add_listing, is_plan_code,
  each_listing, plan_mismatches, compare_groups, purchasable_plan_codes, missing_codes, verdict_of,
  compare_plan_catalog, mismatch_if,
}
use ghalla.Billing.Catalog.Grouping.{codes_of, group-at, group-is_some}
use ghalla.Billing.Catalog.Clean.{
  Agrees, IsDistinct, matches_code, matches-listing, append_empty, compare_groups-at,
  group-is_known, collected, missing-All,
}

-- No group is of a code of the list.
abbrev ApartFrom : List Text → Listings → Type 0
ApartFrom codes m = All (λ (e : Text × List PlanListing). has e.0 codes ≡ false) m

pushed_last :
    (code : Text) (l : PlanListing) (m : Listings)
    → All (λ (e : Text × List PlanListing). eq_text code e.0 ≡ false) m
    → push_listing code l m ≡ m ++ ((code, l ∷ []) ∷ [])
unfolding push_listing
pushed_last code l [] apart = refl
pushed_last code l ((first, ls) ∷ m) apart =
    let other : eq_text first code ≡ false =
      ground (arith, apart.0, eq_text_iff first code, eq_text_iff code first) in
    rw other (ap (λ (t : Listings). (first, ls) ∷ t) (pushed_last code l m apart.1))

compare_groups-append :
    (m : Listings) (code : Text) (ls : List PlanListing)
    → compare_groups m ≡ []
    → plan_mismatches code (plan_of code) ls ≡ []
    → compare_groups (m ++ ((code, ls) ∷ [])) ≡ []
unfolding compare_groups
compare_groups-append [] code ls before same = rw same refl
compare_groups-append ((first, old) ∷ m) code ls before same =
    let (here, there) =
      append_empty (plan_mismatches first (plan_of first) old) (compare_groups m) before in
    rw here (compare_groups-append m code ls there same)

one_listing :
    (code : Text) (l : PlanListing)
    → matches_code (some code) l ≡ true
    → (is_plan_code code ≡ true) × (plan_mismatches code (plan_of code) (l ∷ []) ≡ [])
unfolding each_listing
one_listing code l same = elim (Option-cases (plan_of code)) [
  | inl missing ↦ absurd (let e = rw missing at same in cc)
  | inr (plan, found) ↦
      let clean = (matches-listing code plan l).0 (rw found at same) in
      (rw found refl, rw (found, clean) refl)
]

abbrev IsCleanState : List Text → List CatalogMismatch × Listings → Type 0
IsCleanState codes (found, m) = (found ≡ []) × (ApartFrom codes m × (compare_groups m ≡ []))

added_clean :
    (l : PlanListing) (code : Option Text) (codes : List Text)
    (state : List CatalogMismatch × Listings)
    → matches_code code l ≡ true
    → IsDistinct (elim code [ none ↦ codes | some c ↦ c ∷ codes ])
    → IsCleanState (elim code [ none ↦ codes | some c ↦ c ∷ codes ]) state
    → IsDistinct codes × IsCleanState codes (add_listing l code state)
unfolding has
added_clean l none codes state same distinct clean = cc
added_clean l (some code) codes (found, m) same distinct (start, (apart, before)) =
    let (known, single) = one_listing code l same in
    let here =
      All-weaken (λ (e : Text × List PlanListing). (eq_text code e.0 || has e.0 codes) ≡ false)
        (λ (e : Text × List PlanListing). eq_text code e.0 ≡ false) m (λ e p. ground arith) apart in
    let rest =
      All-weaken (λ (e : Text × List PlanListing). (eq_text code e.0 || has e.0 codes) ≡ false)
        (λ (e : Text × List PlanListing). has e.0 codes ≡ false) m (λ e p. ground arith) apart in
    let last = pushed_last code l m here in
    (
      distinct.1,
      rw known (
        start,
        (
          subst (ApartFrom codes) (sym last)
              (All-append _ m ((code, l ∷ []) ∷ []) rest (distinct.0, tt)),
          subst (λ (t : Listings). compare_groups t ≡ []) (sym last)
              (compare_groups-append m code (l ∷ []) before single),
        ),
      ),
    )

group_clean :
    (ls : List PlanListing) (state : List CatalogMismatch × Listings)
    → All (λ (l : PlanListing). matches_code l.plan_code l ≡ true) ls
    → IsDistinct (codes_of ls)
    → IsCleanState (codes_of ls) state
    → IsCleanState [] (group ls state)
unfolding group codes_of
group_clean [] state same distinct clean = clean
group_clean (l ∷ ls) state same distinct clean =
    let (later, next) = added_clean l l.plan_code (codes_of ls) state same.0 distinct clean in
    group_clean ls (add_listing l l.plan_code state) same.1 later next

none_missing :
    (m : Listings) (codes : List Text)
    → All (λ code. is_some (lookup code m) ≡ true) codes
    → missing_codes m codes ≡ []
unfolding missing_codes
none_missing m [] h = refl
none_missing m (code ∷ codes) h = rw (go (lookup code m) _ h.0) (none_missing m codes h.1)
  where
    go :
        (o : Option (List PlanListing)) (x : CatalogMismatch)
        → is_some o ≡ true
        → mismatch_if (is_none o) x ≡ []
    go none x p = cc
    go (some ls) x p = refl

purchasable_known : All (λ code. is_plan_code code ≡ true) purchasable_plan_codes
unfolding plan_of lookup eq_text
purchasable_known = (refl, (refl, (refl, (refl, (refl, (refl, tt))))))

found_nothing :
    (found : List CatalogMismatch)
    → verdict_of found ≡ all_agree (length purchasable_plan_codes)
    → found ≡ []
found_nothing [] h = refl
found_nothing (x ∷ found) h = cc

Agrees-compare_plan_catalog :
    (remote : List PlanListing)
    → Agrees remote
    → compare_plan_catalog remote ≡ all_agree (length purchasable_plan_codes)
unfolding compare_plan_catalog compare_groups lookup
Agrees-compare_plan_catalog remote (same, (distinct, complete)) =
    let (found, (apart, groups)) = group_clean remote ([], []) same distinct (refl, (tt, refl)) in
    let every =
      All-both (λ code. is_plan_code code ≡ true) (λ code. has code (codes_of remote) ≡ true)
        purchasable_plan_codes purchasable_known complete in
    let listed = none_missing (group remote ([], [])).1 purchasable_plan_codes (
      All-weaken (λ code. (is_plan_code code ≡ true) × (has code (codes_of remote) ≡ true))
        (λ code. is_some (lookup code (group remote ([], [])).1) ≡ true) purchasable_plan_codes
        (λ code p. group-is_some code remote ([], []) p.0 ∙ p.1) every) in
    rw (found, groups, listed) refl

found_nothing-Agrees :
    (remote : List PlanListing)
    → compare_plan_catalog remote ≡ all_agree (length purchasable_plan_codes)
    → Agrees remote
unfolding compare_plan_catalog lookup
found_nothing-Agrees remote h =
    let (found, by_code) = group remote ([], []) in
    let (before, listed) = append_empty (found ++ compare_groups by_code) _ (found_nothing _ h) in
    let (start, groups) = append_empty found (compare_groups by_code) before in
    let (nothing, known) = group-is_known remote ([], []) start in
    let (same, distinct) = collected remote known (λ code is_one.
      subst (λ (ls : List PlanListing). plan_mismatches code (plan_of code) ls ≡ [])
        (group-at code remote ([], []) is_one) (compare_groups-at code by_code groups)) in
    (
      same,
      (
        distinct,
        All-weaken (λ code. (is_plan_code code ≡ true) × (is_some (lookup code by_code) ≡ true))
            (λ code. has code (codes_of remote) ≡ true) purchasable_plan_codes
            (λ code p. sym (group-is_some code remote ([], []) p.0) ∙ p.1)
            (All-both (λ code. is_plan_code code ≡ true)
              (λ code. is_some (lookup code by_code) ≡ true) purchasable_plan_codes
              purchasable_known (missing-All by_code purchasable_plan_codes listed)),
      ),
    )

-- The comparison of the catalogs finds nothing exactly where every listing of the platform is of a
-- plan that is for sale, at its price and for its interval, no two are of one plan, and every plan
-- that is for sale is listed.
pub compare_plan_catalog-Agrees :
    (remote : List PlanListing)
    → (compare_plan_catalog remote ≡ all_agree (length purchasable_plan_codes)) ↔ Agrees remote
compare_plan_catalog-Agrees remote =
    (found_nothing-Agrees remote, Agrees-compare_plan_catalog remote)
