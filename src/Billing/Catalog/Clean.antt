-- ===== src/Billing/Catalog/Clean.antt =====
-- packages/billing/src/plan-catalog.ts: what holds of listings where comparePlanCatalog finds nothing.
use ghalla.Base.{
  ◌≡◌, ◌↔◌, refl, sym, subst, Bool, true, false, not, ◌&&◌, List, [], ◌∷◌, ◌++◌, Option, none, some,
  All, length, ltb, if◌then◌else◌, is_some, is_none, Bool-cases, Option-cases, inl, inr, arith,
}
use ghalla.Base.Int.{pos, eq_ℤ}
use ghalla.Base.Text.{Text, eq_text, eq_text_iff, eq_text_refl}
use ghalla.Base.Dict.{lookup, has}
use ghalla.Billing.Plans.{Plan, plan_of}
use ghalla.Billing.Catalog.{
  PlanListing, CatalogMismatch, Listings, group, add_listing, is_plan_code, eq_interval,
  listing_mismatches, each_listing, plan_mismatches, compare_groups, purchasable_plan_codes,
  missing_codes, mismatch_if,
}
use ghalla.Billing.Catalog.Grouping.{codes_of, of_code, has_code, listings_at}

abbrev pub matches_plan : Option Plan → PlanListing → Bool
matches_plan none l = false
matches_plan (some plan) l =
    plan.purchasable
    && (eq_ℤ l.price_minor (pos plan.price_minor) && eq_interval l.interval plan.interval)

-- Whether a listing is of a plan that is for sale, at its price and for its interval
abbrev pub matches_code : Option Text → PlanListing → Bool
matches_code none l = false
matches_code (some code) l = matches_plan (plan_of code) l

abbrev pub IsDistinct : List Text → Type 0
IsDistinct [] = Unit
IsDistinct (c ∷ cs) = (has c cs ≡ false) × IsDistinct cs

-- The platform lists plans for sale as the table has them, each once and all of them.
abbrev pub Agrees : List PlanListing → Type 0
Agrees remote =
    All (λ (l : PlanListing). matches_code l.plan_code l ≡ true) remote
    × (IsDistinct (codes_of remote)
        × All (λ c. has c (codes_of remote) ≡ true) purchasable_plan_codes)

pub append_empty {ℓ} : {A : Type ℓ} (xs ys : List A) → xs ++ ys ≡ [] → (xs ≡ []) × (ys ≡ [])
append_empty [] ys h = (refl, h)
append_empty (x ∷ xs) ys h = cc

all_three :
    (a b c : Bool) (x y z : CatalogMismatch)
    → ((a && (b && c)) ≡ true)
      ↔ (mismatch_if (not a) x ++ (mismatch_if (not b) y ++ mismatch_if (not c) z) ≡ [])
all_three a b c x y z = ground arith

pub matches-listing :
    (code : Text) (plan : Plan) (l : PlanListing)
    → (matches_plan (some plan) l ≡ true) ↔ (listing_mismatches code plan l ≡ [])
matches-listing code plan l =
    all_three plan.purchasable (eq_ℤ l.price_minor (pos plan.price_minor))
      (eq_interval l.interval plan.interval) _ _ _

no_more :
    (code : Text) (plan : Plan) (l : PlanListing) (ls : List PlanListing)
    → plan_mismatches code (some plan) (l ∷ ls) ≡ []
    → (ls ≡ []) × (listing_mismatches code plan l ≡ [])
unfolding each_listing
no_more code plan l [] h = (refl, (append_empty _ _ h).0)
no_more code plan l (k ∷ ls) h =
    let two : ltb 1 (length (l ∷ k ∷ ls)) ≡ true = ground arith in
    absurd (let e = rw two at h in cc)

no_more_rest :
    (code : Text) (plan : Option Plan) (l : PlanListing) (ls : List PlanListing)
    → plan_mismatches code plan (l ∷ ls) ≡ []
    → plan_mismatches code plan ls ≡ []
unfolding each_listing
no_more_rest code none l ls h = refl
no_more_rest code (some plan) l ls h =
    subst (λ (t : List PlanListing). plan_mismatches code (some plan) t ≡ [])
      (sym (no_more code plan l ls h).0) refl

no_listings : (code : Text) (plan : Option Plan) → plan_mismatches code plan [] ≡ []
unfolding each_listing
no_listings code none = refl
no_listings code (some plan) = refl

-- A code whose group has no mismatch
pub compare_groups-at :
    (code : Text) (m : Listings)
    → compare_groups m ≡ []
    → plan_mismatches code (plan_of code) (listings_at code m) ≡ []
unfolding compare_groups lookup
compare_groups-at code [] h = no_listings code (plan_of code)
compare_groups-at code ((first, ls) ∷ m) h =
    let (here, there) =
      append_empty (plan_mismatches first (plan_of first) ls) (compare_groups m) h in
    elim (Bool-cases (eq_text first code)) [
      | inl same ↦ rw same (
          subst (λ (c : Text). plan_mismatches c (plan_of c) ls ≡ [])
            ((eq_text_iff first code).0 same) here)
      | inr other ↦ rw other (compare_groups-at code m there)
    ]

abbrev pub is_known : Option Text → Bool
is_known none = false
is_known (some code) = is_plan_code code

added_known :
    (l : PlanListing) (code : Option Text) (found : List CatalogMismatch) (m : Listings)
    → (add_listing l code (found, m)).0 ≡ []
    → (found ≡ []) × (is_known code ≡ true)
added_known l none found m h = let e = append_empty found _ h in cc
added_known l (some code) found m h = elim (Bool-cases (is_plan_code code)) [
  | inl known ↦ (rw known at h, known)
  | inr unknown ↦ absurd (let e = append_empty found _ (rw unknown at h) in cc)
]

pub group-is_known :
    (ls : List PlanListing) (state : List CatalogMismatch × Listings)
    → (group ls state).0 ≡ []
    → (state.0 ≡ []) × All (λ (l : PlanListing). is_known l.plan_code ≡ true) ls
unfolding group
group-is_known [] state h = (h, tt)
group-is_known (l ∷ ls) (found, m) h =
    let (before, rest) = group-is_known ls (add_listing l l.plan_code (found, m)) h in
    let (start, known) = added_known l l.plan_code found m before in (start, (known, rest))

has-codes_of :
    (code : Text) (ls : List PlanListing) → of_code code ls ≡ [] → has code (codes_of ls) ≡ false
unfolding codes_of has
has-codes_of code [] h = refl
has-codes_of code (l ∷ ls) h = go l.plan_code h (has-codes_of code ls)
  where
    go :
        (other : Option Text)
        → (if has_code code other then l ∷ of_code code ls else of_code code ls) ≡ []
        → (of_code code ls ≡ [] → has code (codes_of ls) ≡ false)
        → has code (elim other [ none ↦ codes_of ls | some c ↦ c ∷ codes_of ls ]) ≡ false
    go none p rest = rest p
    go (some c) p rest = elim (Bool-cases (eq_text c code)) [
      | inl same ↦ absurd (let e = rw same at p in cc)
      | inr apart ↦ rw apart (rest (rw apart at p))
    ]

abbrev Clean : (Text → List PlanListing) → Type 0
Clean listings =
    (code : Text)
    → is_plan_code code ≡ true
    → plan_mismatches code (plan_of code) (listings code) ≡ []

abbrev with_code : Option Text → PlanListing → (Text → List PlanListing) → Text → List PlanListing
with_code other l listings code = if has_code code other then l ∷ listings code else listings code

tail-Clean :
    (other : Option Text) (l : PlanListing) (listings : Text → List PlanListing)
    → Clean (with_code other l listings)
    → Clean listings
tail-Clean other l listings clean code known = elim (Bool-cases (has_code code other)) [
  | inl hit ↦
      no_more_rest code (plan_of code) l (listings code)
        (let here = clean code known in rw hit at here)
  | inr miss ↦ let here = clean code known in rw miss at here
]

head-Clean :
    (code : Text) (l : PlanListing) (ls : List PlanListing)
    → Clean (with_code (some code) l (λ c. of_code c ls))
    → is_plan_code code ≡ true
    → (matches_code (some code) l ≡ true) × (has code (codes_of ls) ≡ false)
head-Clean code l ls clean known = elim (Option-cases (plan_of code)) [
  | inl missing ↦ absurd (let e = rw missing at known in cc)
  | inr (plan, found) ↦
      let here = clean code known in
      let (single, same) =
        no_more code plan l (of_code code ls) (rw (eq_text_refl code, found) at here) in
      (rw found ((matches-listing code plan l).1 same), has-codes_of code ls single)
]

pub collected :
    (ls : List PlanListing)
    → All (λ (l : PlanListing). is_known l.plan_code ≡ true) ls
    → Clean (λ code. of_code code ls)
    → All (λ (l : PlanListing). matches_code l.plan_code l ≡ true) ls × IsDistinct (codes_of ls)
unfolding codes_of
collected [] known clean = (tt, tt)
collected (l ∷ ls) known clean =
    let (rest, distinct) =
      collected ls known.1 (tail-Clean l.plan_code l (λ c. of_code c ls) clean) in
    go l.plan_code known.0 clean rest distinct
  where
    go :
        (code : Option Text)
        → is_known code ≡ true
        → Clean (with_code code l (λ c. of_code c ls))
        → All (λ (k : PlanListing). matches_code k.plan_code k ≡ true) ls
        → IsDistinct (codes_of ls)
        → ((matches_code code l ≡ true)
            × All (λ (k : PlanListing). matches_code k.plan_code k ≡ true) ls)
          × IsDistinct (elim code [ none ↦ codes_of ls | some c ↦ c ∷ codes_of ls ])
    go none is_one first rest distinct = cc
    go (some code) is_one first rest distinct =
        let (same, fresh) = head-Clean code l ls first is_one in ((same, rest), (fresh, distinct))

pub missing-All :
    (m : Listings) (codes : List Text)
    → missing_codes m codes ≡ []
    → All (λ code. is_some (lookup code m) ≡ true) codes
unfolding missing_codes
missing-All m [] h = tt
missing-All m (code ∷ codes) h =
    let (here, there) =
      append_empty (mismatch_if (is_none (lookup code m)) _) (missing_codes m codes) h in
    (go (lookup code m) _ here, missing-All m codes there)
  where
    go :
        (o : Option (List PlanListing)) (x : CatalogMismatch)
        → mismatch_if (is_none o) x ≡ []
        → is_some o ≡ true
    go none x p = cc
    go (some ls) x p = refl
