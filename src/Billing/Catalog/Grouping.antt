-- ===== src/Billing/Catalog/Grouping.antt =====
-- packages/billing/src/plan-catalog.ts: what the first loop of comparePlanCatalog groups.
use ghalla.Base.{
  ◌≡◌, refl, sym, ap, ◌∙◌, Bool, true, false, ◌||◌, List, [], ◌∷◌, ◌++◌, Option, none, some, filter,
  if◌then◌else◌, is_some, Bool-cases, inl, inr, arith, or_else, append_nil, append_assoc,
}
use ghalla.Base.Text.{Text, eq_text, eq_text_iff}
use ghalla.Base.Dict.{lookup, has}
use ghalla.Billing.Catalog.{
  PlanListing, CatalogMismatch, Listings, push_listing, group, add_listing, is_plan_code,
}

abbrev pub has_code : Text → Option Text → Bool
has_code code none = false
has_code code (some other) = eq_text other code

abbrev pub of_code : Text → List PlanListing → List PlanListing
of_code code = filter (λ (l : PlanListing). has_code code l.plan_code)

unfoldable pub codes_of : List PlanListing → List Text
codes_of [] = []
codes_of (l ∷ rest) =
    let codes = codes_of rest in elim l.plan_code [ none ↦ codes | some code ↦ code ∷ codes ]

abbrev pub listings_at : Text → Listings → List PlanListing
listings_at code m = or_else (lookup code m) []

pub push_listing-at :
    (wanted code : Text) (l : PlanListing) (m : Listings)
    → listings_at wanted (push_listing code l m)
      ≡ listings_at wanted m ++ (if eq_text code wanted then l ∷ [] else [])
unfolding push_listing lookup
push_listing-at wanted code l [] = elim (Bool-cases (eq_text code wanted)) [
  | inl same ↦ rw same refl
  | inr other ↦ rw other refl
]
push_listing-at wanted code l ((first, existing) ∷ m) = elim (Bool-cases (eq_text first code)) [
  | inl mine ↦
      let same : eq_text first wanted ≡ eq_text code wanted =
        ap (λ c. eq_text c wanted) ((eq_text_iff first code).0 mine) in
      elim (Bool-cases (eq_text code wanted)) [
        | inl hit ↦ rw (mine, same, hit) refl
        | inr miss ↦ rw (mine, same, miss) (sym (append_nil (listings_at wanted m)))
      ]
  | inr other ↦ elim (Bool-cases (eq_text first wanted)) [
    | inl hit ↦
        let miss : eq_text code wanted ≡ false =
          ground
            (arith, eq_text_iff first wanted, eq_text_iff first code, eq_text_iff code wanted) in
        rw (other, hit, miss) (sym (append_nil existing))
    | inr miss ↦ rw (other, miss) (push_listing-at wanted code l m)
  ]
]

pub push_listing-is_some :
    (wanted code : Text) (l : PlanListing) (m : Listings)
    → is_some (lookup wanted (push_listing code l m))
      ≡ (is_some (lookup wanted m) || eq_text code wanted)
unfolding push_listing lookup
push_listing-is_some wanted code l [] = ground arith
push_listing-is_some wanted code l ((first, existing) ∷ m) =
    let rest = push_listing-is_some wanted code l m in
    ground (arith, rest, eq_text_iff first wanted, eq_text_iff first code, eq_text_iff code wanted)

known_apart :
    (code wanted : Text)
    → is_plan_code code ≡ false
    → is_plan_code wanted ≡ true
    → eq_text code wanted ≡ false
known_apart code wanted unknown known = elim (Bool-cases (eq_text code wanted)) [
  | inl same ↦ absurd (let e = ap is_plan_code ((eq_text_iff code wanted).0 same) in cc)
  | inr other ↦ other
]

add_listing-at :
    (wanted : Text) (l : PlanListing) (code : Option Text) (found : List CatalogMismatch)
    (m : Listings)
    → is_plan_code wanted ≡ true
    → listings_at wanted (add_listing l code (found, m)).1
      ≡ listings_at wanted m ++ (if has_code wanted code then l ∷ [] else [])
add_listing-at wanted l none found m known = sym (append_nil (listings_at wanted m))
add_listing-at wanted l (some code) found m known = elim (Bool-cases (is_plan_code code)) [
  | inl known_code ↦ rw known_code (push_listing-at wanted code l m)
  | inr unknown ↦
      let other : eq_text code wanted ≡ false = known_apart code wanted unknown known in
      rw (unknown, other) (sym (append_nil (listings_at wanted m)))
]

add_listing-is_some :
    (wanted : Text) (l : PlanListing) (code : Option Text) (found : List CatalogMismatch)
    (m : Listings)
    → is_plan_code wanted ≡ true
    → is_some (lookup wanted (add_listing l code (found, m)).1)
      ≡ (is_some (lookup wanted m) || has_code wanted code)
add_listing-is_some wanted l none found m known = ground arith
add_listing-is_some wanted l (some code) found m known = elim (Bool-cases (is_plan_code code)) [
  | inl known_code ↦ rw known_code (push_listing-is_some wanted code l m)
  | inr unknown ↦
      let other : eq_text code wanted ≡ false = known_apart code wanted unknown known in
      rw (unknown, other) (ground arith)
]

filter_step :
    (b : Bool) (l : PlanListing) (before ls : List PlanListing)
    → (before ++ (if b then l ∷ [] else [])) ++ ls ≡ before ++ (if b then l ∷ ls else ls)
filter_step true l before ls = append_assoc before (l ∷ []) ls
filter_step false l before ls = ap (λ (t : List PlanListing). t ++ ls) (append_nil before)

pub group-at :
    (wanted : Text) (ls : List PlanListing) (state : List CatalogMismatch × Listings)
    → is_plan_code wanted ≡ true
    → listings_at wanted (group ls state).1 ≡ listings_at wanted state.1 ++ of_code wanted ls
unfolding group
group-at wanted [] (found, m) known = sym (append_nil (listings_at wanted m))
group-at wanted (l ∷ ls) (found, m) known =
    group-at wanted ls (add_listing l l.plan_code (found, m)) known
    ∙ (ap (λ (t : List PlanListing). t ++ of_code wanted ls)
          (add_listing-at wanted l l.plan_code found m known)
        ∙ filter_step (has_code wanted l.plan_code) l (listings_at wanted m) (of_code wanted ls))

has_step :
    (wanted : Text) (code : Option Text) (codes : List Text) (b : Bool)
    → ((b || has_code wanted code) || has wanted codes)
      ≡ (b || has wanted (elim code [ none ↦ codes | some c ↦ c ∷ codes ]))
unfolding has
has_step wanted none codes b = ground arith
has_step wanted (some c) codes b = ground arith

pub group-is_some :
    (wanted : Text) (ls : List PlanListing) (state : List CatalogMismatch × Listings)
    → is_plan_code wanted ≡ true
    → is_some (lookup wanted (group ls state).1)
      ≡ (is_some (lookup wanted state.1) || has wanted (codes_of ls))
unfolding group codes_of has
group-is_some wanted [] (found, m) known = ground arith
group-is_some wanted (l ∷ ls) (found, m) known =
    group-is_some wanted ls (add_listing l l.plan_code (found, m)) known
    ∙ (ap (λ b. b || has wanted (codes_of ls))
          (add_listing-is_some wanted l l.plan_code found m known)
        ∙ has_step wanted l.plan_code (codes_of ls) (is_some (lookup wanted m)))
