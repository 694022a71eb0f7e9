-- ===== src/Console/Presentation/Views.antt =====
-- apps/ghalla-ops/src/lib/ui/presentation.ts: the chips of the saved views, and the severity of a
-- row.
use ghalla.Base.{
  ℕ, ◌+◌, ◌≡◌, refl, ap, ◌∙◌, Bool, true, false, List, [], ◌∷◌, Option, none, some, filter, any,
  length, if◌then◌else◌, is_empty, is_some, ◌||◌, ◌&&◌, not, Bool-cases, inl, inr, arith,
}
use ghalla.Base.Int.{ℤ}
use ghalla.Console.Stores.{PlatformStore, HealthFlag}
use ghalla.Console.Presentation.{
  Severity, SavedViewCounts, StoreView, in_view, apply_store_view, count_store, count_stores,
  saved_view_counts, cap_usage, store_presentation, flags_severity, combined, is_critical, CapUsage,
  present_row,
}

-- What the chip of a view shows
abbrev pub count_of : StoreView → SavedViewCounts → ℕ
count_of StoreView.trialing c = c.trialing
count_of StoreView.over_cap c = c.over_cap
count_of StoreView.past_due c = c.past_due
count_of StoreView.low_coverage c = c.low_coverage
count_of StoreView.silent c = c.silent

counted_store :
    (view : StoreView) (store : PlatformStore) (c : SavedViewCounts)
    → count_of view (count_store store c)
      ≡ (if in_view view store then count_of view c + 1 else count_of view c)
counted_store StoreView.trialing store c = refl
counted_store StoreView.over_cap store c = refl
counted_store StoreView.past_due store c = refl
counted_store StoreView.low_coverage store c = refl
counted_store StoreView.silent store c = refl

count_stores-view :
    (view : StoreView) (stores : List PlatformStore) (c : SavedViewCounts)
    → count_of view (count_stores stores c)
      ≡ count_of view c + length (filter (in_view view) stores)
unfolding count_stores
count_stores-view view [] c = omega arith
count_stores-view view (store ∷ stores) c =
    let rest = count_stores-view view stores (count_store store c) in
    let here = counted_store view store c in
    elim (Bool-cases (in_view view store)) [
      | inl seen ↦
          let more : count_of view (count_store store c) ≡ count_of view c + 1 =
            here ∙ rw seen refl in
          rw seen (rest ∙ omega (arith, more))
      | inr unseen ↦
          let same : count_of view (count_store store c) ≡ count_of view c =
            here ∙ rw unseen refl in
          rw unseen (rest ∙ omega (arith, same))
    ]

-- The chip of each saved view counts the stores that the view shows.
pub saved_view_counts-view :
    (stores : List PlatformStore) (view : StoreView)
    → count_of view (saved_view_counts stores) ≡ length (apply_store_view stores (some view))
unfolding saved_view_counts apply_store_view
saved_view_counts-view stores view =
    count_stores-view view stores
      (record { trialing = 0; over_cap = 0; past_due = 0; low_coverage = 0; silent = 0 })
    ∙ go view
  where
    go :
        (view : StoreView)
        → count_of view
              (record { trialing = 0; over_cap = 0; past_due = 0; low_coverage = 0; silent = 0 })
            + length (filter (in_view view) stores)
          ≡ length (filter (in_view view) stores)
    go StoreView.trialing = omega arith
    go StoreView.over_cap = omega arith
    go StoreView.past_due = omega arith
    go StoreView.low_coverage = omega arith
    go StoreView.silent = omega arith

abbrev pub is_fine : Severity → Bool
is_fine Severity.fine = true
is_fine Severity.warn = false
is_fine Severity.bad = false

flags_severity-fine : (flags : List HealthFlag) → is_fine (flags_severity flags) ≡ is_empty flags
unfolding flags_severity
flags_severity-fine [] = refl
flags_severity-fine (flag ∷ flags) = elim (Bool-cases (any is_critical (flag ∷ flags))) [
  | inl critical ↦ rw critical refl
  | inr mild ↦ rw mild refl
]

combined-fine : (s : Severity) (over : Bool) → is_fine (combined s over) ≡ (is_fine s && not over)
combined-fine Severity.fine over = ground arith
combined-fine Severity.warn over = ground arith
combined-fine Severity.bad over = refl

present_row-fine :
    (left : Option ℕ) (cap : CapUsage) (coverage : Option ℤ) (flags : List HealthFlag)
    → is_fine (present_row left cap coverage flags).severity
      ≡ (is_some left || (is_empty flags && not cap.over_cap))
present_row-fine (some left) cap coverage flags = refl
present_row-fine none cap coverage flags =
    combined-fine (flags_severity flags) cap.over_cap
    ∙ ap (λ b. b && not cap.over_cap) (flags_severity-fine flags)

-- A row of the table reads well exactly where the store has left, or has no flag and is not over its
-- cap.
pub store_presentation-fine :
    (store : PlatformStore)
    → is_fine (store_presentation store).severity ≡ (
        is_some store.facts.uninstalled_at
        || (is_empty store.health.flags && not (cap_usage store).over_cap))
unfolding store_presentation
store_presentation-fine store =
    present_row-fine store.facts.uninstalled_at (cap_usage store) store.facts.coverage
      store.health.flags
