-- ===== src/Console/Revenue/Sums.antt =====
-- apps/ghalla-ops/src/lib/queries/subscriptions.ts: the totals of grouping and sorting.
use ghalla.Base.{
  ℕ, ◌+◌, ◌≡◌, refl, sym, ap, ◌∙◌, List, [], ◌∷◌, Option, none, some, sum_by, Bool-cases, inl, inr,
  arith,
}
use ghalla.Base.Int.{pos, ltb_ℤ}
use ghalla.Base.Text.{Text, eq_text}
use ghalla.Base.Dict.{Dict, lookup, insert}
use ghalla.Base.Result.{ok, >>=-eq-ok, ok-injective, map_result}
use ghalla.Money.{to_minor}
use ghalla.Billing.Catalog.{to_monthly_rate}
use ghalla.Console.Revenue.{PlanRevenue, PlanTotal, revenue_of, insert_revenue, sort_revenue}

module _ {ℓ} {V : Type ℓ} (f : V → ℕ) where
  abbrev pub worth : Option V → ℕ
  worth none = 0
  worth (some v) = f v

  abbrev pub total_of : Dict V → ℕ
  total_of = sum_by (λ (e : Text × V). f e.1)

  -- What a map sums to once an entry has been set
  pub total_of-insert :
      (key : Text) (new : V) (m : Dict V)
      → total_of (insert key new m) + worth (lookup key m) ≡ total_of m + f new
  unfolding insert lookup
  total_of-insert key new [] = omega arith
  total_of-insert key new ((first, old) ∷ m) = elim (Bool-cases (eq_text first key)) [
    | inl same ↦ rw same (omega arith)
    | inr other ↦ rw other (omega (arith, total_of-insert key new m))
  ]

insert_revenue-stores :
    (r : PlanRevenue) (rs : List PlanRevenue)
    → sum_by (λ (s : PlanRevenue). s.stores) (insert_revenue r rs)
      ≡ r.stores + sum_by (λ (s : PlanRevenue). s.stores) rs
unfolding insert_revenue
insert_revenue-stores r [] = refl
insert_revenue-stores r (s ∷ rest) = elim (Bool-cases (ltb_ℤ r.list_mrr_minor s.list_mrr_minor)) [
  | inl later ↦ rw later (omega (arith, insert_revenue-stores r rest))
  | inr first ↦ rw first refl
]

pub sort_revenue-stores :
    (rs : List PlanRevenue)
    → sum_by (λ (s : PlanRevenue). s.stores) (sort_revenue rs)
      ≡ sum_by (λ (s : PlanRevenue). s.stores) rs
unfolding sort_revenue
sort_revenue-stores [] = refl
sort_revenue-stores (r ∷ rest) =
    insert_revenue-stores r (sort_revenue rest)
    ∙ ap (λ (n : ℕ). r.stores + n) (sort_revenue-stores rest)

pub revenue_of-stores :
    (m : Dict PlanTotal) {rs : List PlanRevenue}
    → map_result revenue_of m ≡ ok rs
    → sum_by (λ (s : PlanRevenue). s.stores) rs ≡ total_of (λ (t : PlanTotal). t.stores) m
revenue_of-stores [] {rs} h =
    ap (sum_by (λ (s : PlanRevenue). s.stores)) (sym (ok-injective {b = rs} h))
revenue_of-stores ((code, total) ∷ m) {rs} h =
    let (r, first, h₁) = >>=-eq-ok (revenue_of (code, total)) _ h in
    let (rest, later, h₂) = >>=-eq-ok (map_result revenue_of m) _ h₁ in
    let (rate, checked, h₃) =
      >>=-eq-ok (to_minor (pos (to_monthly_rate total.annualised))) _ first in
    ap (sum_by (λ (s : PlanRevenue). s.stores)) (sym (ok-injective {b = rs} h₂))
    ∙ (ap (λ (t : PlanRevenue). t.stores + sum_by (λ (s : PlanRevenue). s.stores) rest)
          (sym (ok-injective {b = r} h₃))
        ∙ ap (λ (n : ℕ). total.stores + n) (revenue_of-stores m later))
