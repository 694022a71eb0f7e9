-- ===== src/Engine/Revenue/Identity.antt =====
-- packages/core/src/engine/revenue.ts: the revenue of an order and what the buyer was charged.
use ghalla.Base.{
  subst, Bool, true, false, not, ◌&&◌, ◌≡◌, refl, sym, List, [], ◌∷◌, map, filter, inl, inr,
  Bool-cases, if◌then◌else◌, ◌∙◌,
}
use ghalla.Base.Int.{ℤ, pos, ◌+ℤ◌, ◌-ℤ◌, neg, int_laws, eq_ℤ, sum, sum-map, total_by}
use ghalla.Base.Result.{ok, >>=-eq-ok, ok-injective}
use ghalla.Money.{add_minor, to_minor}
use ghalla.Money.Exact.{add_minor-ok, to_minor-ok}
use ghalla.Contracts.Canonical.{CanonicalOrder, CanonicalOrderItem, OrderDiscount, DiscountTarget}
use ghalla.Engine.Diagnostics.{Computed}
use ghalla.Engine.Recognition.{ProfitRecognition, is_recognized}
use ghalla.Engine.Revenue.{
  OrderRevenue, Discounts, eq_target, unreflected, discounts_of, expected_total, recognized_revenue,
  compute_revenue, compute_line_revenue, no_revenue,
}

-- The discounts that no component of the order shows, of every target
abbrev pub hidden_discounts : CanonicalOrder → ℤ
hidden_discounts o =
    total_by (λ (d : OrderDiscount). d.amount_ex_vat_minor)
      (filter (λ (d : OrderDiscount). not d.reflected_in_component) o.discounts)

-- What the buyer was charged without VAT
abbrev pub charged : CanonicalOrder → List CanonicalOrderItem → ℤ
charged o items =
    total_by (λ (i : CanonicalOrderItem). i.line_total_ex_vat_minor) items
    +ℤ o.shipping_charged_ex_vat_minor
    +ℤ o.cod_fee_charged_ex_vat_minor
    -ℤ hidden_discounts o

abbrev hidden_at : DiscountTarget → List OrderDiscount → ℤ
hidden_at target ds =
    total_by (λ (d : OrderDiscount). d.amount_ex_vat_minor)
      (filter (λ (d : OrderDiscount). eq_target d.target target && not d.reflected_in_component) ds)

each_target :
    (target : DiscountTarget) (hidden : Bool) (amount a b c : ℤ) {all : ℤ}
    → a +ℤ b +ℤ c ≡ all
    → (if eq_target target DiscountTarget.items && hidden then amount +ℤ a else a)
        +ℤ (if eq_target target DiscountTarget.shipping && hidden then amount +ℤ b else b)
        +ℤ (if eq_target target DiscountTarget.cod_fee && hidden then amount +ℤ c else c)
      ≡ (if hidden then amount +ℤ all else all)
each_target DiscountTarget.items true amount a b c h = rw (← h) (omega int_laws)
each_target DiscountTarget.shipping true amount a b c h = rw (← h) (omega int_laws)
each_target DiscountTarget.cod_fee true amount a b c h = rw (← h) (omega int_laws)
each_target DiscountTarget.items false amount a b c h = h
each_target DiscountTarget.shipping false amount a b c h = h
each_target DiscountTarget.cod_fee false amount a b c h = h

filtered :
    (test : Bool) (d : OrderDiscount) (ds : List OrderDiscount)
    → total_by (λ (d : OrderDiscount). d.amount_ex_vat_minor) (if test then d ∷ ds else ds) ≡ (
        if test
        then d.amount_ex_vat_minor +ℤ total_by (λ (d : OrderDiscount). d.amount_ex_vat_minor) ds
        else total_by (λ (d : OrderDiscount). d.amount_ex_vat_minor) ds)
filtered true d ds = refl
filtered false d ds = refl

added : {a b c a' b' c' : ℤ} → a ≡ a' → b ≡ b' → c ≡ c' → a +ℤ b +ℤ c ≡ a' +ℤ b' +ℤ c'
added p q r = rw (p, q, r) refl

-- The discounts of the three targets are all discounts.
by_target :
    (ds : List OrderDiscount)
    → hidden_at DiscountTarget.items ds
        +ℤ hidden_at DiscountTarget.shipping ds
        +ℤ hidden_at DiscountTarget.cod_fee ds
      ≡ total_by
          (λ (d : OrderDiscount). d.amount_ex_vat_minor)
          (filter (λ (d : OrderDiscount). not d.reflected_in_component) ds)
by_target [] = omega int_laws
by_target (d ∷ ds) =
    let amount = d.amount_ex_vat_minor in
    let hidden = not d.reflected_in_component in
    let at_items = filtered (eq_target d.target DiscountTarget.items && hidden) d _ in
    let at_shipping = filtered (eq_target d.target DiscountTarget.shipping && hidden) d _ in
    let at_fee = filtered (eq_target d.target DiscountTarget.cod_fee && hidden) d _ in
    added at_items at_shipping at_fee
    ∙ (each_target d.target hidden amount _ _ _ (by_target ds) ∙ sym (filtered hidden d _))

sum_three : (a b c : ℤ) → sum (a ∷ b ∷ c ∷ []) ≡ a +ℤ b +ℤ c
sum_three a b c = omega int_laws

unreflected-ok :
    (o : CanonicalOrder) (target : DiscountTarget) {a : ℤ}
    → unreflected o target ≡ ok a
    → a ≡ hidden_at target o.discounts
unfolding unreflected
unreflected-ok o target h =
    (add_minor-ok _ h).0 ∙ sum-map (λ (d : OrderDiscount). d.amount_ex_vat_minor) _

discounts_of-hidden :
    (o : CanonicalOrder) {d : Discounts} → discounts_of o ≡ ok d → d.on_order ≡ hidden_discounts o
unfolding discounts_of
discounts_of-hidden o {d} h =
    let (items, p, h₁) = >>=-eq-ok (unreflected o DiscountTarget.items) _ h in
    let (shipping, q, h₂) = >>=-eq-ok (unreflected o DiscountTarget.shipping) _ h₁ in
    let (fee, r, h₃) = >>=-eq-ok (unreflected o DiscountTarget.cod_fee) _ h₂ in
    let (all, s, h₄) = >>=-eq-ok (add_minor (items ∷ shipping ∷ fee ∷ [])) _ h₃ in
    let total = (add_minor-ok (items ∷ shipping ∷ fee ∷ []) s).0 in
    let parts : items +ℤ shipping +ℤ fee ≡ hidden_discounts o =
      added (unreflected-ok o DiscountTarget.items p) (unreflected-ok o DiscountTarget.shipping q)
        (unreflected-ok o DiscountTarget.cod_fee r)
      ∙ by_target o.discounts in
    let whole : all ≡ hidden_discounts o = total ∙ (sum_three items shipping fee ∙ parts) in
    subst (λ (x : Discounts). x.on_order ≡ hidden_discounts o) (ok-injective {b = d} h₄) whole

recognized-charged :
    (o : CanonicalOrder) (items : List CanonicalOrderItem) (gross : ℤ) (d : Discounts) (b : Bool)
    {r : OrderRevenue}
    → gross ≡ total_by (λ (i : CanonicalOrderItem). i.line_total_ex_vat_minor) items
    → d.on_order ≡ hidden_discounts o
    → recognized_revenue o items gross d b ≡ ok r
    → r.revenue_ex_vat_minor ≡ charged o items
unfolding recognized_revenue
recognized-charged o items gross d b {r} all hidden h =
    let (less, l, h1) = >>=-eq-ok (to_minor (neg d.on_order)) _ h in
    let gains =
      gross ∷ o.shipping_charged_ex_vat_minor ∷ o.cod_fee_charged_ex_vat_minor ∷ less ∷ [] in
    let (revenue, v, h2) = >>=-eq-ok (add_minor gains) _ h1 in
    let (lines, s, h3) = >>=-eq-ok (compute_line_revenue items d.on_items) _ h2 in
    let less_is = (to_minor-ok (neg d.on_order) l).0 in
    subst (λ (x : OrderRevenue). x.revenue_ex_vat_minor ≡ charged o items) (ok-injective {b = r} h3)
      ((add_minor-ok gains v).0 ∙ rw (less_is, all, hidden) (omega int_laws))

chosen-charged :
    (o : CanonicalOrder) (items : List CanonicalOrderItem) (gross : ℤ) (d : Discounts) (b : Bool)
    (recognition : ProfitRecognition) {r : OrderRevenue}
    → gross ≡ total_by (λ (i : CanonicalOrderItem). i.line_total_ex_vat_minor) items
    → d.on_order ≡ hidden_discounts o
    → (if is_recognized recognition
        then recognized_revenue o items gross d b
        else ok (no_revenue items b))
      ≡ ok r
    → r.revenue_ex_vat_minor ≡ (if is_recognized recognition then charged o items else pos 0)
chosen-charged o items gross d b recognition {r} all hidden h =
    elim (Bool-cases (is_recognized recognition)) [
      | inl e ↦ rw e (recognized-charged o items gross d b all hidden (rw e at h))
      | inr e ↦ rw e (
          subst (λ (x : OrderRevenue). x.revenue_ex_vat_minor ≡ pos 0)
            (ok-injective {b = r} (rw e at h)) refl)
    ]

-- The revenue of a recognized order is what the buyer was charged without VAT: the items, the
-- shipping and the fee for cash on delivery, less the discounts that none of these shows. An order
-- that is not recognized has no revenue.
pub compute_revenue-charged :
    (o : CanonicalOrder) (items : List CanonicalOrderItem) (recognition : ProfitRecognition)
    {c : Computed OrderRevenue}
    → compute_revenue o items recognition ≡ ok c
    → c.value.revenue_ex_vat_minor ≡ (if is_recognized recognition then charged o items else pos 0)
unfolding compute_revenue
compute_revenue-charged o items recognition {c} h =
    let totals = map (λ (i : CanonicalOrderItem). i.line_total_ex_vat_minor) items in
    let (gross, g, h1) = >>=-eq-ok (add_minor totals) _ h in
    let (d, e, h2) = >>=-eq-ok (discounts_of o) _ h1 in
    let (expected, x, h3) = >>=-eq-ok (expected_total o d.on_order) _ h2 in
    let reconciles = eq_ℤ expected o.total_inc_vat_minor && eq_ℤ o.subtotal_ex_vat_minor gross in
    let (value, v, h4) =
      >>=-eq-ok
        (if is_recognized recognition
          then recognized_revenue o items gross d reconciles
          else ok (no_revenue items reconciles))
        _ h3 in
    let all =
      (add_minor-ok totals g).0
      ∙ sum-map (λ (i : CanonicalOrderItem). i.line_total_ex_vat_minor) items in
    subst
      (λ (y : Computed OrderRevenue).
        y.value.revenue_ex_vat_minor
        ≡ (if is_recognized recognition then charged o items else pos 0))
      (ok-injective {b = c} h4)
      (chosen-charged o items gross d reconciles recognition all (discounts_of-hidden o e) v)
