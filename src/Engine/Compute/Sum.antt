-- ===== src/Engine/Compute/Sum.antt =====
-- packages/core/src/compute-order-profit.ts: the lines of a result and its margin.
use ghalla.Base.{◌≡◌, refl, false, List, [], ◌∷◌, map, ap, sym, ◌∙◌, is_empty}
use ghalla.Base.Text.{Text}
use ghalla.Base.Int.{ℤ, ◌+ℤ◌, ◌-ℤ◌, total_by, int_laws}
use ghalla.Base.Result.{ok, >>=-eq-ok}
use ghalla.Money.{add_minor, sub_minor}
use ghalla.Money.Exact.{add_minor-ok, sub_minor-ok}
use ghalla.Contracts.Canonical.{CanonicalOrderItem}
use ghalla.Engine.Recognition.{is_excluded}
use ghalla.Engine.Revenue.{LineRevenue}
use ghalla.Engine.Revenue.Net.{item_id}
use ghalla.Engine.Lines.{OrderProfitLine}
use ghalla.Engine.Lines.Sum.{margin_of, allocate_order_costs_to_lines-sum}
use ghalla.Engine.Compute.Calls.{Terms}
use ghalla.Engine.Compute.Assemble.{counted, lines_of_order, contribution_margin}
use ghalla.Engine.Compute.Margin.{AreCoherent}

-- The margin without the checks of its range
pub contribution_margin-ok :
    (t : Terms) {m : ℤ}
    → contribution_margin t ≡ ok m
    → m
      ≡ t.revenue.value.revenue_ex_vat_minor
        +ℤ counted t t.reversal.value.impact_minor
        -ℤ (counted t t.cogs.value.cogs_minor
            +ℤ counted t t.outbound.value.cost_minor
            +ℤ counted t t.returned.value.cost_minor
            +ℤ counted t t.gateway.value.cost_minor
            +ℤ counted t t.cod.value.cost_minor)
unfolding contribution_margin
contribution_margin-ok t h =
    let gains =
      t.revenue.value.revenue_ex_vat_minor ∷ counted t t.reversal.value.impact_minor ∷ [] in
    let costs =
      counted t t.cogs.value.cogs_minor
      ∷ counted t t.outbound.value.cost_minor
      ∷ counted t t.returned.value.cost_minor
      ∷ counted t t.gateway.value.cost_minor
      ∷ counted t t.cod.value.cost_minor
      ∷ [] in
    let (earned, p, h₁) = >>=-eq-ok (add_minor gains) _ h in
    let (spent, q, h₂) = >>=-eq-ok (add_minor costs) _ h₁ in
    (sub_minor-ok earned spent h₂).0
    ∙ rw ((add_minor-ok gains p).0, (add_minor-ok costs q).0) (omega int_laws)

is_empty-map {ℓ κ} :
    {A : Type ℓ} {B : Type κ} (f : A → B) (xs : List A) → is_empty (map f xs) ≡ is_empty xs
is_empty-map f [] = refl
is_empty-map f (x ∷ xs) = refl

counted_in : (t : Terms) (v : ℤ) → is_excluded t.recognition ≡ false → counted t v ≡ v
counted_in t v e = rw e refl

-- The two ways to write a margin, where the parts of the revenue are its split.
regroup :
    (net ship fee back cost o b g d : ℤ) {revenue back' cost' ship' fee' : ℤ}
    → ship ≡ ship'
    → fee ≡ fee'
    → net +ℤ ship' +ℤ fee' ≡ revenue
    → cost' ≡ cost
    → back' ≡ back
    → net +ℤ ship +ℤ fee +ℤ back -ℤ (cost +ℤ o +ℤ b +ℤ g +ℤ d)
      ≡ revenue +ℤ back' -ℤ (cost' +ℤ o +ℤ b +ℤ g +ℤ d)
regroup net ship fee back cost o b g d p q r s t = rw (p, q, r, s, t) refl

pub lines_of_order-sum :
    (t : Terms) (items : List CanonicalOrderItem) {lines : List OrderProfitLine} {m : ℤ}
    → AreCoherent items t
    → is_empty items ≡ false
    → is_excluded t.recognition ≡ false
    → lines_of_order t items ≡ ok lines
    → contribution_margin t ≡ ok m
    → total_by margin_of lines ≡ m
unfolding lines_of_order
lines_of_order-sum t items {lines} {m} coherent some_items kept h k =
    let ((ids, pushed), cogs_sum, cogs_ids, outbound, returned, (back_ids, back_sum)) = coherent in
    let r = t.revenue.value in
    let some_lines : is_empty r.lines ≡ false =
      sym (is_empty-map (λ (l : LineRevenue). l.order_item_id) r.lines)
      ∙ (ap (λ (ks : List Text). is_empty ks) ids ∙ (is_empty-map item_id items ∙ some_items)) in
    let (ship, p, h₁) =
      >>=-eq-ok (sub_minor r.shipping_revenue_ex_vat_minor r.shipping_discount_ex_vat_minor) _
        (rw kept at h) in
    let (fee, q, h₂) =
      >>=-eq-ok (sub_minor r.cod_fee_revenue_ex_vat_minor r.cod_fee_discount_ex_vat_minor) _ h₁ in
    let sums =
      allocate_order_costs_to_lines-sum items r.lines t.cogs.value.lines t.reversal.value.lines _
        some_lines (cogs_ids ∙ sym ids) back_ids outbound returned h₂ in
    let margin = contribution_margin-ok t k in
    sums
    ∙ (regroup _ _ _ _ _ _ _ _ _ (sub_minor-ok _ _ p).0 (sub_minor-ok _ _ q).0 pushed cogs_sum
          back_sum
        ∙ sym (rw kept at margin))
