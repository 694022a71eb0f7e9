-- ===== src/Engine/Compute/Totals.antt =====
-- packages/core/src/compute-order-profit.ts: the margin among the totals that `computeOrderProfit`
-- returns, and the totals of an excluded order.
use ghalla.Base.{
  Bool, true, false, ◌≡◌, refl, List, [], ◌∷◌, All, if◌then◌else◌, subst, ◌∙◌, sym, map,
}
use ghalla.Base.Int.{ℤ, pos, ◌+ℤ◌, ◌-ℤ◌, int_laws}
use ghalla.Base.Result.{ok, >>=-eq-ok, ok-injective}
use ghalla.Engine.Input.{OrderProfitInput}
use ghalla.Engine.Recognition.{ProfitRecognition, is_excluded, is_recognized, compute_recognition}
use ghalla.Engine.Revenue.{compute_revenue}
use ghalla.Engine.Revenue.Identity.{compute_revenue-charged, charged}
use ghalla.Engine.Lines.{OrderProfitLine}
use ghalla.Engine.Normalize.{NormalizedInput, Normalized, accepted, refused, normalize_and_validate}
use ghalla.Engine.BusinessDate.{ZoneConversion, business_date_of}
use ghalla.Engine.Compute.{compute_accepted, compute_order_profit, compute_normalized}
use ghalla.Engine.Compute.Outcome.{OrderProfitTotals, OrderProfitComputed, computed}
use ghalla.Engine.Compute.Calls.{Terms, compute_terms}
use ghalla.Engine.Compute.Assemble.{
  lines_of_order, contribution_margin, totals_of_order, margin_bps_of,
}
use ghalla.Engine.Compute.Sum.{contribution_margin-ok}
use ghalla.Engine.Compute.LineSum.{caught-computed}
use ghalla.Base.Dict.{of_entries}
use ghalla.Contracts.Enums.{ShipmentDirection, is_dispatched}
use ghalla.Engine.Gateway.{compute_gateway_fees}
use ghalla.Engine.Cod.{compute_cod_cost}
use ghalla.Engine.Shipping.{compute_shipping_cost}
use ghalla.Engine.Cogs.{compute_cogs}
use ghalla.Engine.Reversal.{compute_reversal_impact}
use ghalla.Money.{add_minor}

-- The revenue with the impact of reversals, less the five costs
abbrev pub earned_less_spent : OrderProfitTotals → ℤ
earned_less_spent t =
    t.revenue_ex_vat_minor
    +ℤ t.reversal_impact_minor
    -ℤ (t.cogs_minor +ℤ t.outbound_shipping_cost_minor +ℤ t.return_shipping_cost_minor
        +ℤ t.gateway_fee_cost_minor +ℤ t.cod_cost_minor)

abbrev pub IsNone : Bool → ℤ → Type 0
IsNone b v = (if b then v else pos 0) ≡ pos 0

-- The amounts that make the margin, and the margin
abbrev pub amounts_of : OrderProfitTotals → List ℤ
amounts_of t =
    t.contribution_margin_minor ∷ t.revenue_ex_vat_minor ∷ t.reversal_impact_minor ∷ t.cogs_minor
    ∷ t.outbound_shipping_cost_minor ∷ t.return_shipping_cost_minor ∷ t.gateway_fee_cost_minor
    ∷ t.cod_cost_minor ∷ []

abbrev Totalled : ProfitRecognition → OrderProfitTotals → Type 0
Totalled r t =
    (t.contribution_margin_minor ≡ earned_less_spent t)
    × All (IsNone (is_excluded r)) (amounts_of t)

counted-IsNone : (b : Bool) (v : ℤ) → IsNone b (if b then pos 0 else v)
counted-IsNone true v = refl
counted-IsNone false v = refl

margin-IsNone :
    (b : Bool) (revenue back goods out returned fee cod : ℤ) {m : ℤ}
    → m
      ≡ revenue
        +ℤ (if b then pos 0 else back)
        -ℤ ((if b then pos 0 else goods)
            +ℤ (if b then pos 0 else out)
            +ℤ (if b then pos 0 else returned)
            +ℤ (if b then pos 0 else fee)
            +ℤ (if b then pos 0 else cod))
    → IsNone b revenue
    → IsNone b m
margin-IsNone true revenue back goods out returned fee cod h none_earned =
    h ∙ rw none_earned (omega int_laws)
margin-IsNone false revenue back goods out returned fee cod h none_earned = refl

totals_of_order-Totalled :
    (t : Terms) (lines : List OrderProfitLine) {totals : OrderProfitTotals}
    → IsNone (is_excluded t.recognition) t.revenue.value.revenue_ex_vat_minor
    → totals_of_order t lines ≡ ok totals
    → Totalled t.recognition totals
unfolding totals_of_order
totals_of_order-Totalled t lines {totals} none_earned h =
    let b = is_excluded t.recognition in
    let (m, p, h₁) = >>=-eq-ok (contribution_margin t) _ h in
    let (bps, q, h₂) = >>=-eq-ok (margin_bps_of m t.revenue.value.revenue_ex_vat_minor) _ h₁ in
    let (covered, r, h₃) =
      >>=-eq-ok (add_minor (map (λ l. l.cost_covered_revenue_ex_vat_minor) lines)) _ h₂ in
    let margin = contribution_margin-ok t p in
    let none : (v : ℤ) → IsNone b (if b then pos 0 else v) = λ v. counted-IsNone b v in
    subst (Totalled t.recognition) (ok-injective {b = totals} h₃) (
      margin,
      (
        margin-IsNone b t.revenue.value.revenue_ex_vat_minor _ _ _ _ _ _ margin none_earned,
        (none_earned, (none _, (none _, (none _, (none _, (none _, (none _, tt))))))),
      ),
    )

unearned :
    (r : ProfitRecognition) (amount : ℤ)
    → IsNone (is_excluded r) (if is_recognized r then amount else pos 0)
unearned ProfitRecognition.recognized amount = refl
unearned (ProfitRecognition.cost_only r) amount = refl
unearned (ProfitRecognition.excluded r) amount = refl

compute_terms-unearned :
    (zone : ZoneConversion) (input : OrderProfitInput) (n : NormalizedInput) {t : Terms}
    → compute_terms zone input n ≡ ok t
    → IsNone (is_excluded t.recognition) t.revenue.value.revenue_ex_vat_minor
unfolding compute_terms
compute_terms-unearned zone input n {t} h =
    let r = compute_recognition n.order n.shipments in
    let rules = input.fee_rule_set in
    let registered = input.store.vat_registered in
    let shipping = compute_shipping_cost n.order n.shipments rules.shipping_fallback in
    let (date, p₀, h₀) =
      >>=-eq-ok (business_date_of zone n.order.placed_at input.store.timezone) _ h in
    let (revenue, p₁, h₁) = >>=-eq-ok (compute_revenue n.order n.items r) _ h₀ in
    let (cogs, p₂, h₂) = >>=-eq-ok (compute_cogs n.items n.costs) _ h₁ in
    let (outbound, p₃, h₃) = >>=-eq-ok (shipping ShipmentDirection.outbound) _ h₂ in
    let (returned, p₄, h₄) = >>=-eq-ok (shipping ShipmentDirection.return_leg) _ h₃ in
    let (gateway, p₅, h₅) =
      >>=-eq-ok (compute_gateway_fees n.order rules.gateway registered) _ h₄ in
    let (cod, p₆, h₆) =
      >>=-eq-ok (compute_cod_cost n.order n.shipments rules.cod registered) _ h₅ in
    let quantities = of_entries (map (λ i. (i.id, i.quantity)) n.items) in
    let weights = of_entries (map (λ i. (i.id, i.line_total_ex_vat_minor)) n.items) in
    let dispatched = is_dispatched n.order.fulfillment_state in
    let (reversal, p₇, h₇) =
      >>=-eq-ok
        (compute_reversal_impact n.reversals revenue.value.lines cogs.value.lines quantities weights
          r n.shipments dispatched)
        _ h₆ in
    subst (λ (x : Terms). IsNone (is_excluded x.recognition) x.revenue.value.revenue_ex_vat_minor)
      (ok-injective {b = t} h₇)
      (subst (IsNone (is_excluded r)) (sym (compute_revenue-charged n.order n.items r p₁))
        (unearned r (charged n.order n.items)))

compute_accepted-Totalled :
    (zone : ZoneConversion) (input : OrderProfitInput) (n : NormalizedInput)
    {c : OrderProfitComputed}
    → compute_accepted zone input n ≡ ok c
    → Totalled c.recognition c.totals
unfolding compute_accepted
compute_accepted-Totalled zone input n {c} h =
    let (t, p, h₁) = >>=-eq-ok (compute_terms zone input n) _ h in
    let (lines, q, h₂) = >>=-eq-ok (lines_of_order t n.items) _ h₁ in
    let (totals, r, h₃) = >>=-eq-ok (totals_of_order t lines) _ h₂ in
    subst (λ (x : OrderProfitComputed). Totalled x.recognition x.totals) (ok-injective {b = c} h₃)
      (totals_of_order-Totalled t lines (compute_terms-unearned zone input n p) r)

normalized-Totalled :
    (zone : ZoneConversion) (input : OrderProfitInput) (m : Normalized) {c : OrderProfitComputed}
    → compute_normalized zone input m ≡ computed c
    → Totalled c.recognition c.totals
normalized-Totalled zone input (refused ds) h = cc
normalized-Totalled zone input (accepted n) h =
    compute_accepted-Totalled zone input n (caught-computed input (compute_accepted zone input n) h)

-- Wherever the profit of an order is computed, the margin among the totals is the revenue with the
-- impact of reversals, less the five costs as the totals show them. On an excluded order the
-- margin, the revenue, the impact and each of the costs are zero.
pub compute_order_profit-margin :
    (zone : ZoneConversion) (input : OrderProfitInput) {c : OrderProfitComputed}
    → compute_order_profit zone input ≡ computed c
    → (c.totals.contribution_margin_minor ≡ earned_less_spent c.totals)
      × All (IsNone (is_excluded c.recognition)) (amounts_of c.totals)
unfolding compute_order_profit
compute_order_profit-margin zone input h =
    normalized-Totalled zone input (normalize_and_validate input) h
