-- ===== src/Engine/Compute/LineSum.antt =====
-- packages/core/src/compute-order-profit.ts: what `computeOrderProfit` returns.
use ghalla.Base.{
  ◌≡◌, refl, false, not, List, [], ◌∷◌, map, ap, sym, ◌∙◌, is_empty, Bool-cases, inl, inr, subst,
}
use ghalla.Base.Text.{Text, lt_text}
use ghalla.Base.Int.{total_by}
use ghalla.Base.Result.{Result, ok, err, >>=-eq-ok, ok-injective}
use ghalla.Contracts.Canonical.{CanonicalOrderItem}
use ghalla.Engine.Input.{OrderProfitInput}
use ghalla.Engine.Recognition.{is_excluded}
use ghalla.Engine.Lines.{OrderProfitLine}
use ghalla.Engine.Lines.Sum.{margin_of}
use ghalla.Engine.Normalize.{
  NormalizedInput, Normalized, accepted, refused, normalize_and_validate, fatal_diagnostics,
  insert_by, sort_by,
}
use ghalla.Engine.BusinessDate.{ZoneConversion}
use ghalla.Engine.Compute.{compute_accepted, compute_order_profit, compute_normalized, caught}
use ghalla.Engine.Compute.Outcome.{
  OrderProfitTotals, OrderProfitComputed, OrderProfitResult, computed, rejected,
}
use ghalla.Engine.Compute.Calls.{Terms, compute_terms}
use ghalla.Engine.Compute.Assemble.{
  lines_of_order, contribution_margin, totals_of_order, margin_bps_of,
}
use ghalla.Engine.Compute.Margin.{compute_terms-AreCoherent}
use ghalla.Engine.Compute.Sum.{lines_of_order-sum}
use ghalla.Money.{add_minor}

totals-margin :
    (t : Terms) (lines : List OrderProfitLine) {totals : OrderProfitTotals}
    → totals_of_order t lines ≡ ok totals
    → contribution_margin t ≡ ok totals.contribution_margin_minor
unfolding totals_of_order
totals-margin t lines {totals} h =
    let (m, p, h₁) = >>=-eq-ok (contribution_margin t) _ h in
    let (bps, q, h₂) = >>=-eq-ok (margin_bps_of m t.revenue.value.revenue_ex_vat_minor) _ h₁ in
    let (covered, r, h₃) =
      >>=-eq-ok (add_minor (map (λ l. l.cost_covered_revenue_ex_vat_minor) lines)) _ h₂ in
    p
    ∙ ap (λ (x : OrderProfitTotals). ok x.contribution_margin_minor) (ok-injective {b = totals} h₃)

-- The lines of a result that counts add up to the margin of its totals.
abbrev pub AddsUp : OrderProfitComputed → Type 0
AddsUp c =
    is_excluded c.recognition ≡ false
    → total_by margin_of c.lines ≡ c.totals.contribution_margin_minor

compute_accepted-AddsUp :
    (zone : ZoneConversion) (input : OrderProfitInput) (n : NormalizedInput)
    {c : OrderProfitComputed}
    → is_empty n.items ≡ false
    → compute_accepted zone input n ≡ ok c
    → AddsUp c
unfolding compute_accepted
compute_accepted-AddsUp zone input n {c} some_items h =
    let (t, p, h₁) = >>=-eq-ok (compute_terms zone input n) _ h in
    let (lines, q, h₂) = >>=-eq-ok (lines_of_order t n.items) _ h₁ in
    let (totals, r, h₃) = >>=-eq-ok (totals_of_order t lines) _ h₂ in
    subst AddsUp (ok-injective {b = c} h₃) (λ kept.
      lines_of_order-sum t n.items (compute_terms-AreCoherent zone input n some_items p) some_items
        kept q (totals-margin t lines r))

insert_by-empty :
    {A : Type 0} (key : A → Text) (x : A) (xs : List A) → is_empty (insert_by key x xs) ≡ false
unfolding insert_by
insert_by-empty key x [] = refl
insert_by-empty key x (y ∷ ys) = elim (Bool-cases (lt_text (key y) (key x))) [
  | inl e ↦ rw e refl
  | inr e ↦ rw e refl
]

sort_by-empty :
    {A : Type 0} (key : A → Text) (xs : List A) → is_empty (sort_by key xs) ≡ is_empty xs
unfolding sort_by
sort_by-empty key [] = refl
sort_by-empty key (x ∷ xs) = insert_by-empty key x (sort_by key xs)

abbrev items_or : Normalized → List CanonicalOrderItem
items_or (accepted n) = n.items
items_or (refused ds) = []

accepted-items :
    (input : OrderProfitInput) {n : NormalizedInput}
    → normalize_and_validate input ≡ accepted n
    → n.items ≡ sort_by (λ i. i.platform_line_id) input.items
unfolding normalize_and_validate
accepted-items input h = elim (Bool-cases (not (is_empty (fatal_diagnostics input)))) [
  | inl e ↦ absurd (let h₁ = rw e at h in cc)
  | inr e ↦ ap items_or (sym (rw e at h))
]

abbrev computed_or : OrderProfitComputed → OrderProfitResult → OrderProfitComputed
computed_or d (computed c) = c
computed_or d (rejected r) = d

pub caught-computed :
    (input : OrderProfitInput) (r : Result OrderProfitComputed) {c : OrderProfitComputed}
    → caught input r ≡ computed c
    → r ≡ ok c
caught-computed input (ok d) h = ap (λ (r : OrderProfitResult). ok (computed_or d r)) h
caught-computed input (err e) h = cc

normalized-AddsUp :
    (zone : ZoneConversion) (input : OrderProfitInput) (m : Normalized) {c : OrderProfitComputed}
    → normalize_and_validate input ≡ m
    → is_empty input.items ≡ false
    → compute_normalized zone input m ≡ computed c
    → AddsUp c
normalized-AddsUp zone input (refused ds) e some_items h = cc
normalized-AddsUp zone input (accepted n) e some_items h =
    let same = accepted-items input e in
    compute_accepted-AddsUp zone input n
      (ap (λ (xs : List CanonicalOrderItem). is_empty xs) same
        ∙ (sort_by-empty (λ i. i.platform_line_id) input.items ∙ some_items))
      (caught-computed input (compute_accepted zone input n) h)

-- Wherever the profit of an order with items is computed and the order is not excluded, the margins
-- of the lines add up to the margin of the order, to the minor unit.
pub compute_order_profit-sum :
    (zone : ZoneConversion) (input : OrderProfitInput) {c : OrderProfitComputed}
    → is_empty input.items ≡ false
    → compute_order_profit zone input ≡ computed c
    → is_excluded c.recognition ≡ false
    → total_by margin_of c.lines ≡ c.totals.contribution_margin_minor
unfolding compute_order_profit
compute_order_profit-sum zone input some_items h kept =
    normalized-AddsUp zone input (normalize_and_validate input) refl some_items h kept
