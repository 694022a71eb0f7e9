-- ===== src/Engine/Cogs/Total.antt =====
-- packages/core/src/engine/cogs.ts: the cost of an order's goods and the costs of its lines.
use ghalla.Base.{subst, Option, none, some, ◌≡◌, List, [], ◌∷◌, map, refl, ap, sym, ◌∙◌}
use ghalla.Base.Int.{◌*ℤ◌, sum, total_by}
use ghalla.Base.Text.{Text}
use ghalla.Base.Result.{ok, >>=-eq-ok, ok-injective}
use ghalla.Money.{add_minor, assert_in_range}
use ghalla.Engine.Input.{ResolvedCost}
use ghalla.Money.Exact.{add_minor-ok}
use ghalla.Contracts.Canonical.{CanonicalOrderItem}
use ghalla.Engine.Diagnostics.{Computed}
use ghalla.Engine.Cogs.{
  CostIndex, OrderCogs, LineCost, cost_lines, cost_line, compute_cogs, resolve_cost,
}

total_by-map :
    (ls : List LineCost)
    → total_by (λ l. l.cogs_minor) (map (λ (l : LineCost). l.line) ls)
      ≡ sum (map (λ (l : LineCost). l.line.cogs_minor) ls)
total_by-map [] = refl
total_by-map (l ∷ ls) = rw (total_by-map ls) refl

-- The cost of the goods of an order is exactly the sum of the costs of its lines.
pub compute_cogs-sum :
    (items : List CanonicalOrderItem) (costs : CostIndex) {c : Computed OrderCogs}
    → compute_cogs items costs ≡ ok c
    → c.value.cogs_minor ≡ total_by (λ l. l.cogs_minor) c.value.lines
unfolding compute_cogs
compute_cogs-sum items costs {c} h =
    let (priced, p, h1) = >>=-eq-ok (cost_lines costs items) _ h in
    let (total, t, h2) = >>=-eq-ok (add_minor (map (λ l. l.line.cogs_minor) priced)) _ h1 in
    subst
      (λ (y : Computed OrderCogs). y.value.cogs_minor ≡ total_by (λ l. l.cogs_minor) y.value.lines)
      (ok-injective {b = c} h2)
      ((add_minor-ok (map (λ l. l.line.cogs_minor) priced) t).0 ∙ sym (total_by-map priced))

abbrev pub line_cost : LineCost → Text
line_cost l = l.line.order_item_id

cost_line-id :
    (i : CanonicalOrderItem) (c : Option ResolvedCost) {l : LineCost}
    → cost_line i c ≡ ok l
    → line_cost l ≡ i.id
unfolding cost_line
cost_line-id i none {l} h = ap line_cost (sym (ok-injective {b = l} h))
cost_line-id i (some c) {l} h =
    let (v, p, h₁) = >>=-eq-ok (assert_in_range (c.unit_cost_minor *ℤ i.quantity)) _ h in
    ap line_cost (sym (ok-injective {b = l} h₁))

cost_lines-ids :
    (costs : CostIndex) (items : List CanonicalOrderItem) {ls : List LineCost}
    → cost_lines costs items ≡ ok ls
    → map (λ l. l.order_item_id) (map (λ (l : LineCost). l.line) ls) ≡ map (λ i. i.id) items
unfolding cost_lines
cost_lines-ids costs [] {ls} h =
    ap (λ (ls : List LineCost). map (λ l. l.order_item_id) (map (λ (l : LineCost). l.line) ls))
      (sym (ok-injective {b = ls} h))
cost_lines-ids costs (i ∷ items) {ls} h =
    let (l, p, h₁) = >>=-eq-ok (cost_line i (resolve_cost costs i)) _ h in
    let (rest, q, h₂) = >>=-eq-ok (cost_lines costs items) _ h₁ in
    ap (λ (ls : List LineCost). map (λ l. l.order_item_id) (map (λ (l : LineCost). l.line) ls))
      (sym (ok-injective {b = ls} h₂))
    ∙ rw (cost_line-id i (resolve_cost costs i) p, cost_lines-ids costs items q) refl

-- The lines of cost have the ids of the items, in their order.
pub compute_cogs-ids :
    (items : List CanonicalOrderItem) (costs : CostIndex) {c : Computed OrderCogs}
    → compute_cogs items costs ≡ ok c
    → map (λ l. l.order_item_id) c.value.lines ≡ map (λ i. i.id) items
unfolding compute_cogs
compute_cogs-ids items costs {c} h =
    let (priced, p, h1) = >>=-eq-ok (cost_lines costs items) _ h in
    let (total, t, h2) = >>=-eq-ok (add_minor (map (λ l. l.line.cogs_minor) priced)) _ h1 in
    subst
      (λ (y : Computed OrderCogs). map (λ l. l.order_item_id) y.value.lines ≡ map (λ i. i.id) items)
      (ok-injective {b = c} h2) (cost_lines-ids costs items p)
