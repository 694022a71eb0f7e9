-- ===== src/Engine/Lines/Sum.antt =====
-- packages/core/src/engine/allocate-lines.ts: the sum of the margins of the lines.
use ghalla.Base.{
  ◌≡◌, refl, false, List, [], ◌∷◌, map, ap, sym, ◌∙◌, is_empty, subst, Option, none, some,
}
use ghalla.Base.Text.{Text}
use ghalla.Base.Int.{ℤ, pos, ◌+ℤ◌, ◌-ℤ◌, total_by, int_laws}
use ghalla.Base.Totals.{total_by-map, total_by-map_result, total_by-eq}
use ghalla.Base.Dict.{Dict, lookup, of_entries}
use ghalla.Base.Result.{ok, >>=-eq-ok}
use ghalla.Money.Share.Unique.{Unique, keys, read, value_at, total_by-keys, of_entries_eq}
use ghalla.Contracts.Canonical.{CanonicalOrderItem}
use ghalla.Engine.Revenue.{LineRevenue}
use ghalla.Engine.Cogs.{LineCogs}
use ghalla.Engine.Reversal.{LineReversal}
use ghalla.Engine.Lines.{
  OrderProfitLine, OrderLevelAmounts, field_or, allocate_amounts, profit_line, item_by_id,
  line_cogs_by_id, reversal_by_id, allocate_order_costs_to_lines,
}
use ghalla.Engine.Lines.Parcels.{line_id}
use ghalla.Engine.Lines.Margin.{impact_at, cogs_at, gain_of, loss_of, profit_line-parts}
use ghalla.Engine.Lines.Total.{Sums, allocate_amounts-Covers}

module _ {A : Type 0} (id : A → Text) (f : A → ℤ) where
  entries-keys : (xs : List A) → keys (map (λ x. (id x, x)) xs) ≡ map id xs
  entries-keys [] = refl
  entries-keys (x ∷ xs) = ap (λ (ks : List Text). id x ∷ ks) (entries-keys xs)

  entries-total :
      (xs : List A) → total_by (λ (e : Text × A). f e.1) (map (λ x. (id x, x)) xs) ≡ total_by f xs
  entries-total xs = total_by-map (λ (e : Text × A). f e.1) (λ x. (id x, x)) xs

  value_or : (o : Option A) → field_or f (pos 0) o ≡ read f o
  value_or none = refl
  value_or (some x) = refl

  -- Lines that look up records by their ids find each record once.
  lookup-total :
      (xs : List A) (revenue : List LineRevenue)
      → map id xs ≡ map line_id revenue
      → Unique (map line_id revenue)
      → total_by
          (λ l. field_or f (pos 0) (lookup (line_id l) (of_entries (map (λ x. (id x, x)) xs))))
          revenue
        ≡ total_by f xs
  lookup-total xs revenue same u =
      let entries = map (λ x. (id x, x)) xs in
      let ids = entries-keys xs ∙ same in
      let distinct : Unique (keys entries) = subst Unique (sym ids) u in
      total_by-eq _ (λ l. value_at f (of_entries entries) (line_id l))
        (λ l. value_or (lookup (line_id l) (of_entries entries))) revenue
      ∙ (sym (total_by-map (value_at f (of_entries entries)) line_id revenue)
          ∙ (ap (total_by (value_at f (of_entries entries))) (sym ids)
              ∙ (ap (λ (m : Dict A). total_by (value_at f m) (keys entries))
                    (of_entries_eq entries distinct)
                  ∙ (total_by-keys f entries distinct ∙ entries-total xs))))

sum-gains :
    (n s c i g o r w d : LineRevenue → ℤ) (ls : List LineRevenue)
    → total_by (λ l. n l +ℤ s l +ℤ c l +ℤ i l -ℤ (g l +ℤ o l +ℤ r l +ℤ w l +ℤ d l)) ls
      ≡ total_by n ls
        +ℤ total_by s ls
        +ℤ total_by c ls
        +ℤ total_by i ls
        -ℤ (total_by g ls +ℤ total_by o ls +ℤ total_by r ls +ℤ total_by w ls +ℤ total_by d ls)
sum-gains n s c i g o r w d [] = omega int_laws
sum-gains n s c i g o r w d (l ∷ ls) = rw (sum-gains n s c i g o r w d ls) (omega int_laws)

abbrev pub margin_of : OrderProfitLine → ℤ
margin_of l = l.contribution_margin_minor

-- The margins of an order's lines add up to its revenue and reversals less its costs. The lines of
-- cost and of reversals have the ids of the lines of revenue, in the same order, and where parcels
-- were shipped, in either direction, the amount for the direction is the sum of their costs.
pub allocate_order_costs_to_lines-sum :
    (items : List CanonicalOrderItem) (revenue : List LineRevenue) (cogs : List LineCogs)
    (reversals : List LineReversal) (m : OrderLevelAmounts) {lines : List OrderProfitLine}
    → is_empty revenue ≡ false
    → map (λ c. c.order_item_id) cogs ≡ map line_id revenue
    → map (λ r. r.order_item_id) reversals ≡ map line_id revenue
    → Sums revenue m.outbound_parcels m.outbound_shipping_cost_minor
    → Sums revenue m.return_parcels m.return_shipping_cost_minor
    → allocate_order_costs_to_lines items revenue cogs reversals m ≡ ok lines
    → total_by margin_of lines
      ≡ total_by (λ l. l.net_ex_vat_minor) revenue
        +ℤ m.shipping_revenue_ex_vat_minor
        +ℤ m.cod_fee_revenue_ex_vat_minor
        +ℤ total_by (λ r. r.impact_minor) reversals
        -ℤ (total_by (λ c. c.cogs_minor) cogs
            +ℤ m.outbound_shipping_cost_minor
            +ℤ m.return_shipping_cost_minor
            +ℤ m.gateway_fee_cost_minor
            +ℤ m.cod_cost_minor)
unfolding allocate_order_costs_to_lines
allocate_order_costs_to_lines-sum items revenue cogs reversals m some_lines same_cogs same_back
      out_sums back_sums h =
    let (a, p, h₁) =
      >>=-eq-ok (allocate_amounts (item_by_id items) revenue reversals m) _ (rw some_lines at h) in
    let (u, s, f, o, b, g, d) =
      allocate_amounts-Covers revenue (item_by_id items) reversals m out_sums back_sums p in
    let costs = line_cogs_by_id cogs in
    let back = reversal_by_id reversals in
    total_by-map_result (profit_line (item_by_id items) costs back a) margin_of
      (λ l. gain_of costs back a l -ℤ loss_of costs back a l)
      (λ line l e.
        (let (x, y, z) = profit_line-parts (item_by_id items) costs back a line e in
          x ∙ rw (y, z) refl))
      revenue h₁
    ∙ (sum-gains _ _ _ (impact_at costs back a) (cogs_at costs back a) _ _ _ _ revenue
        ∙ (rw
            (
              s,
              f,
              o,
              b,
              g,
              d,
              lookup-total (λ c. c.order_item_id) (λ c. c.cogs_minor) cogs revenue same_cogs u,
              lookup-total (λ r. r.order_item_id) (λ r. r.impact_minor) reversals revenue same_back
                  u,
            )
            refl))
