-- ===== src/Engine/Lines/Margin.antt =====
-- packages/core/src/engine/allocate-lines.ts: the margins of the lines, one by one and together.
use ghalla.Base.{◌≡◌, refl, [], ◌∷◌, ◌∙◌, subst}
use ghalla.Base.Int.{ℤ, pos, ◌+ℤ◌, ◌-ℤ◌, int_laws}
use ghalla.Base.Dict.{Dict, lookup}
use ghalla.Base.Result.{ok, >>=-eq-ok, ok-injective}
use ghalla.Money.{add_minor, sub_minor}
use ghalla.Money.Exact.{add_minor-ok, sub_minor-ok}
use ghalla.Contracts.Canonical.{CanonicalOrderItem}
use ghalla.Engine.Revenue.{LineRevenue}
use ghalla.Engine.Cogs.{LineCogs}
use ghalla.Engine.Reversal.{LineReversal}
use ghalla.Engine.Lines.{OrderProfitLine, Allocations, share_of, field_or, profit_line}

-- What a line earns and what it bears, as its fields show.
abbrev pub earned_by : OrderProfitLine → ℤ
earned_by l =
    l.net_revenue_ex_vat_minor +ℤ l.allocated_shipping_revenue_ex_vat_minor
    +ℤ l.allocated_cod_fee_revenue_ex_vat_minor +ℤ l.reversal_impact_minor

abbrev pub borne_by : OrderProfitLine → ℤ
borne_by l =
    l.cogs_minor +ℤ l.allocated_outbound_shipping_minor +ℤ l.allocated_return_shipping_minor
    +ℤ l.allocated_gateway_fee_minor +ℤ l.allocated_cod_cost_minor

-- What a line of the revenue brings in and what it costs, from the maps.
module _ (cogs : Dict LineCogs) (reversals : Dict LineReversal) (a : Allocations) where
  abbrev pub impact_at : LineRevenue → ℤ
  impact_at l = field_or (λ r. r.impact_minor) (pos 0) (lookup l.order_item_id reversals)

  abbrev pub cogs_at : LineRevenue → ℤ
  cogs_at l = field_or (λ c. c.cogs_minor) (pos 0) (lookup l.order_item_id cogs)

  abbrev pub gain_of : LineRevenue → ℤ
  gain_of l =
      l.net_ex_vat_minor
      +ℤ share_of a.shipping_revenue l.order_item_id
      +ℤ share_of a.cod_fee_revenue l.order_item_id
      +ℤ impact_at l

  abbrev pub loss_of : LineRevenue → ℤ
  loss_of l =
      cogs_at l
      +ℤ share_of a.outbound l.order_item_id
      +ℤ share_of a.returned l.order_item_id
      +ℤ share_of a.gateway l.order_item_id
      +ℤ share_of a.cod l.order_item_id

pub profit_line-parts :
    (items : Dict CanonicalOrderItem) (cogs : Dict LineCogs) (reversals : Dict LineReversal)
    (a : Allocations) (line : LineRevenue) {l : OrderProfitLine}
    → profit_line items cogs reversals a line ≡ ok l
    → (l.contribution_margin_minor ≡ earned_by l -ℤ borne_by l)
      × (earned_by l ≡ gain_of cogs reversals a line)
      × (borne_by l ≡ loss_of cogs reversals a line)
unfolding profit_line
profit_line-parts items cogs reversals a line {l} h =
    let id = line.order_item_id in
    let gains =
      line.net_ex_vat_minor
      ∷ share_of a.shipping_revenue id
      ∷ share_of a.cod_fee_revenue id
      ∷ impact_at cogs reversals a line
      ∷ [] in
    let costs =
      cogs_at cogs reversals a line
      ∷ share_of a.outbound id
      ∷ share_of a.returned id
      ∷ share_of a.gateway id
      ∷ share_of a.cod id
      ∷ [] in
    let (earned, p, h₁) = >>=-eq-ok (add_minor gains) _ h in
    let (spent, q, h₂) = >>=-eq-ok (add_minor costs) _ h₁ in
    let (margin, m, h₃) = >>=-eq-ok (sub_minor earned spent) _ h₂ in
    subst
      (λ (x : OrderProfitLine).
        (x.contribution_margin_minor ≡ earned_by x -ℤ borne_by x)
        × (earned_by x ≡ gain_of cogs reversals a line)
        × (borne_by x ≡ loss_of cogs reversals a line))
      (ok-injective {b = l} h₃)
      (
        (sub_minor-ok earned spent m).0
            ∙ rw ((add_minor-ok gains p).0, (add_minor-ok costs q).0) (omega int_laws),
        refl,
        refl,
      )

-- The margin of a line is exactly what it earns less what it bears, as the fields of the line show.
pub profit_line-margin :
    (items : Dict CanonicalOrderItem) (cogs : Dict LineCogs) (reversals : Dict LineReversal)
    (a : Allocations) (line : LineRevenue) {l : OrderProfitLine}
    → profit_line items cogs reversals a line ≡ ok l
    → l.contribution_margin_minor ≡ earned_by l -ℤ borne_by l
profit_line-margin items cogs reversals a line h =
    (profit_line-parts items cogs reversals a line h).0
