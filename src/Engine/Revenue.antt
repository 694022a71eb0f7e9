-- ===== src/Engine/Revenue.antt =====
-- packages/core/src/engine/revenue.ts: what an order earned, and each line's part of it.
pub mod Identity
pub mod Net
use ghalla.Base.{
  Bool, true, false, not, ◌&&◌, List, [], ◌∷◌, ◌++◌, map, if◌then◌else◌, filter, is_empty, or_else,
}
use ghalla.Base.Int.{ℤ, pos, neg, eq_ℤ}
use ghalla.Base.Text.{Text}
use ghalla.Base.Dict.{Dict, lookup}
use ghalla.Base.Result.{Result, ok, ◌>>=◌, map_result}
use ghalla.Money.{add_minor, sub_minor, to_minor, AllocationBucket, allocate_minor}
use ghalla.Contracts.Canonical.{CanonicalOrder, CanonicalOrderItem, DiscountTarget}
use ghalla.Engine.Diagnostics.{Diagnostic, DiagnosticCode, Computed, order_diagnostic}
use ghalla.Engine.Recognition.{ProfitRecognition, recognized, cost_only, excluded, is_recognized}

pub record LineRevenue : Type 0 where
  pub order_item_id : Text
  pub gross_ex_vat_minor : ℤ
  pub allocated_order_discount_ex_vat_minor : ℤ
  pub net_ex_vat_minor : ℤ

pub record OrderRevenue : Type 0 where
  pub lines : List LineRevenue
  pub items_revenue_ex_vat_minor : ℤ
  pub shipping_revenue_ex_vat_minor : ℤ
  pub cod_fee_revenue_ex_vat_minor : ℤ
  pub order_discount_ex_vat_minor : ℤ
  pub revenue_ex_vat_minor : ℤ
  pub vat_collected_minor : ℤ
  pub shipping_discount_ex_vat_minor : ℤ
  pub cod_fee_discount_ex_vat_minor : ℤ
  pub reconciles : Bool

abbrev pub eq_target : DiscountTarget → DiscountTarget → Bool
eq_target DiscountTarget.items DiscountTarget.items = true
eq_target DiscountTarget.shipping DiscountTarget.shipping = true
eq_target DiscountTarget.cod_fee DiscountTarget.cod_fee = true
eq_target _ _ = false

unfoldable pub unreflected : CanonicalOrder → DiscountTarget → Result ℤ
unreflected o target = add_minor (
    map (λ d. d.amount_ex_vat_minor)
      (filter (λ d. eq_target d.target target && not d.reflected_in_component) o.discounts))

abbrev pub item_buckets : List CanonicalOrderItem → List AllocationBucket
item_buckets = map (λ i. record { key = i.id; weight = i.line_total_ex_vat_minor })

unfoldable pub line_revenue_of : Dict ℤ → CanonicalOrderItem → Result LineRevenue
line_revenue_of allocation i =
    let share = or_else (lookup i.id allocation) (pos 0) in
    sub_minor i.line_total_ex_vat_minor share >>= λ net. ok (record {
      order_item_id = i.id;
      gross_ex_vat_minor = i.line_total_ex_vat_minor;
      allocated_order_discount_ex_vat_minor = share;
      net_ex_vat_minor = net;
    })

unfoldable pub compute_line_revenue : List CanonicalOrderItem → ℤ → Result (List LineRevenue)
compute_line_revenue [] item_discount = ok []
compute_line_revenue (i ∷ items) item_discount =
    allocate_minor item_discount (item_buckets (i ∷ items)) >>= λ allocation.
    map_result (line_revenue_of allocation) (i ∷ items)

-- The discounts of an order that no component already shows.
pub record Discounts : Type 0 where
  pub on_items : ℤ
  pub on_shipping : ℤ
  pub on_cod_fee : ℤ
  pub on_order : ℤ

unfoldable pub discounts_of : CanonicalOrder → Result Discounts
discounts_of o = do
  on_items ← unreflected o DiscountTarget.items
  on_shipping ← unreflected o DiscountTarget.shipping
  on_cod_fee ← unreflected o DiscountTarget.cod_fee
  on_order ← add_minor (on_items ∷ on_shipping ∷ on_cod_fee ∷ [])
  ok (record {
    on_items = on_items;
    on_shipping = on_shipping;
    on_cod_fee = on_cod_fee;
    on_order = on_order;
  })

-- `expectedTotal`
unfoldable pub expected_total : CanonicalOrder → ℤ → Result ℤ
expected_total o order_discount = do
  less ← to_minor (neg order_discount)
  add_minor (
      o.subtotal_ex_vat_minor ∷ less ∷ o.shipping_charged_ex_vat_minor
      ∷ o.cod_fee_charged_ex_vat_minor ∷ o.vat_amount_minor ∷ [])

abbrev zero_line : CanonicalOrderItem → LineRevenue
zero_line i = record {
  order_item_id = i.id;
  gross_ex_vat_minor = pos 0;
  allocated_order_discount_ex_vat_minor = pos 0;
  net_ex_vat_minor = pos 0;
}

-- An order that is not recognized earned nothing.
abbrev pub no_revenue : List CanonicalOrderItem → Bool → OrderRevenue
no_revenue items reconciles = record {
  lines = map zero_line items;
  items_revenue_ex_vat_minor = pos 0;
  shipping_revenue_ex_vat_minor = pos 0;
  cod_fee_revenue_ex_vat_minor = pos 0;
  order_discount_ex_vat_minor = pos 0;
  revenue_ex_vat_minor = pos 0;
  vat_collected_minor = pos 0;
  shipping_discount_ex_vat_minor = pos 0;
  cod_fee_discount_ex_vat_minor = pos 0;
  reconciles = reconciles;
}

unfoldable pub recognized_revenue :
    CanonicalOrder → List CanonicalOrderItem → ℤ → Discounts → Bool → Result OrderRevenue
recognized_revenue o items items_gross d reconciles = do
  less ← to_minor (neg d.on_order)
  revenue ←
      add_minor
        (items_gross ∷ o.shipping_charged_ex_vat_minor ∷ o.cod_fee_charged_ex_vat_minor ∷ less ∷ [])
  lines ← compute_line_revenue items d.on_items
  ok (record {
    lines = lines;
    items_revenue_ex_vat_minor = items_gross;
    shipping_revenue_ex_vat_minor = o.shipping_charged_ex_vat_minor;
    cod_fee_revenue_ex_vat_minor = o.cod_fee_charged_ex_vat_minor;
    order_discount_ex_vat_minor = d.on_order;
    revenue_ex_vat_minor = revenue;
    vat_collected_minor = o.vat_amount_minor;
    shipping_discount_ex_vat_minor = d.on_shipping;
    cod_fee_discount_ex_vat_minor = d.on_cod_fee;
    reconciles = reconciles;
  })

abbrev revenue_notes : ProfitRecognition → List Diagnostic
revenue_notes recognized = []
revenue_notes (cost_only r) = order_diagnostic DiagnosticCode.recognition_cost_only ∷ []
revenue_notes (excluded r) = order_diagnostic DiagnosticCode.order_excluded ∷ []

unfoldable pub compute_revenue :
    CanonicalOrder → List CanonicalOrderItem → ProfitRecognition → Result (Computed OrderRevenue)
compute_revenue o items recognition = do
  items_gross ← add_minor (map (λ i. i.line_total_ex_vat_minor) items)
  d ← discounts_of o
  expected ← expected_total o d.on_order
  let reconciles = eq_ℤ expected o.total_inc_vat_minor && eq_ℤ o.subtotal_ex_vat_minor items_gross
  value ←
      (if is_recognized recognition
        then recognized_revenue o items items_gross d reconciles
        else ok (no_revenue items reconciles))
  ok (record {
    value = value;
    diagnostics =
        (if reconciles then [] else order_diagnostic DiagnosticCode.totals_do_not_reconcile ∷ [])
        ++ (if is_empty items then order_diagnostic DiagnosticCode.order_has_no_items ∷ [] else [])
        ++ revenue_notes recognition;
  })
