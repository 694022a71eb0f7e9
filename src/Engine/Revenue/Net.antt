-- ===== src/Engine/Revenue/Net.antt =====
-- packages/core/src/engine/revenue.ts: the revenue of the lines and the revenue of the order.
use ghalla.Base.{
  ◌≡◌, refl, Bool, false, ◌&&◌, List, [], ◌∷◌, map, ap, sym, ◌∙◌, is_empty, Bool-cases, inl, inr,
  if◌then◌else◌, subst, or_else,
}
use ghalla.Base.Text.{Text}
use ghalla.Base.Int.{ℤ, pos, ◌+ℤ◌, ◌-ℤ◌, neg, total_by, total_by-sub, int_laws, eq_ℤ, sum-map}
use ghalla.Base.Totals.{total_by-map, total_by-map_result, map-map_result}
use ghalla.Base.Dict.{Dict, lookup}
use ghalla.Base.Result.{ok, >>=-eq-ok, ok-injective}
use ghalla.Money.{add_minor, sub_minor, to_minor, allocate_minor}
use ghalla.Money.Exact.{add_minor-ok, sub_minor-ok, to_minor-ok}
use ghalla.Money.Share.Unique.{value_at}
use ghalla.Money.Share.ByKey.{allocate-by_key, itself, key_of}
use ghalla.Contracts.Canonical.{CanonicalOrder, CanonicalOrderItem, DiscountTarget}
use ghalla.Engine.Diagnostics.{Computed}
use ghalla.Engine.Recognition.{ProfitRecognition, is_recognized}
use ghalla.Engine.Revenue.{
  LineRevenue, OrderRevenue, Discounts, discounts_of, expected_total, recognized_revenue,
  compute_revenue, compute_line_revenue, line_revenue_of, no_revenue, item_buckets, unreflected,
}
use ghalla.Engine.Lines.Total.{share_of_eq}

abbrev pub item_id : CanonicalOrderItem → Text
item_id i = i.id

abbrev pub item_total : CanonicalOrderItem → ℤ
item_total i = i.line_total_ex_vat_minor

abbrev pub net_of : LineRevenue → ℤ
net_of l = l.net_ex_vat_minor

buckets-ids :
    (items : List CanonicalOrderItem) → map key_of (item_buckets items) ≡ map item_id items
buckets-ids [] = refl
buckets-ids (i ∷ items) = ap (λ (ks : List Text). i.id ∷ ks) (buckets-ids items)

line_parts :
    (allocation : Dict ℤ) (i : CanonicalOrderItem) {l : LineRevenue}
    → line_revenue_of allocation i ≡ ok l
    → (l.order_item_id ≡ i.id) × (net_of l ≡ item_total i -ℤ value_at itself allocation i.id)
unfolding line_revenue_of
line_parts allocation i {l} h =
    let share = or_else (lookup i.id allocation) (pos 0) in
    let (net, p, h₁) = >>=-eq-ok (sub_minor i.line_total_ex_vat_minor share) _ h in
    subst
      (λ (x : LineRevenue).
        (x.order_item_id ≡ i.id) × (net_of x ≡ item_total i -ℤ value_at itself allocation i.id))
      (ok-injective {b = l} h₁)
      (
        refl,
        (sub_minor-ok i.line_total_ex_vat_minor share p).0
            ∙ ap (λ (t : ℤ). item_total i -ℤ t) (share_of_eq allocation i.id),
      )

-- The lines keep the items' ids, and their net amounts are the items' amounts less the discount
-- that is allocated to them, exactly.
pub compute_line_revenue-net :
    (items : List CanonicalOrderItem) (discount : ℤ) {lines : List LineRevenue}
    → is_empty items ≡ false
    → compute_line_revenue items discount ≡ ok lines
    → (map (λ l. l.order_item_id) lines ≡ map item_id items)
      × (total_by net_of lines ≡ total_by item_total items -ℤ discount)
unfolding compute_line_revenue
compute_line_revenue-net [] discount some_items h = cc
compute_line_revenue-net (i ∷ items) discount some_items h =
    let (m, p, h₁) = >>=-eq-ok (allocate_minor discount (item_buckets (i ∷ items))) _ h in
    let shares : total_by (λ i. value_at itself m (item_id i)) (i ∷ items) ≡ discount =
      sym (total_by-map (value_at itself m) item_id (i ∷ items))
      ∙ (ap (total_by (value_at itself m)) (sym (buckets-ids (i ∷ items)))
          ∙ allocate-by_key discount (item_buckets (i ∷ items)) p) in
    (
      map-map_result (line_revenue_of m) (λ l. l.order_item_id) item_id
          (λ i l e. (line_parts m i e).0) (i ∷ items) h₁,
      total_by-map_result (line_revenue_of m) net_of
            (λ i. item_total i -ℤ value_at itself m (item_id i)) (λ i l e. (line_parts m i e).1)
            (i ∷ items) h₁
          ∙ (total_by-sub item_total (λ i. value_at itself m (item_id i)) (i ∷ items)
              ∙ ap (λ (t : ℤ). total_by item_total (i ∷ items) -ℤ t) shares),
    )

discounts_ok :
    (o : CanonicalOrder) {d : Discounts}
    → discounts_of o ≡ ok d
    → d.on_order ≡ d.on_items +ℤ d.on_shipping +ℤ d.on_cod_fee
unfolding discounts_of
discounts_ok o {d} h =
    let (x, p, h₁) = >>=-eq-ok (unreflected o DiscountTarget.items) _ h in
    let (y, q, h₂) = >>=-eq-ok (unreflected o DiscountTarget.shipping) _ h₁ in
    let (z, r, h₃) = >>=-eq-ok (unreflected o DiscountTarget.cod_fee) _ h₂ in
    let (all, s, h₄) = >>=-eq-ok (add_minor (x ∷ y ∷ z ∷ [])) _ h₃ in
    subst (λ (d : Discounts). d.on_order ≡ d.on_items +ℤ d.on_shipping +ℤ d.on_cod_fee)
      (ok-injective {b = d} h₄) ((add_minor-ok (x ∷ y ∷ z ∷ []) s).0 ∙ omega int_laws)

-- What the lines bring in, with the shipping and the fee for cash on delivery after their discounts
abbrev pub pushed_down : OrderRevenue → ℤ
pushed_down r =
    total_by net_of r.lines
    +ℤ (r.shipping_revenue_ex_vat_minor -ℤ r.shipping_discount_ex_vat_minor)
    +ℤ (r.cod_fee_revenue_ex_vat_minor -ℤ r.cod_fee_discount_ex_vat_minor)

abbrev pub IsSplit : List CanonicalOrderItem → OrderRevenue → Type 0
IsSplit items r =
    (map (λ l. l.order_item_id) r.lines ≡ map item_id items)
    × (pushed_down r ≡ r.revenue_ex_vat_minor)

recognized-IsSplit :
    (o : CanonicalOrder) (items : List CanonicalOrderItem) (gross : ℤ) (d : Discounts) (b : Bool)
    {r : OrderRevenue}
    → is_empty items ≡ false
    → gross ≡ total_by item_total items
    → d.on_order ≡ d.on_items +ℤ d.on_shipping +ℤ d.on_cod_fee
    → recognized_revenue o items gross d b ≡ ok r
    → IsSplit items r
unfolding recognized_revenue
recognized-IsSplit o items gross d b {r} some_items sums parts h =
    let terms = λ (less : ℤ).
      gross ∷ o.shipping_charged_ex_vat_minor ∷ o.cod_fee_charged_ex_vat_minor ∷ less ∷ [] in
    let (less, l, h₁) = >>=-eq-ok (to_minor (neg d.on_order)) _ h in
    let (revenue, v, h₂) = >>=-eq-ok (add_minor (terms less)) _ h₁ in
    let (lines, s, h₃) = >>=-eq-ok (compute_line_revenue items d.on_items) _ h₂ in
    let (ids, net) = compute_line_revenue-net items d.on_items some_items s in
    subst (IsSplit items) (ok-injective {b = r} h₃) (
      ids,
      rw (net, (add_minor-ok (terms less) v).0, (to_minor-ok (neg d.on_order) l).0, sums, parts)
          (omega int_laws),
    )

zero_ids :
    (items : List CanonicalOrderItem) (b : Bool)
    → map (λ l. l.order_item_id) (no_revenue items b).lines ≡ map item_id items
zero_ids [] b = refl
zero_ids (i ∷ items) b = ap (λ (ks : List Text). i.id ∷ ks) (zero_ids items b)

zero_net :
    (items : List CanonicalOrderItem) (b : Bool)
    → total_by net_of (no_revenue items b).lines ≡ pos 0
zero_net [] b = refl
zero_net (i ∷ items) b = rw (zero_net items b) (omega int_laws)

chosen-IsSplit :
    (o : CanonicalOrder) (items : List CanonicalOrderItem) (gross : ℤ) (d : Discounts) (b : Bool)
    (recognition : ProfitRecognition) {r : OrderRevenue}
    → is_empty items ≡ false
    → gross ≡ total_by item_total items
    → d.on_order ≡ d.on_items +ℤ d.on_shipping +ℤ d.on_cod_fee
    → (if is_recognized recognition
        then recognized_revenue o items gross d b
        else ok (no_revenue items b))
      ≡ ok r
    → IsSplit items r
chosen-IsSplit o items gross d b recognition {r} some_items sums parts h =
    elim (Bool-cases (is_recognized recognition)) [
      | inl e ↦ recognized-IsSplit o items gross d b some_items sums parts (rw e at h)
      | inr e ↦
          subst (IsSplit items) (ok-injective {b = r} (rw e at h))
            (zero_ids items b, rw (zero_net items b) (omega int_laws))
    ]

-- For an order with items, whatever its recognition, the lines carry the items' ids, and their net
-- revenue, with the shipping and the fee for cash on delivery less the discounts on each, is the
-- revenue of the order.
pub compute_revenue-IsSplit :
    (o : CanonicalOrder) (items : List CanonicalOrderItem) (recognition : ProfitRecognition)
    {c : Computed OrderRevenue}
    → is_empty items ≡ false
    → compute_revenue o items recognition ≡ ok c
    → IsSplit items c.value
unfolding compute_revenue
compute_revenue-IsSplit o items recognition {c} some_items h =
    let (gross, g, h₁) = >>=-eq-ok (add_minor (map item_total items)) _ h in
    let (d, e, h₂) = >>=-eq-ok (discounts_of o) _ h₁ in
    let (expected, x, h₃) = >>=-eq-ok (expected_total o d.on_order) _ h₂ in
    let reconciles = eq_ℤ expected o.total_inc_vat_minor && eq_ℤ o.subtotal_ex_vat_minor gross in
    let (value, v, h₄) =
      >>=-eq-ok
        (if is_recognized recognition
          then recognized_revenue o items gross d reconciles
          else ok (no_revenue items reconciles))
        _ h₃ in
    subst (λ (y : Computed OrderRevenue). IsSplit items y.value) (ok-injective {b = c} h₄)
      (chosen-IsSplit o items gross d reconciles recognition some_items
        ((add_minor-ok (map item_total items) g).0 ∙ sum-map item_total items) (discounts_ok o e) v)
