-- ===== src/Engine/Shipping/Cost.antt =====
-- packages/core/src/engine/shipping.ts: the cost of a direction and the costs of its parcels.
use ghalla.Base.{◌≡◌, false, List, map, ◌∙◌, is_empty, Bool-cases, inl, inr, subst, arith}
use ghalla.Base.Int.{ℤ, total_by, sum-map}
use ghalla.Base.Result.{ok, >>=-eq-ok, ok-injective}
use ghalla.Money.{add_minor}
use ghalla.Money.Exact.{add_minor-ok}
use ghalla.Contracts.Enums.{ShipmentDirection}
use ghalla.Contracts.Canonical.{CanonicalOrder, CanonicalShipment}
use ghalla.Engine.Input.{ShippingFallbackRule}
use ghalla.Engine.Diagnostics.{Computed}
use ghalla.Engine.Shipping.{
  ShippingLeg, ShipmentCost, compute_shipping_cost, legs_in, no_legs, outcome_of_leg, parcels_of,
}

abbrev pub parcel_cost : ShipmentCost → ℤ
parcel_cost p = p.cost_minor

-- The cost is the sum over the parcels, wherever there are any.
abbrev pub IsItemized : ShippingLeg → Type 0
IsItemized l = is_empty l.parcels ≡ false → l.cost_minor ≡ total_by parcel_cost l.parcels

no_legs-IsItemized :
    (o : CanonicalOrder) (rules : List ShippingFallbackRule) (direction : ShipmentDirection)
    → IsItemized (no_legs o rules direction).value
unfolding no_legs
no_legs-IsItemized o rules direction = ground arith

pub compute_shipping_cost-IsItemized :
    (o : CanonicalOrder) (shipments : List CanonicalShipment) (rules : List ShippingFallbackRule)
    (direction : ShipmentDirection) {c : Computed ShippingLeg}
    → compute_shipping_cost o shipments rules direction ≡ ok c
    → IsItemized c.value
unfolding compute_shipping_cost
compute_shipping_cost-IsItemized o shipments rules direction {c} h =
    elim (Bool-cases (is_empty (legs_in direction shipments))) [
      | inl e ↦
          subst (λ (y : Computed ShippingLeg). IsItemized y.value)
            (ok-injective {b = c} (rw e at h)) (no_legs-IsItemized o rules direction)
      | inr e ↦
          let outcomes = map (outcome_of_leg rules o direction) (legs_in direction shipments) in
          let (cost, p, h₁) =
            >>=-eq-ok (add_minor (map parcel_cost (parcels_of outcomes))) _ (rw e at h) in
          subst (λ (y : Computed ShippingLeg). IsItemized y.value) (ok-injective {b = c} h₁)
            (λ some_parcels.
              (add_minor-ok (map parcel_cost (parcels_of outcomes)) p).0
              ∙ sum-map parcel_cost (parcels_of outcomes))
    ]

-- Wherever a direction has parcels with a cost, its cost is exactly the sum of theirs.
compute_shipping_cost-sum :
    (o : CanonicalOrder) (shipments : List CanonicalShipment) (rules : List ShippingFallbackRule)
    (direction : ShipmentDirection) {c : Computed ShippingLeg}
    → compute_shipping_cost o shipments rules direction ≡ ok c
    → is_empty c.value.parcels ≡ false
    → c.value.cost_minor ≡ total_by parcel_cost c.value.parcels
compute_shipping_cost-sum o shipments rules direction h =
    compute_shipping_cost-IsItemized o shipments rules direction h
