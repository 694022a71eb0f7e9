-- ===== src/Engine/Shipping.antt =====
-- packages/core/src/engine/shipping.ts: what the courier charged, or what the rules say.
pub mod Cost
use ghalla.Base.{
  ℕ, ◌+◌, Bool, true, false, not, ◌&&◌, List, [], ◌∷◌, ◌++◌, map, Option, none, some, if◌then◌else◌,
  filter, any, is_empty, is_some, is_none, or_option,
}
use ghalla.Base.Int.{ℤ, pos}
use ghalla.Base.Text.{Text, fits_text}
use ghalla.Base.Result.{Result, ok, ◌>>=◌}
use ghalla.Money.{add_minor}
use ghalla.Contracts.Enums.{
  ShipmentDirection, FulfillmentMethod, is_live, is_dispatched, eq_direction,
}
use ghalla.Contracts.Canonical.{CanonicalOrder, CanonicalShipment, OrderDestination}
use ghalla.Engine.Input.{ShippingFallbackRule, TermBasis}
use ghalla.Engine.Diagnostics.{
  Diagnostic, DiagnosticCode, Computed, diagnostic, order_diagnostic, on_shipment,
}
use ghalla.Engine.Recognition.{is_cancelled}
use ghalla.Engine.Rules.{pick_best}

pub record ShipmentCost : Type 0 where
  pub shipment_id : Text
  pub cost_minor : ℤ
  pub line_ids : List Text

pub record ShippingLeg : Type 0 where
  pub cost_minor : ℤ
  pub basis : TermBasis
  pub parcels : List ShipmentCost

-- `order.destination?.countryCode`
abbrev country_of : Option OrderDestination → Option Text
country_of none = none
country_of (some d) = some d.country_code

-- `order.destination?.region`
abbrev region_of : Option OrderDestination → Option Text
region_of none = none
region_of (some d) = d.region

unfoldable pub geography_matches : CanonicalOrder → Option Text → ShippingFallbackRule → Bool
geography_matches o carrier r =
    fits_text r.country_code (country_of o.destination)
    && fits_text r.region (region_of o.destination)
    && fits_text r.carrier carrier

unfoldable pub shipping_score : ShippingFallbackRule → ℕ
shipping_score r =
    (if is_some r.country_code then 4 else 0)
    + (if is_some r.region then 2 else 0)
    + (if is_some r.carrier then 1 else 0)

abbrev pub is_for : ShipmentDirection → ShippingFallbackRule → Bool
is_for d r = elim r.direction [ none ↦ false | some e ↦ eq_direction e d ]

abbrev pub is_for_any : ShippingFallbackRule → Bool
is_for_any r = is_none r.direction

unfoldable pub match_shipping_rule :
    List ShippingFallbackRule
    → CanonicalOrder
    → Option Text
    → ShipmentDirection
    → Option ShippingFallbackRule
match_shipping_rule rules o carrier direction =
    let pick = pick_best (geography_matches o carrier) shipping_score in
    or_option (pick (filter (is_for direction) rules)) (pick (filter is_for_any rules))

abbrev is_carrier : FulfillmentMethod → Bool
is_carrier FulfillmentMethod.carrier = true
is_carrier _ = false

abbrev is_return : ShipmentDirection → Bool
is_return ShipmentDirection.return_leg = true
is_return ShipmentDirection.outbound = false

-- What one leg contributes.
pub record LegOutcome : Type 0 where
  pub parcel : Option ShipmentCost
  pub estimated : Bool
  pub missing : Bool
  pub notes : List Diagnostic

abbrev parcel_of : CanonicalShipment → ℤ → ShipmentCost
parcel_of s cost = record { shipment_id = s.id; cost_minor = cost; line_ids = s.line_ids }

abbrev note_on : DiagnosticCode → CanonicalShipment → Diagnostic
note_on c s = diagnostic c (on_shipment s.id)

abbrev ruled_leg : CanonicalShipment → Option ShippingFallbackRule → LegOutcome
ruled_leg s none = record {
  parcel = none;
  estimated = false;
  missing = true;
  notes =
      note_on DiagnosticCode.carrier_cost_missing s
      ∷ note_on DiagnosticCode.shipping_fallback_missing s
      ∷ [];
}
ruled_leg s (some r) = record {
  parcel = some (parcel_of s r.cost_minor);
  estimated = true;
  missing = false;
  notes =
      note_on DiagnosticCode.carrier_cost_missing s
      ∷ note_on DiagnosticCode.shipping_fallback_used s
      ∷ [];
}

abbrev leg_cost :
    List ShippingFallbackRule
    → CanonicalOrder
    → ShipmentDirection
    → CanonicalShipment
    → Option ℤ
    → LegOutcome
leg_cost rules o direction s (some cost) = record {
  parcel = some (parcel_of s cost);
  estimated = false;
  missing = false;
  notes = [];
}
leg_cost rules o direction s none =
    if not (is_carrier o.fulfillment_method)
    then record {
      parcel = none;
      estimated = false;
      missing = true;
      notes = note_on DiagnosticCode.carrier_cost_missing s ∷ [];
    }
    else ruled_leg s (match_shipping_rule rules o (some s.carrier) direction)

unfoldable pub outcome_of_leg :
    List ShippingFallbackRule → CanonicalOrder → ShipmentDirection → CanonicalShipment → LegOutcome
outcome_of_leg rules o direction s = leg_cost rules o direction s s.carrier_cost_minor

abbrev pub parcels_of : List LegOutcome → List ShipmentCost
parcels_of [] = []
parcels_of (l ∷ ls) = elim l.parcel [ none ↦ parcels_of ls | some p ↦ p ∷ parcels_of ls ]

abbrev leg_notes : List LegOutcome → List Diagnostic
leg_notes [] = []
leg_notes (l ∷ ls) = l.notes ++ leg_notes ls

abbrev no_parcels : ℤ → TermBasis → ShippingLeg
no_parcels cost basis = record { cost_minor = cost; basis = basis; parcels = [] }

-- The branch of an order with no live leg in the direction, where the rule has been looked up.
abbrev fallback_leg : Option ShippingFallbackRule → Computed ShippingLeg
fallback_leg none = record {
  value = no_parcels (pos 0) TermBasis.missing;
  diagnostics =
      order_diagnostic DiagnosticCode.no_outbound_shipment
      ∷ order_diagnostic DiagnosticCode.shipping_fallback_missing
      ∷ [];
}
fallback_leg (some r) = record {
  value = no_parcels r.cost_minor TermBasis.estimated;
  diagnostics =
      order_diagnostic DiagnosticCode.no_outbound_shipment
      ∷ order_diagnostic DiagnosticCode.shipping_fallback_used
      ∷ [];
}

unfoldable pub no_legs :
    CanonicalOrder → List ShippingFallbackRule → ShipmentDirection → Computed ShippingLeg
no_legs o rules direction =
    if is_return direction
    then record { value = no_parcels (pos 0) TermBasis.not_applicable; diagnostics = [] }
    else if not (is_carrier o.fulfillment_method)
    then record { value = no_parcels (pos 0) TermBasis.not_applicable; diagnostics = [] }
    else if is_cancelled o.lifecycle && not (is_dispatched o.fulfillment_state)
    then record { value = no_parcels (pos 0) TermBasis.not_applicable; diagnostics = [] }
    else fallback_leg (match_shipping_rule rules o none direction)

abbrev pub legs_in : ShipmentDirection → List CanonicalShipment → List CanonicalShipment
legs_in direction = filter (λ s. eq_direction s.direction direction && is_live s.status)

unfoldable pub compute_shipping_cost :
    CanonicalOrder
    → List CanonicalShipment
    → List ShippingFallbackRule
    → ShipmentDirection
    → Result (Computed ShippingLeg)
compute_shipping_cost o shipments rules direction =
    let legs = legs_in direction shipments in
    if is_empty legs then ok (no_legs o rules direction) else (do
      let outcomes = map (outcome_of_leg rules o direction) legs
      cost ← add_minor (map (λ p. p.cost_minor) (parcels_of outcomes))
      ok (record {
        value = record {
          cost_minor = cost;
          basis =
              if any (λ l. l.missing) outcomes
              then TermBasis.missing
              else if any (λ l. l.estimated) outcomes
              then TermBasis.estimated
              else TermBasis.actual;
          parcels = parcels_of outcomes;
        };
        diagnostics = leg_notes outcomes;
      }))
