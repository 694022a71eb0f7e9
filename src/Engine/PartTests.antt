-- ===== src/Engine/PartTests.antt =====
-- Runs of the parts of the engine on the order of Samples.
use ghalla.Base.{if◌then◌else◌, false, true, ◌≡◌, refl, [], ◌∷◌, map, none, ◌↔◌}
use ghalla.Base.Int.{pos, ◌+ℤ◌, ◌-ℤ◌, ◌*ℤ◌, neg}
use ghalla.Base.Text.{eq_text, lt_text}
use ghalla.Base.Dict.{has, lookup, insert, of_entries}
use ghalla.Base.Result.{ok}
use ghalla.Money.{
  to_minor, add_from, add_minor, sub_minor, negate_minor, round_half, div_round_half_away, mul_bps,
  clamp_minor, split_vat_inclusive, assert_in_range, has_duplicate, row_of, before, insert_row,
  sort_rows, amount_of, share_of_row, allocate_minor,
}
use ghalla.Contracts.Enums.{is_exact_source, ShipmentDirection}
use ghalla.Engine.Input.{TermBasis, ShippingFallbackRule}
use ghalla.Engine.Samples.{
  sample_order, sample_items, sample_costs, sample_shipments, sample_reversals, card_fee,
}
use ghalla.Engine.Expected.{
  sample_revenue, sample_cogs, sample_outbound, sample_impact, sample_fee, sample_terms,
}
use ghalla.Engine.Recognition.{is_recognized, compute_recognition, recognized, is_excluded}
use ghalla.Engine.Recognition.Footprint.{footprint_not_excluded}
use ghalla.Engine.Revenue.{
  compute_revenue, unreflected, line_revenue_of, compute_line_revenue, discounts_of, expected_total,
  recognized_revenue,
}
use ghalla.Engine.Revenue.Identity.{compute_revenue-charged, charged}
use ghalla.Engine.Revenue.Net.{compute_revenue-IsSplit, IsSplit}
use ghalla.Engine.Cogs.{
  CostIndex, product_key_of, resolve_cost, cost_line, cost_lines, compute_cogs,
}
use ghalla.Engine.Shipping.{
  compute_shipping_cost, outcome_of_leg, geography_matches, shipping_score,
}
use ghalla.Engine.Rules.Best.{pick_best-maximal, Fits, AtLeast}
use ghalla.Engine.Rules.{pick_best}
use ghalla.Engine.Fee.{apply_fee_formula, clamped_fee, ex_vat_of, vat_of}
use ghalla.Engine.Reversal.{compute_reversal_impact, impact_of_tallies, result_line}
use ghalla.Engine.Reversal.Steps.{reversal_steps, reversal_step, detailed_reversal, reversal_lines}
use ghalla.Engine.Reversal.Impact.{compute_reversal_impact-Reconciles, Reconciles}
use ghalla.Engine.Normalize.Checks.{no_costs, index_costs, index_cost}
use ghalla.Engine.Compute.Assemble.{contribution_margin}
use ghalla.Engine.Confidence.{TermBases, Level, ReversalConfidence, derive_confidence}
use ghalla.Engine.Confidence.Grade.{incomplete_iff}

revenue_run : compute_revenue sample_order sample_items recognized ≡ ok sample_revenue
unfolding ◌+ℤ◌ ◌-ℤ◌ neg eq_text lt_text has lookup to_minor add_from add_minor sub_minor
    has_duplicate row_of before insert_row sort_rows amount_of share_of_row allocate_minor
    unreflected line_revenue_of compute_line_revenue discounts_of expected_total recognized_revenue
    compute_revenue
revenue_run = refl

compute_revenue-charged_example :
    pos 1530 ≡ (if is_recognized recognized then charged sample_order sample_items else pos 0)
compute_revenue-charged_example =
    compute_revenue-charged sample_order sample_items recognized revenue_run

compute_revenue-IsSplit_example : IsSplit sample_items sample_revenue.value
compute_revenue-IsSplit_example =
    compute_revenue-IsSplit sample_order sample_items recognized refl revenue_run

abbrev sample_index : CostIndex
unfolding index_costs
sample_index = (index_costs sample_costs no_costs).0

cogs_run : compute_cogs sample_items sample_index ≡ ok sample_cogs
unfolding is_exact_source sample_index index_costs index_cost insert ◌+ℤ◌ ◌*ℤ◌ eq_text lookup
    to_minor add_from add_minor product_key_of resolve_cost cost_line cost_lines compute_cogs
    assert_in_range
cogs_run = refl

outbound_run :
    compute_shipping_cost sample_order sample_shipments [] ShipmentDirection.outbound
    ≡ ok sample_outbound
unfolding ◌+ℤ◌ to_minor add_from add_minor compute_shipping_cost outcome_of_leg
outbound_run = refl

fee_run : apply_fee_formula (pos 1755) card_fee true ≡ ok sample_fee
unfolding ◌+ℤ◌ ◌-ℤ◌ ◌*ℤ◌ neg to_minor add_from add_minor sub_minor round_half div_round_half_away
    mul_bps clamp_minor split_vat_inclusive clamped_fee ex_vat_of vat_of apply_fee_formula
fee_run = refl

clamped_run : clamped_fee (pos 1755) card_fee ≡ ok (pos 140)
unfolding ◌+ℤ◌ ◌*ℤ◌ neg to_minor add_from add_minor round_half div_round_half_away mul_bps
    clamp_minor clamped_fee
clamped_run = refl

reversal_run :
    compute_reversal_impact sample_reversals sample_revenue.value.lines sample_cogs.value.lines
      (of_entries (map (λ i. (i.id, i.quantity)) sample_items))
      (of_entries (map (λ i. (i.id, i.line_total_ex_vat_minor)) sample_items))
      recognized
      sample_shipments
      true
    ≡ ok sample_impact
unfolding ◌+ℤ◌ ◌-ℤ◌ ◌*ℤ◌ neg eq_text lookup insert to_minor add_from add_minor sub_minor
    negate_minor assert_in_range compute_reversal_impact impact_of_tallies result_line
    reversal_steps reversal_step detailed_reversal reversal_lines
reversal_run = refl

compute_reversal_impact-Reconciles_example :
    Reconciles sample_revenue.value.lines sample_impact.value
compute_reversal_impact-Reconciles_example =
    compute_reversal_impact-Reconciles sample_reversals sample_revenue.value.lines
      sample_cogs.value.lines (of_entries (map (λ i. (i.id, i.quantity)) sample_items))
      (of_entries (map (λ i. (i.id, i.line_total_ex_vat_minor)) sample_items)) recognized
      sample_shipments true reversal_run

margin_run : contribution_margin sample_terms ≡ ok (pos 241)
unfolding ◌+ℤ◌ ◌-ℤ◌ to_minor add_from add_minor sub_minor contribution_margin
margin_run = refl

footprint_not_excluded_example :
    is_excluded (compute_recognition sample_order sample_shipments) ≡ false
footprint_not_excluded_example = footprint_not_excluded sample_order sample_shipments refl refl refl

abbrev anywhere : ShippingFallbackRule
anywhere = record {
  country_code = none;
  region = none;
  carrier = none;
  direction = none;
  cost_minor = pos 30;
}

pick_best-maximal_example :
    Fits
      (geography_matches sample_order none)
      shipping_score
      (pick_best (geography_matches sample_order none) shipping_score (anywhere ∷ []))
    × AtLeast
        (geography_matches sample_order none)
        shipping_score
        (shipping_score anywhere)
        (pick_best (geography_matches sample_order none) shipping_score (anywhere ∷ []))
unfolding geography_matches
pick_best-maximal_example =
    pick_best-maximal (geography_matches sample_order none) shipping_score [] [] anywhere refl

abbrev sample_bases : TermBases
sample_bases = record {
  reconciles = true;
  cogs = TermBasis.missing;
  outbound_shipping = TermBasis.actual;
  return_shipping = TermBasis.not_applicable;
  gateway_fee = TermBasis.estimated;
  cod_cost = TermBasis.not_applicable;
  reversal = ReversalConfidence.reported;
}

incomplete_iff_example :
    ((derive_confidence sample_bases []).level ≡ Level.incomplete) ↔ (true ≡ true)
incomplete_iff_example = incomplete_iff sample_bases []
