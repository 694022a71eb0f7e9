-- ===== src/Engine/Tests.antt =====
-- Runs of the engine on an order of two lines.
use ghalla.Base.{◌≡◌, refl, false, All}
use ghalla.Base.Dict.{has, lookup, insert, erase}
use ghalla.Base.Double.{
  digits_from, half_even, round_53, double_quotient, floor_quotient, ceil_quotient, floor_mul_div,
}
use ghalla.Base.Int.{◌+ℤ◌, ◌-ℤ◌, ◌*ℤ◌, neg}
use ghalla.Base.Order.{lt_wf}
use ghalla.Base.Text.{eq_text, lt_text}
use ghalla.Contracts.Enums.{is_exact_source}
use ghalla.Contracts.Time.{
  take_digits, take_char, parse_date, parse_instant, parse_local_date, is_leap_year, is_real_date,
  is_time_of_day, is_instant, is_local_date, to_local_date,
}
use ghalla.Engine.BusinessDate.{days_from_civil, epoch_millis, business_date_of}
use ghalla.Engine.Cod.{
  carriers_of, cod_rule_for, price_share, cash_shares, price_shares, price_cod_legs,
  compute_cod_cost,
}
use ghalla.Engine.Cogs.{product_key_of, resolve_cost, cost_line, cost_lines, compute_cogs}
use ghalla.Engine.Compute.{compute_accepted, compute_order_profit, is_rankable_for_loss_maker}
use ghalla.Engine.Compute.Assemble.{
  margin_bps_of, lines_of_order, contribution_margin, totals_of_order, bases_of_order,
}
use ghalla.Engine.Compute.Calls.{compute_terms}
use ghalla.Engine.Confidence.{derive_confidence}
use ghalla.Engine.Diagnostics.Sort.{precedes, insert_diagnostic, sort_diagnostics}
use ghalla.Engine.Fee.{clamped_fee, ex_vat_of, vat_of, apply_fee_formula}
use ghalla.Engine.Gateway.{
  rule_matches, specificity, best_rule, scheme_candidates, costliest_from, costliest, rule_of_leg,
  price_leg, price_legs, total_legs, fees_of_order, compute_gateway_fees,
}
use ghalla.Engine.Lines.{
  add_shares, spread_over, spread_each, spread_parcels, allocate_amounts, profit_line,
  allocate_order_costs_to_lines,
}
use ghalla.Engine.Normalize.{
  insert_by, sort_by, check_header, fatal_diagnostics, normalize_and_validate,
}
use ghalla.Engine.Normalize.Checks.{
  check_items, check_reversal_lines, check_reversals, check_shipments, index_cost, index_costs,
}
use ghalla.Engine.Normalize.Fatal.{invalid_amounts}
use ghalla.Engine.Normalize.FeeRules.{
  fee_formula_is_valid, invalid_formulas, invalid_shipping, duplicate_keys, gateway_key, cod_key,
  shipping_key, validate_fee_rule_set,
}
use ghalla.Engine.Recognition.{compute_recognition}
use ghalla.Engine.Revenue.{
  unreflected, line_revenue_of, compute_line_revenue, discounts_of, expected_total,
  recognized_revenue, compute_revenue,
}
use ghalla.Engine.Reversal.{
  rto_goods_recovered, credit_whole_order, result_line, impact_of_tallies, compute_reversal_impact,
}
use ghalla.Engine.Reversal.Spread.{spread, absorb, spread_rounds, spread_capped_by_cogs}
use ghalla.Engine.Reversal.Steps.{
  reversal_lines, detailed_reversal, prorated_restock, undetailed_reversal, reversal_step,
  reversal_steps,
}
use ghalla.Engine.Rules.{pick_from, pick_best}
use ghalla.Engine.Shipping.{
  geography_matches, shipping_score, match_shipping_rule, outcome_of_leg, no_legs,
  compute_shipping_cost,
}
use ghalla.Money.{
  has_duplicate, row_of, before, insert_row, sort_rows, amount_of, share_of_row, allocate_minor,
  to_minor, to_bps, add_from, add_minor, sub_minor, negate_minor, round_half, div_round_half_away,
  mul_bps, clamp_minor, split_vat_inclusive, assert_in_range,
}
use ghalla.Base.Int.{pos, total_by}
use ghalla.Engine.Samples.{sample, one_day}
use ghalla.Engine.Expected.{sample_result}
use ghalla.Engine.Compute.Outcome.{computed}
use ghalla.Engine.Lines.Sum.{margin_of}
use ghalla.Engine.Compute.LineSum.{compute_order_profit-sum}
use ghalla.Engine.Compute.Totals.{
  compute_order_profit-margin, earned_less_spent, amounts_of, IsNone,
}

-- The whole engine on the sample, diagnostics, lines and totals included
sample_run : compute_order_profit one_day sample ≡ computed sample_result
unfolding has lookup insert erase digits_from half_even round_53 double_quotient floor_quotient
    ceil_quotient floor_mul_div ◌+ℤ◌ ◌-ℤ◌ ◌*ℤ◌ neg lt_wf eq_text lt_text is_exact_source take_digits
    take_char parse_date parse_instant parse_local_date is_leap_year is_real_date is_time_of_day
    is_instant is_local_date to_local_date days_from_civil epoch_millis business_date_of carriers_of
    cod_rule_for price_share cash_shares price_shares price_cod_legs compute_cod_cost product_key_of
    resolve_cost cost_line cost_lines compute_cogs compute_accepted compute_order_profit
    is_rankable_for_loss_maker margin_bps_of lines_of_order contribution_margin totals_of_order
    bases_of_order compute_terms derive_confidence precedes insert_diagnostic sort_diagnostics
    clamped_fee ex_vat_of vat_of apply_fee_formula rule_matches specificity best_rule
    scheme_candidates costliest_from costliest rule_of_leg price_leg price_legs total_legs
    fees_of_order compute_gateway_fees add_shares spread_over spread_each spread_parcels
    allocate_amounts profit_line allocate_order_costs_to_lines insert_by sort_by check_header
    fatal_diagnostics normalize_and_validate check_items check_reversal_lines check_reversals
    check_shipments index_cost index_costs invalid_amounts fee_formula_is_valid invalid_formulas
    invalid_shipping duplicate_keys gateway_key cod_key shipping_key validate_fee_rule_set
    compute_recognition unreflected line_revenue_of compute_line_revenue discounts_of expected_total
    recognized_revenue compute_revenue rto_goods_recovered credit_whole_order result_line
    impact_of_tallies compute_reversal_impact spread absorb spread_rounds spread_capped_by_cogs
    reversal_lines detailed_reversal prorated_restock undetailed_reversal reversal_step
    reversal_steps pick_from pick_best geography_matches shipping_score match_shipping_rule
    outcome_of_leg no_legs compute_shipping_cost has_duplicate row_of before insert_row sort_rows
    amount_of share_of_row allocate_minor to_minor to_bps add_from add_minor sub_minor negate_minor
    round_half div_round_half_away mul_bps clamp_minor split_vat_inclusive assert_in_range
sample_run = refl

compute_order_profit-sum_example : total_by margin_of sample_result.lines ≡ pos 241
compute_order_profit-sum_example = compute_order_profit-sum one_day sample refl sample_run refl

compute_order_profit-margin_example :
    (pos 241 ≡ earned_less_spent sample_result.totals)
    × All (IsNone false) (amounts_of sample_result.totals)
compute_order_profit-margin_example = compute_order_profit-margin one_day sample sample_run
