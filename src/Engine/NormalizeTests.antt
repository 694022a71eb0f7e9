-- ===== src/Engine/NormalizeTests.antt =====
-- Runs of the validation on the order of Samples.
use ghalla.Base.{◌≡◌, refl, false, [], ◌∷◌, All}
use ghalla.Base.Int.{pos}
use ghalla.Base.Text.{lit, eq_text, lt_text}
use ghalla.Base.Dict.{has, lookup, insert}
use ghalla.Money.{has_duplicate}
use ghalla.Contracts.Time.{is_instant}
use ghalla.Engine.Samples.{
  sample, sample_order, sample_items, sample_shipments, sample_reversals, sample_cost,
}
use ghalla.Engine.Cogs.{product_key_of}
use ghalla.Engine.Normalize.{
  NormalizedInput, accepted, normalize_and_validate, fatal_diagnostics, check_header, sort_by,
  insert_by,
}
use ghalla.Engine.Normalize.Fatal.{invalid_amounts}
use ghalla.Engine.Normalize.FeeRules.{
  validate_fee_rule_set, fee_formula_is_valid, invalid_formulas, invalid_shipping, duplicate_keys,
  gateway_key, cod_key, shipping_key,
}
use ghalla.Engine.Normalize.Checks.{
  check_items, check_reversals, check_reversal_lines, check_shipments, index_costs, index_cost,
}
use ghalla.Engine.Normalize.Accepted.{normalize_and_validate-items, IsItemOf}

abbrev normalized_sample : NormalizedInput
normalized_sample = record {
  order = sample_order;
  items = sample_items;
  shipments = sample_shipments;
  reversals = sample_reversals;
  costs = record {
    by_product_key =
        (lit "a|", sample_cost (lit "a") (pos 400))
        ∷ (lit "b|", sample_cost (lit "b") (pos 200))
        ∷ [];
    by_sku = [];
  };
}

normalize_run : normalize_and_validate sample ≡ accepted normalized_sample
unfolding eq_text lt_text has lookup insert is_instant product_key_of normalize_and_validate
    fatal_diagnostics check_header sort_by insert_by invalid_amounts validate_fee_rule_set
    fee_formula_is_valid invalid_formulas invalid_shipping duplicate_keys gateway_key cod_key
    shipping_key check_items check_reversals check_reversal_lines check_shipments index_costs
    index_cost
normalize_run = refl

normalize_and_validate-items_example :
    (has_duplicate [] (lit "a" ∷ lit "b" ∷ []) ≡ false)
    × (has_duplicate [] (lit "a" ∷ lit "b" ∷ []) ≡ false)
    × All (IsItemOf (lit "o")) sample_items
normalize_and_validate-items_example = normalize_and_validate-items sample normalize_run
