-- ===== src/Persistence/CostTests.antt =====
-- Runs of the cost history.
use ghalla.Base.{ℕ, ◌≡◌, refl, List, [], ◌∷◌, none, some, filter, arith}
use ghalla.Base.Int.{ℤ, pos}
use ghalla.Base.Text.{Text, lit, eq_text}
use ghalla.Contracts.Enums.{CostSource}
use ghalla.Money.{to_minor}
use ghalla.Money.Decimal.{
  to_minor_from_decimal, trim_start, trim_end, match_decimal, match_unsigned, span_digits,
  minor_of_match, pad_end, drop, digits_value,
}
use ghalla.Persistence.MoneyColumn.{minor_to_numeric, numeric_to_minor}
use ghalla.Persistence.CostHistory.{
  CostEntry, Window, ProductKeyRef, resolve_as_of, record_cost, close_open, cost_row, recorded,
  backdated,
}
use ghalla.Persistence.CostHistory.Past.{record_cost-keeps_past}
use ghalla.Persistence.CostHistory.Windows.{AreChained}
use ghalla.Persistence.CostHistory.Chain.{record_cost-AreChained, record_cost-takes_over, in_force}

abbrev entry : Text → ℤ → ℕ → CostEntry
entry id cost from = record {
  id = id;
  store_id = lit "store";
  platform_product_id = lit "p1";
  platform_variant_id = none;
  sku = some (lit "sku-1");
  unit_cost_minor = cost;
  source = CostSource.merchant_manual;
  effective_from = from;
  note = none;
}

abbrev may : CostEntry
may = entry (lit "c1") (pos 1250) 100

abbrev july : CostEntry
july = entry (lit "c2") (pos 1400) 200

abbrev table : List Window
table = (cost_row may (lit "12.50"), none) ∷ []

abbrev corrected : List Window
corrected = (cost_row july (lit "14.00"), none) ∷ (cost_row may (lit "12.50"), some 200) ∷ []

may_recorded : record_cost minor_to_numeric [] may ≡ recorded table
unfolding record_cost minor_to_numeric numeric_to_minor to_minor_from_decimal to_minor trim_start
    trim_end match_decimal match_unsigned span_digits minor_of_match pad_end drop digits_value
    close_open
may_recorded = refl

july_recorded : record_cost minor_to_numeric table july ≡ recorded corrected
unfolding record_cost minor_to_numeric numeric_to_minor to_minor_from_decimal to_minor trim_start
    trim_end match_decimal match_unsigned span_digits minor_of_match pad_end drop digits_value
    close_open eq_text
july_recorded = refl

back_run : record_cost minor_to_numeric table (entry (lit "c3") (pos 1) 50) ≡ backdated 100
unfolding record_cost eq_text
back_run = refl

abbrev wanted : List ProductKeyRef
wanted = record { platform_product_id = lit "p1"; platform_variant_id = none; sku = none } ∷ []

record_cost-keeps_past_example :
    resolve_as_of (λ rows. rows) corrected (lit "store") wanted 150
    ≡ resolve_as_of (λ rows. rows) table (lit "store") wanted 150
record_cost-keeps_past_example =
    record_cost-keeps_past minor_to_numeric (λ rows. rows) table july (lit "store") wanted 150
      (omega arith) july_recorded

table-AreChained : AreChained table
table-AreChained = record_cost-AreChained minor_to_numeric [] may may_recorded (λ e. tt)

record_cost-takes_over_example :
    (cost : Text) × (filter (in_force july 250) corrected ≡ (cost_row july cost, none) ∷ [])
record_cost-takes_over_example =
    record_cost-takes_over minor_to_numeric table july 250 july_recorded table-AreChained
      (omega arith)
