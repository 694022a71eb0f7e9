-- ===== src/Engine/RuleTests.antt =====
-- Runs of the fee rules and of one line of a reversal.
use ghalla.Base.{◌≡◌, refl, true, false, [], ◌∷◌, none, some, arith}
use ghalla.Base.Int.{ℤ, pos, negsuc, ◌+ℤ◌, ◌-ℤ◌, ◌*ℤ◌, neg, ◌≤ℤ◌}
use ghalla.Base.Text.{lit, eq_text}
use ghalla.Base.Dict.{Dict, lookup}
use ghalla.Base.Result.{ok}
use ghalla.Money.{
  to_minor, add_from, add_minor, sub_minor, negate_minor, round_half, div_round_half_away, mul_bps,
  clamp_minor, split_vat_inclusive, assert_in_range,
}
use ghalla.Contracts.Enums.{CardScheme, PaymentInstrument, CostSource}
use ghalla.Engine.Input.{GatewayFeeRule}
use ghalla.Engine.Samples.{card_fee}
use ghalla.Engine.Expected.{sample_fee}
use ghalla.Engine.Fee.{AppliedFee, apply_fee_formula, clamped_fee, ex_vat_of, vat_of}
use ghalla.Engine.Gateway.{costliest, costliest_from}
use ghalla.Engine.Revenue.{LineRevenue}
use ghalla.Engine.Cogs.{LineCogs}
use ghalla.Engine.Reversal.{LineReversal, result_line}
use ghalla.Engine.Reversal.Totals.{Tallies}
use ghalla.Engine.Reversal.Impact.{result_line-bounded}

abbrev card_rule : CardScheme → ℤ → GatewayFeeRule
card_rule scheme percent = record {
  formula = record card_fee { percent_bps = percent };
  instrument = some PaymentInstrument.card;
  scheme = some scheme;
  provider = none;
}

abbrev mada : GatewayFeeRule
mada = card_rule CardScheme.mada (pos 100)

abbrev visa : GatewayFeeRule
visa = card_rule CardScheme.visa (pos 250)

abbrev mada_fee : AppliedFee
mada_fee = record { ex_vat_minor = pos 103; vat_minor = pos 15; cost_minor = pos 103 }

mada_run : apply_fee_formula (pos 1755) mada.formula true ≡ ok mada_fee
unfolding ◌+ℤ◌ ◌-ℤ◌ ◌*ℤ◌ neg to_minor add_from add_minor sub_minor round_half div_round_half_away
    mul_bps clamp_minor split_vat_inclusive clamped_fee ex_vat_of vat_of apply_fee_formula
mada_run = refl

visa_run : apply_fee_formula (pos 1755) visa.formula true ≡ ok sample_fee
unfolding ◌+ℤ◌ ◌-ℤ◌ ◌*ℤ◌ neg to_minor add_from add_minor sub_minor round_half div_round_half_away
    mul_bps clamp_minor split_vat_inclusive clamped_fee ex_vat_of vat_of apply_fee_formula
visa_run = refl

costliest_run : costliest (pos 1755) true (mada ∷ visa ∷ []) ≡ ok (some visa)
unfolding costliest costliest_from
costliest_run = rw (visa_run, mada_run) refl

abbrev one_line : LineRevenue
one_line = record {
  order_item_id = lit "a";
  gross_ex_vat_minor = pos 500;
  allocated_order_discount_ex_vat_minor = pos 0;
  net_ex_vat_minor = pos 500;
}

abbrev one_cost : Dict LineCogs
one_cost =
    (
      lit "a",
      record {
        order_item_id = lit "a";
        unit_cost_minor = pos 200;
        cogs_minor = pos 200;
        source = CostSource.merchant_manual;
        cost_history_id = none;
        covered = true;
      },
    )
    ∷ []

-- More was restocked than the line had.
abbrev over_restocked : Tallies
over_restocked = record {
  reversed_revenue = (lit "a", pos 500) ∷ [];
  reversed_qty = (lit "a", pos 1) ∷ [];
  restocked = (lit "a", pos 260) ∷ [];
  allocated = false;
  notes = [];
}

abbrev bounded_line : LineReversal
bounded_line = record {
  order_item_id = lit "a";
  reversed_quantity = pos 1;
  reversed_revenue_ex_vat_minor = pos 500;
  restocked_cogs_minor = pos 200;
  impact_minor = negsuc 299;
}

line_run :
    result_line true over_restocked one_cost ((lit "a", pos 1) ∷ []) one_line ≡ ok bounded_line
unfolding result_line lookup eq_text assert_in_range to_minor negate_minor add_minor add_from neg
    ◌+ℤ◌
line_run = refl

result_line-bounded_example :
    (pos 0 ≤ℤ pos 200) × (pos 200 ≤ℤ pos 200) × (negsuc 299 ≡ pos 200 -ℤ pos 500)
unfolding lookup eq_text
result_line-bounded_example =
    result_line-bounded true over_restocked one_cost ((lit "a", pos 1) ∷ []) one_line line_run
      (omega arith)
