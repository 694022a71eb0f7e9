-- ===== src/Engine/Normalize/FeeRules.antt =====
-- packages/core/src/engine/normalize.ts: `validateFeeRuleSet` and the keys of the rules.
use ghalla.Base.{
  Bool, true, false, not, ◌&&◌, List, [], ◌∷◌, ◌++◌, map, Option, none, some, or_else,
}
use ghalla.Base.Int.{ℤ, pos, ltb_ℤ}
use ghalla.Base.Text.{Text, lit}
use ghalla.Base.Dict.{has}
use ghalla.Money.{is_safe_integer}
use ghalla.Contracts.Enums.{PaymentInstrument, CardScheme, ShipmentDirection}
use ghalla.Engine.Input.{FeeFormula, GatewayFeeRule, CodFeeRule, ShippingFallbackRule, FeeRuleSet}
use ghalla.Engine.Diagnostics.{Diagnostic, DiagnosticCode, order_diagnostic}
use ghalla.Engine.Normalize.Fatal.{fatal_if, is_negative, is_amount}

abbrev is_bound : Option ℤ → Bool
is_bound none = true
is_bound (some v) = is_amount v

abbrev crossed : Option ℤ → Option ℤ → Bool
crossed (some lo) (some hi) = ltb_ℤ hi lo
crossed _ _ = false

unfoldable pub fee_formula_is_valid : FeeFormula → Bool
fee_formula_is_valid f =
    is_safe_integer f.percent_bps
    && not (is_negative f.percent_bps)
    && is_safe_integer f.fee_vat_bps
    && not (is_negative f.fee_vat_bps)
    && not (ltb_ℤ (pos 10_000) f.fee_vat_bps)
    && is_amount f.fixed_minor
    && is_bound f.min_fee_minor
    && is_bound f.max_fee_minor
    && not (crossed f.min_fee_minor f.max_fee_minor)

unfoldable pub invalid_formulas : List FeeFormula → List Diagnostic
invalid_formulas [] = []
invalid_formulas (f ∷ fs) =
    fatal_if (not (fee_formula_is_valid f)) (order_diagnostic DiagnosticCode.fee_rule_invalid)
    ++ invalid_formulas fs

unfoldable pub invalid_shipping : List ShippingFallbackRule → List Diagnostic
invalid_shipping [] = []
invalid_shipping (r ∷ rs) =
    fatal_if (not (is_amount r.cost_minor)) (order_diagnostic DiagnosticCode.fee_rule_invalid)
    ++ invalid_shipping rs

-- `if (keys.has(key)) fatal.push(…); keys.add(key)`, along a list of keys
unfoldable pub duplicate_keys : Diagnostic → List Text → List Text → List Diagnostic
duplicate_keys d seen [] = []
duplicate_keys d seen (k ∷ ks) = fatal_if (has k seen) d ++ duplicate_keys d (k ∷ seen) ks

abbrev instrument_name : Option PaymentInstrument → Text
instrument_name none = []
instrument_name (some PaymentInstrument.card) = lit "card"
instrument_name (some PaymentInstrument.bnpl) = lit "bnpl"
instrument_name (some PaymentInstrument.wallet) = lit "wallet"
instrument_name (some PaymentInstrument.cod) = lit "cod"
instrument_name (some PaymentInstrument.bank_transfer) = lit "bank_transfer"
instrument_name (some PaymentInstrument.free) = lit "free"
instrument_name (some PaymentInstrument.unknown) = lit "unknown"
instrument_name (some PaymentInstrument.other) = lit "other"

abbrev scheme_name : Option CardScheme → Text
scheme_name none = []
scheme_name (some CardScheme.mada) = lit "mada"
scheme_name (some CardScheme.visa) = lit "visa"
scheme_name (some CardScheme.mastercard) = lit "mastercard"
scheme_name (some CardScheme.amex) = lit "amex"
scheme_name (some CardScheme.unionpay) = lit "unionpay"
scheme_name (some CardScheme.other) = lit "other"
scheme_name (some CardScheme.unknown) = lit "unknown"

abbrev direction_name : Option ShipmentDirection → Text
direction_name none = lit "any"
direction_name (some ShipmentDirection.outbound) = lit "outbound"
direction_name (some ShipmentDirection.return_leg) = lit "return"

-- Fields with `|` between them
abbrev pub joined : List Text → Text
joined [] = []
joined (t ∷ []) = t
joined (t ∷ u ∷ ts) = t ++ (lit "|" ++ joined (u ∷ ts))

unfoldable pub gateway_key : GatewayFeeRule → Text
gateway_key r =
    joined (instrument_name r.instrument ∷ scheme_name r.scheme ∷ or_else r.provider [] ∷ [])

unfoldable pub cod_key : CodFeeRule → Text
cod_key r = or_else r.carrier []

unfoldable pub shipping_key : ShippingFallbackRule → Text
shipping_key r = joined (
    or_else r.country_code []
    ∷ or_else r.region []
    ∷ or_else r.carrier []
    ∷ direction_name r.direction
    ∷ [])

unfoldable pub validate_fee_rule_set : FeeRuleSet → List Diagnostic
validate_fee_rule_set s =
    let twice = order_diagnostic DiagnosticCode.duplicate_rule_key in
    invalid_formulas (map (λ r. r.formula) s.gateway ++ map (λ r. r.formula) s.cod)
    ++ (invalid_shipping s.shipping_fallback
        ++ (duplicate_keys twice [] (map gateway_key s.gateway)
            ++ (duplicate_keys twice [] (map cod_key s.cod)
                ++ duplicate_keys twice [] (map shipping_key s.shipping_fallback))))
