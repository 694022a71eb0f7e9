-- ===== src/Engine/Gateway.antt =====
-- packages/core/src/engine/gateway.ts: processor fees, leg by captured leg.
pub mod Costliest
use ghalla.Base.{
  ℕ, suc, ◌+◌, Bool, true, false, not, ◌&&◌, ◌||◌, List, [], ◌∷◌, ◌++◌, map, Option, none, some,
  ◌==◌, if◌then◌else◌, filter, any, is_empty, is_none, is_some, max,
}
use ghalla.Base.Int.{ℤ, pos, ltb_ℤ}
use ghalla.Base.Text.{fits_text}
use ghalla.Base.Result.{Result, ok, ◌>>=◌}
use ghalla.Money.{add_minor}
use ghalla.Contracts.Enums.{
  PaymentState, PaymentInstrument, CardScheme, eq_instrument, eq_scheme, is_captured, is_cod,
}
use ghalla.Contracts.Canonical.{CanonicalOrder, PaymentBreakdown}
use ghalla.Engine.Input.{GatewayFeeRule, FeeSource, TermBasis, is_estimated}
use ghalla.Engine.Diagnostics.{
  Diagnostic, DiagnosticCode, Computed, diagnostic, order_diagnostic, on_payment,
}
use ghalla.Engine.Fee.{AppliedFee, apply_fee_formula, basis_of_fee_source}
use ghalla.Engine.Rules.{pick_best}

pub record FeeTotals : Type 0 where
  pub ex_vat_minor : ℤ
  pub vat_minor : ℤ
  pub cost_minor : ℤ
  pub basis : TermBasis

abbrev is_free : PaymentInstrument → Bool
is_free PaymentInstrument.free = true
is_free _ = false

abbrev is_paid : PaymentState → Bool
is_paid PaymentState.paid = true
is_paid _ = false

abbrev pub is_chargeable : PaymentBreakdown → Bool
is_chargeable p = is_captured p.state && not (is_cod p.instrument) && not (is_free p.instrument)

abbrev fits_instrument : Option PaymentInstrument → PaymentInstrument → Bool
fits_instrument none i = true
fits_instrument (some j) i = eq_instrument j i

abbrev fits_scheme : Option CardScheme → Option CardScheme → Bool
fits_scheme none s = true
fits_scheme (some t) s = eq_scheme (some t) s

unfoldable pub rule_matches : PaymentBreakdown → Option CardScheme → GatewayFeeRule → Bool
rule_matches p scheme r =
    fits_instrument r.instrument p.instrument
    && fits_scheme r.scheme scheme
    && fits_text r.provider p.provider

unfoldable pub specificity : GatewayFeeRule → ℕ
specificity r =
    (if is_some r.instrument then 4 else 0)
    + (if is_some r.scheme then 2 else 0)
    + (if is_some r.provider then 1 else 0)

unfoldable pub best_rule :
    List GatewayFeeRule → PaymentBreakdown → Option CardScheme → Option GatewayFeeRule
best_rule rules p scheme = pick_best (rule_matches p scheme) specificity rules

-- The rules that could price the leg whatever its scheme is.
abbrev is_eligible : PaymentBreakdown → GatewayFeeRule → Bool
is_eligible p r = fits_instrument r.instrument p.instrument && fits_text r.provider p.provider

-- `Math.max` over the specificities
abbrev pub top_specificity : List GatewayFeeRule → ℕ
top_specificity [] = 0
top_specificity (r ∷ rules) = max (specificity r) (top_specificity rules)

unfoldable pub scheme_candidates : List GatewayFeeRule → PaymentBreakdown → List GatewayFeeRule
scheme_candidates rules p =
    let eligible = filter (is_eligible p) rules in
    filter (λ r. specificity r == top_specificity eligible) eligible

-- `reduce` from the first candidate: the one with the highest cost, the earliest of equals.
unfoldable pub costliest_from :
    ℤ → Bool → GatewayFeeRule → List GatewayFeeRule → Result GatewayFeeRule
costliest_from amount vat_registered worst [] = ok worst
costliest_from amount vat_registered worst (c ∷ cs) =
    apply_fee_formula amount c.formula vat_registered >>= λ fee.
    apply_fee_formula amount worst.formula vat_registered >>= λ held.
    costliest_from amount vat_registered (if ltb_ℤ held.cost_minor fee.cost_minor then c else worst)
      cs

unfoldable pub costliest : ℤ → Bool → List GatewayFeeRule → Result (Option GatewayFeeRule)
costliest amount vat_registered [] = ok none
costliest amount vat_registered (r ∷ rules) =
    costliest_from amount vat_registered r rules >>= λ w. ok (some w)

abbrev is_unknown_scheme : Option CardScheme → Bool
is_unknown_scheme none = true
is_unknown_scheme (some CardScheme.unknown) = true
is_unknown_scheme (some _) = false

abbrev is_card : PaymentInstrument → Bool
is_card PaymentInstrument.card = true
is_card _ = false

abbrev is_unnamed : PaymentInstrument → Bool
is_unnamed PaymentInstrument.unknown = true
is_unnamed PaymentInstrument.other = true
is_unnamed _ = false

abbrev pub scheme_unknown : PaymentBreakdown → Bool
scheme_unknown p = is_card p.instrument && is_unknown_scheme p.scheme

-- The rule for one leg.
unfoldable pub rule_of_leg :
    List GatewayFeeRule → Bool → PaymentBreakdown → Result (Option GatewayFeeRule)
rule_of_leg rules vat_registered p =
    if scheme_unknown p
    then costliest p.amount_gross_minor vat_registered (scheme_candidates rules p)
    else ok (best_rule rules p p.scheme)

abbrev is_default_table : FeeSource → Bool
is_default_table FeeSource.default_table = true
is_default_table _ = false

-- What one leg adds: its fee, if a rule was found, and how it was arrived at.
pub record LegFee : Type 0 where
  pub fee : Option AppliedFee
  pub basis : TermBasis
  pub notes : List Diagnostic

abbrev note_if : Bool → DiagnosticCode → ℕ → List Diagnostic
note_if true c index = diagnostic c (on_payment index) ∷ []
note_if false c index = []

abbrev leg_notes : PaymentBreakdown → ℕ → List Diagnostic
leg_notes p index =
    note_if (is_unnamed p.instrument) DiagnosticCode.unknown_payment_instrument index
    ++ note_if (scheme_unknown p) DiagnosticCode.card_scheme_unknown index

unfoldable pub price_leg : Bool → PaymentBreakdown → ℕ → Option GatewayFeeRule → Result LegFee
price_leg vat_registered p index none = ok (record {
  fee = none;
  basis = TermBasis.missing;
  notes = leg_notes p index ++ (diagnostic DiagnosticCode.fee_rule_missing (on_payment index) ∷ []);
})
price_leg vat_registered p index (some r) =
    apply_fee_formula p.amount_gross_minor r.formula vat_registered >>= λ fee. ok (record {
      fee = some fee;
      basis =
          if scheme_unknown p then TermBasis.estimated else basis_of_fee_source r.formula.source;
      notes =
          leg_notes p index
          ++ note_if (is_default_table r.formula.source) DiagnosticCode.fee_rule_default_used index;
    })

-- `payments.forEach`, over the legs that are chargeable
unfoldable pub price_legs :
    List GatewayFeeRule → Bool → ℕ → List PaymentBreakdown → Result (List LegFee)
price_legs rules vat_registered index [] = ok []
price_legs rules vat_registered index (p ∷ ps) =
    let rest = price_legs rules vat_registered (suc index) ps in
    if not (is_chargeable p)
    then rest
    else (rule_of_leg rules vat_registered p >>= λ rule.
        price_leg vat_registered p index rule >>= λ leg. rest >>= λ legs. ok (leg ∷ legs))

abbrev pub fees_of : List LegFee → List AppliedFee
fees_of [] = []
fees_of (l ∷ ls) = elim l.fee [ none ↦ fees_of ls | some f ↦ f ∷ fees_of ls ]

abbrev notes_of : List LegFee → List Diagnostic
notes_of [] = []
notes_of (l ∷ ls) = l.notes ++ notes_of ls

abbrev captured_amounts : List PaymentBreakdown → List ℤ
captured_amounts ps = map (λ p. p.amount_gross_minor) (filter (λ p. is_captured p.state) ps)

abbrev worst_basis : List LegFee → TermBasis
worst_basis legs =
    if any (λ l. is_estimated l.basis) legs then TermBasis.estimated else TermBasis.actual

abbrev no_fees : TermBasis → FeeTotals
no_fees basis = record {
  ex_vat_minor = pos 0;
  vat_minor = pos 0;
  cost_minor = pos 0;
  basis = basis;
}

-- The totals of the legs that were priced.
unfoldable pub total_legs : Bool → List Diagnostic → List LegFee → Result (Computed FeeTotals)
total_legs under_mapped warned legs = do
  ex_vat ← add_minor (map (λ f. f.ex_vat_minor) (fees_of legs))
  vat ← add_minor (map (λ f. f.vat_minor) (fees_of legs))
  cost ← add_minor (map (λ f. f.cost_minor) (fees_of legs))
  ok (record {
    value = record {
      ex_vat_minor = ex_vat;
      vat_minor = vat;
      cost_minor = cost;
      basis =
          if any (λ l. is_none l.fee) legs || under_mapped
          then TermBasis.missing
          else worst_basis legs;
    };
    diagnostics = warned ++ notes_of legs;
  })

-- The function behind its first check, of the captured legs against the order's total.
unfoldable pub fees_of_order :
    CanonicalOrder
    → List GatewayFeeRule
    → Bool
    → Bool
    → List Diagnostic
    → Result (Computed FeeTotals)
fees_of_order o rules vat_registered under_mapped warned =
    if is_empty (filter is_chargeable o.payments)
    then ok (record {
      value = no_fees (if under_mapped then TermBasis.missing else TermBasis.not_applicable);
      diagnostics = warned;
    })
    else (price_legs rules vat_registered 0 o.payments >>= total_legs under_mapped warned)

unfoldable pub compute_gateway_fees :
    CanonicalOrder → List GatewayFeeRule → Bool → Result (Computed FeeTotals)
compute_gateway_fees o rules vat_registered = do
  captured ← add_minor (captured_amounts o.payments)
  let under_mapped = is_paid o.payment_state && ltb_ℤ captured o.total_inc_vat_minor
  fees_of_order o rules vat_registered under_mapped
      (if under_mapped then order_diagnostic DiagnosticCode.payment_legs_under_total ∷ [] else [])
