-- ===== src/Engine/Cod.antt =====
-- packages/core/src/engine/cod.ts: the courier's cash-handling charge.
use ghalla.Base.{
  ℕ, suc, Bool, true, false, ◌&&◌, List, [], ◌∷◌, ◌++◌, map, Option, none, some, if◌then◌else◌,
  filter, any, is_empty, is_some,
}
use ghalla.Base.Int.{ℤ, pos}
use ghalla.Base.Text.{Text, fits_text, sort_texts}
use ghalla.Base.Dict.{Dict, dedupe_from}
use ghalla.Base.Result.{Result, ok, ◌>>=◌}
use ghalla.Money.{add_minor, allocate_minor}
use ghalla.Contracts.Enums.{ShipmentDirection, is_live, eq_direction, is_captured, is_cod}
use ghalla.Contracts.Canonical.{CanonicalOrder, CanonicalShipment, PaymentBreakdown}
use ghalla.Engine.Input.{CodFeeRule, FeeSource, TermBasis, is_missing, is_estimated}
use ghalla.Engine.Diagnostics.{Diagnostic, DiagnosticCode, Computed, diagnostic, on_payment}
use ghalla.Engine.Fee.{apply_fee_formula, basis_of_fee_source}
use ghalla.Engine.Gateway.{FeeTotals}
use ghalla.Engine.Rules.{pick_best}

abbrev pub is_cod_leg : PaymentBreakdown → Bool
is_cod_leg p = is_cod p.instrument && is_captured p.state

-- The couriers of the live outbound shipments, each once, in order.
unfoldable pub carriers_of : List CanonicalShipment → List Text
carriers_of shipments = sort_texts (
    dedupe_from [] (
      map (λ s. s.carrier)
        (filter (λ s. eq_direction s.direction ShipmentDirection.outbound && is_live s.status)
          shipments)))

unfoldable pub cod_rule_for : List CodFeeRule → Option Text → Option CodFeeRule
cod_rule_for rules carrier =
    pick_best (λ r. fits_text r.carrier carrier) (λ r. if is_some r.carrier then 1 else 0) rules

pub record CodShare : Type 0 where
  pub ex_vat : ℤ
  pub vat : ℤ
  pub cost : ℤ
  pub basis : TermBasis
  pub notes : List Diagnostic

abbrev is_default_table : FeeSource → Bool
is_default_table FeeSource.default_table = true
is_default_table _ = false

unfoldable pub price_share : Bool → ℕ → ℤ → Option CodFeeRule → Result CodShare
price_share vat_registered index amount none = ok (record {
  ex_vat = pos 0;
  vat = pos 0;
  cost = pos 0;
  basis = TermBasis.missing;
  notes = diagnostic DiagnosticCode.cod_fee_rule_missing (on_payment index) ∷ [];
})
price_share vat_registered index amount (some r) =
    apply_fee_formula amount r.formula vat_registered >>= λ fee. ok (record {
      ex_vat = fee.ex_vat_minor;
      vat = fee.vat_minor;
      cost = fee.cost_minor;
      basis = basis_of_fee_source r.formula.source;
      notes =
          if is_default_table r.formula.source
          then diagnostic DiagnosticCode.fee_rule_default_used (on_payment index) ∷ []
          else [];
    })

-- The collected cash by courier: evenly over several couriers, whole otherwise.
unfoldable pub cash_shares : ℤ → List Text → Result (Dict ℤ)
cash_shares amount [] = ok (([], amount) ∷ [])
cash_shares amount (c ∷ []) = ok ((c, amount) ∷ [])
cash_shares amount (c ∷ d ∷ cs) =
    allocate_minor amount (map (λ k. record { key = k; weight = pos 0 }) (c ∷ d ∷ cs))

-- `ruleFor` is asked for `null` where there is no courier.
abbrev carrier_key : List Text → Text → Option Text
carrier_key [] c = none
carrier_key (d ∷ ds) c = some c

module _ (rules : List CodFeeRule) (vat_registered : Bool) (carriers : List Text) where
  unfoldable pub price_shares : ℕ → Dict ℤ → Result (List CodShare)
  price_shares index [] = ok []
  price_shares index (e ∷ es) =
      price_share vat_registered index e.1 (cod_rule_for rules (carrier_key carriers e.0)) >>= λ s.
      price_shares index es >>= λ ss. ok (s ∷ ss)

  unfoldable pub price_cod_legs : ℕ → List PaymentBreakdown → Result (List CodShare)
  price_cod_legs index [] = ok []
  price_cod_legs index (p ∷ ps) =
      let rest = price_cod_legs (suc index) ps in
      if is_cod_leg p
      then (cash_shares p.amount_gross_minor carriers >>= λ shares.
          price_shares index shares >>= λ priced. rest >>= λ others. ok (priced ++ others))
      else rest

abbrev cod_notes : List CodShare → List Diagnostic
cod_notes [] = []
cod_notes (s ∷ ss) = s.notes ++ cod_notes ss

unfoldable pub compute_cod_cost :
    CanonicalOrder → List CanonicalShipment → List CodFeeRule → Bool → Result (Computed FeeTotals)
compute_cod_cost o shipments rules vat_registered =
    if is_empty (filter is_cod_leg o.payments)
    then ok (record {
      value = record {
        ex_vat_minor = pos 0;
        vat_minor = pos 0;
        cost_minor = pos 0;
        basis = TermBasis.not_applicable;
      };
      diagnostics = [];
    })
    else (do
      applied ← price_cod_legs rules vat_registered (carriers_of shipments) 0 o.payments
      ex_vat ← add_minor (map (λ s. s.ex_vat) applied)
      vat ← add_minor (map (λ s. s.vat) applied)
      cost ← add_minor (map (λ s. s.cost) applied)
      ok (record {
        value = record {
          ex_vat_minor = ex_vat;
          vat_minor = vat;
          cost_minor = cost;
          basis =
              if any (λ s. is_missing s.basis) applied
              then TermBasis.missing
              else if any (λ s. is_estimated s.basis) applied
              then TermBasis.estimated
              else TermBasis.actual;
        };
        diagnostics = cod_notes applied;
      }))
