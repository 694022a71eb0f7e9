-- ===== src/Engine/Confidence.antt =====
-- packages/core/src/engine/confidence.ts, with `ProfitConfidence` of confidence.ts.
pub mod Grade
use ghalla.Base.{Bool, true, false, not, ◌&&◌, ◌||◌, List, [], ◌∷◌, if◌then◌else◌, any, all}
use ghalla.Engine.Input.{TermBasis, is_missing, is_settled}
use ghalla.Engine.Diagnostics.{Diagnostic, DiagnosticCode, has_code}

pub data RevenueConfidence : Type 0 where
  reported unreconciled : RevenueConfidence

pub data ReversalConfidence : Type 0 where
  reported allocated not_applicable : ReversalConfidence

pub data Level : Type 0 where
  exact estimated incomplete : Level

pub record TermBases : Type 0 where
  pub reconciles : Bool
  pub cogs : TermBasis
  pub outbound_shipping : TermBasis
  pub return_shipping : TermBasis
  pub gateway_fee : TermBasis
  pub cod_cost : TermBasis
  pub reversal : ReversalConfidence

pub record ProfitConfidence : Type 0 where
  pub revenue : RevenueConfidence
  pub cogs : TermBasis
  pub outbound_shipping : TermBasis
  pub return_shipping : TermBasis
  pub gateway_fee : TermBasis
  pub cod_cost : TermBasis
  pub reversal : ReversalConfidence
  pub level : Level

-- The `worse` of the code
abbrev worse : TermBasis → TermBasis → TermBasis
worse basis floor = if is_settled basis then floor else basis

abbrev pub is_allocated : ReversalConfidence → Bool
is_allocated ReversalConfidence.allocated = true
is_allocated _ = false

abbrev pub is_unreconciled : RevenueConfidence → Bool
is_unreconciled RevenueConfidence.unreconciled = true
is_unreconciled RevenueConfidence.reported = false

abbrev level_of : Bool → Bool → Bool → Level
level_of a_gap all_settled spread =
    if a_gap
    then Level.incomplete
    else if all_settled && not spread
    then Level.exact
    else Level.estimated

unfoldable pub derive_confidence : TermBases → List Diagnostic → ProfitConfidence
derive_confidence t ds =
    let cogs =
      if has_code DiagnosticCode.restock_unknown ds
      then worse t.cogs TermBasis.estimated
      else t.cogs in
    let reversal =
      if has_code DiagnosticCode.reversal_line_unmatched ds
        || has_code DiagnosticCode.reversal_total_mismatch ds
      then ReversalConfidence.allocated
      else t.reversal in
    let bases = cogs ∷ t.outbound_shipping ∷ t.return_shipping ∷ t.gateway_fee ∷ t.cod_cost ∷ [] in
    let revenue =
      if t.reconciles && not (has_code DiagnosticCode.order_has_no_items ds)
      then RevenueConfidence.reported
      else RevenueConfidence.unreconciled in
    record {
      revenue = revenue;
      cogs = cogs;
      outbound_shipping = t.outbound_shipping;
      return_shipping = t.return_shipping;
      gateway_fee = t.gateway_fee;
      cod_cost = t.cod_cost;
      reversal = reversal;
      level =
          level_of (any is_missing bases || is_unreconciled revenue) (all is_settled bases)
            (is_allocated reversal);
    }
