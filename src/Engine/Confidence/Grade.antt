-- ===== src/Engine/Confidence/Grade.antt =====
-- packages/core/src/engine/confidence.ts: what each level of confidence says of the parts.
use ghalla.Base.{true, not, ◌&&◌, ◌||◌, ◌≡◌, List, [], ◌∷◌, ◌↔◌, arith, any, all}
use ghalla.Engine.Input.{TermBasis, is_missing, is_settled}
use ghalla.Engine.Diagnostics.{Diagnostic, DiagnosticCode, has_code}
use ghalla.Engine.Confidence.{
  TermBases, ProfitConfidence, Level, derive_confidence, is_allocated, is_unreconciled,
}

-- The bases that a confidence shows.
abbrev pub bases_of : ProfitConfidence → List TermBasis
bases_of c = c.cogs ∷ c.outbound_shipping ∷ c.return_shipping ∷ c.gateway_fee ∷ c.cod_cost ∷ []

-- The bases that the terms of an order give
abbrev pub bases_in : TermBases → List TermBasis
bases_in t = t.cogs ∷ t.outbound_shipping ∷ t.return_shipping ∷ t.gateway_fee ∷ t.cod_cost ∷ []

-- The level is incomplete exactly where a term of the order has no basis, the totals of the order do
-- not reconcile, or the order has no items.
pub incomplete_iff :
    (t : TermBases) (ds : List Diagnostic)
    → (((derive_confidence t ds).level ≡ Level.incomplete) ↔ (
        (any is_missing (bases_in t)
          || not t.reconciles
          || has_code DiagnosticCode.order_has_no_items ds)
        ≡ true))
unfolding derive_confidence
incomplete_iff t ds = ground arith

-- The level is exact exactly where no part is missing or estimated, the revenue reconciles, and no
-- reversal had to be allocated.
exact_iff :
    (t : TermBases) (ds : List Diagnostic)
    → (((derive_confidence t ds).level ≡ Level.exact) ↔ (
        (all is_settled (bases_of (derive_confidence t ds))
          && not (is_unreconciled (derive_confidence t ds).revenue)
          && not (is_allocated (derive_confidence t ds).reversal))
        ≡ true))
unfolding derive_confidence
exact_iff t ds = ground arith
