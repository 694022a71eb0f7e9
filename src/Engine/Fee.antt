-- ===== src/Engine/Fee.antt =====
-- packages/core/src/engine/fee.ts: the one formula of every fee-like cost.
pub mod Parts
use ghalla.Base.{Bool, [], ◌∷◌, if◌then◌else◌}
use ghalla.Base.Int.{ℤ}
use ghalla.Base.Result.{Result, ok, ◌>>=◌}
use ghalla.Money.{add_minor, sub_minor, mul_bps, clamp_minor, split_vat_inclusive}
use ghalla.Engine.Input.{FeeFormula, FeeSource, TermBasis}

pub record AppliedFee : Type 0 where
  pub ex_vat_minor : ℤ
  pub vat_minor : ℤ
  pub cost_minor : ℤ

-- What a fee is before its VAT is separated.
unfoldable pub clamped_fee : ℤ → FeeFormula → Result ℤ
clamped_fee base f = do
  percent ← mul_bps base f.percent_bps
  raw ← add_minor (percent ∷ f.fixed_minor ∷ [])
  clamp_minor raw f.min_fee_minor f.max_fee_minor

unfoldable pub ex_vat_of : ℤ → FeeFormula → Result ℤ
ex_vat_of clamped f =
    if f.rates_include_vat
    then (split_vat_inclusive clamped f.fee_vat_bps >>= λ s. ok s.net)
    else ok clamped

unfoldable pub vat_of : ℤ → ℤ → FeeFormula → Result ℤ
vat_of clamped ex_vat f =
    if f.rates_include_vat then sub_minor clamped ex_vat else mul_bps clamped f.fee_vat_bps

unfoldable pub apply_fee_formula : ℤ → FeeFormula → Bool → Result AppliedFee
apply_fee_formula base f vat_registered = do
  clamped ← clamped_fee base f
  ex_vat ← ex_vat_of clamped f
  vat ← vat_of clamped ex_vat f
  cost ← (if vat_registered then ok ex_vat else add_minor (ex_vat ∷ vat ∷ []))
  ok (record { ex_vat_minor = ex_vat; vat_minor = vat; cost_minor = cost })

abbrev pub basis_of_fee_source : FeeSource → TermBasis
basis_of_fee_source FeeSource.gateway_statement = TermBasis.actual
basis_of_fee_source _ = TermBasis.estimated
