-- ===== src/Engine/Fee/Parts.antt =====
-- packages/core/src/engine/fee.ts: how the parts of a fee add up.
use ghalla.Base.{subst, Bool, true, false, ◌≡◌, [], ◌∷◌, ap, some, if◌then◌else◌, sym, ◌∙◌}
use ghalla.Base.Int.{ℤ, ◌+ℤ◌, ◌-ℤ◌, ◌≤ℤ◌, int_laws}
use ghalla.Base.Result.{ok, >>=-eq-ok, ok-injective}
use ghalla.Money.{add_minor, mul_bps}
use ghalla.Money.Exact.{add_minor-ok, sub_minor-ok, clamp_minor-ok}
use ghalla.Engine.Input.{FeeFormula}
use ghalla.Engine.Fee.{AppliedFee, clamped_fee, ex_vat_of, vat_of, apply_fee_formula}

cost_ok :
    (v : Bool) (x y : ℤ) {c : ℤ}
    → (if v then ok x else add_minor (x ∷ y ∷ [])) ≡ ok c
    → c ≡ (if v then x else x +ℤ y)
cost_ok true x y h = sym (ok-injective h)
cost_ok false x y h = (add_minor-ok (x ∷ y ∷ []) h).0 ∙ omega int_laws

vat_ok :
    (f : FeeFormula) (clamped x : ℤ) {y : ℤ}
    → f.rates_include_vat ≡ true
    → vat_of clamped x f ≡ ok y
    → y ≡ clamped -ℤ x
unfolding vat_of
vat_ok f clamped x incl h = (sub_minor-ok clamped x (rw incl at h)).0

fee_parts :
    (base : ℤ) (f : FeeFormula) (registered : Bool) {fee : AppliedFee}
    → apply_fee_formula base f registered ≡ ok fee
    → (clamped : ℤ) × (clamped_fee base f ≡ ok clamped)
      × (vat_of clamped fee.ex_vat_minor f ≡ ok fee.vat_minor)
      × (fee.cost_minor
          ≡ (if registered then fee.ex_vat_minor else fee.ex_vat_minor +ℤ fee.vat_minor))
unfolding apply_fee_formula
fee_parts base f registered {fee} h =
    let (clamped, c, h1) = >>=-eq-ok (clamped_fee base f) _ h in
    let (x, e, h2) = >>=-eq-ok (ex_vat_of clamped f) _ h1 in
    let (y, v, h3) = >>=-eq-ok (vat_of clamped x f) _ h2 in
    let (cost, k, h4) = >>=-eq-ok (if registered then ok x else add_minor (x ∷ y ∷ [])) _ h3 in
    let (vat, price) =
      subst
        (λ (r : AppliedFee).
          (vat_of clamped r.ex_vat_minor f ≡ ok r.vat_minor)
          × (r.cost_minor ≡ (if registered then r.ex_vat_minor else r.ex_vat_minor +ℤ r.vat_minor)))
        (ok-injective {b = fee} h4) (v, cost_ok registered x y k) in
    (clamped, c, vat, price)

-- A store that recovers VAT bears a fee without its VAT, and any other store bears both parts.
apply_fee_formula-cost :
    (base : ℤ) (f : FeeFormula) (registered : Bool) {fee : AppliedFee}
    → apply_fee_formula base f registered ≡ ok fee
    → fee.cost_minor ≡ (if registered then fee.ex_vat_minor else fee.ex_vat_minor +ℤ fee.vat_minor)
apply_fee_formula-cost base f registered h =
    let (clamped, c, v, cost) = fee_parts base f registered h in cost

-- Where the rate of a fee includes VAT, the part without VAT and the VAT add up to the clamped
-- amount exactly, with no unit lost to rounding.
apply_fee_formula-vat :
    (base : ℤ) (f : FeeFormula) (registered : Bool) {fee : AppliedFee}
    → f.rates_include_vat ≡ true
    → apply_fee_formula base f registered ≡ ok fee
    → clamped_fee base f ≡ ok (fee.ex_vat_minor +ℤ fee.vat_minor)
apply_fee_formula-vat base f registered {fee} incl h =
    let (clamped, c, v, cost) = fee_parts base f registered h in
    c ∙ ap ok (rw (vat_ok f clamped fee.ex_vat_minor incl v) (omega int_laws))

-- Where the fee formula has both a floor and a cap, with the floor no higher, the amount that is
-- charged before VAT is separated lies between them.
clamped_fee-between :
    (base : ℤ) (f : FeeFormula) (lo hi : ℤ) {clamped : ℤ}
    → f.min_fee_minor ≡ some lo
    → f.max_fee_minor ≡ some hi
    → lo ≤ℤ hi
    → clamped_fee base f ≡ ok clamped
    → (lo ≤ℤ clamped) × (clamped ≤ℤ hi)
unfolding clamped_fee
clamped_fee-between base f lo hi el eh ordered h =
    let (percent, p, h1) = >>=-eq-ok (mul_bps base f.percent_bps) _ h in
    let (raw, r, h2) = >>=-eq-ok (add_minor (percent ∷ f.fixed_minor ∷ [])) _ h1 in
    let (below, above) = clamp_minor-ok raw lo hi (rw (el, eh) at h2) in (above ordered, below)
