-- ===== src/Money/Rounding.antt =====
-- Rounding in the money kernel: its direction, its error, and how it treats the sign.
use ghalla.Base.{
  ℕ, ◌+◌, ◌-◌, ◌*◌, ◌/◌, leb→le, leb-false→lt, div_bounds, zero, suc, ◌≤◌, ◌<◌, ◌≡◌, refl, Bool,
  true, false, not, arith, leb, inl, inr, ap, sym, ◌∙◌, Bool-cases,
}
use ghalla.Base.Int.{
  ℤ, pos, negsuc, ◌*ℤ◌, neg, abs, int_laws, neg_parts, neg_mul, neg-neg, ltb_ℤ, ◌+ℤ◌, ◌-ℤ◌,
  pos_part, neg_part,
}
use ghalla.Base.Result.{Result, ok, err, Result-cases, >>=-eq-ok, ok-injective, err-ne-ok}
use ghalla.Money.Kernel.{
  round_half, with_sign, div_round_half_away, mul_bps, to_minor, split_vat_inclusive, VatSplit,
  sub_minor,
}
use ghalla.Money.Exact.{sub_minor-ok}

-- The rounded quotient is nearest, and a half goes up.
pub round_half_nearest :
    (n d : ℕ)
    → 0 < d
    → (2 * n < 2 * (round_half n d * d) + d) × (2 * (round_half n d * d) ≤ 2 * n + d)
unfolding round_half
round_half_nearest n d h = elim (Bool-cases (leb d ((n - n / d * d) * 2))) [
  | inl up ↦ rw up (omega (arith, leb→le _ _ up, div_bounds n d h))
  | inr down ↦ rw down (omega (arith, leb-false→lt _ _ down, div_bounds n d h))
]

-- `map` of a sign change over a result
abbrev pub negated : Result ℤ → Result ℤ
negated (ok v) = ok (neg v)
negated (err e) = err e

pub round_half_zero : (d : ℕ) → 0 < d → round_half 0 d ≡ 0
round_half_zero d h = grind (arith, round_half_nearest 0 d h)

neg-with_sign : (b : Bool) (n : ℕ) → neg (with_sign b n) ≡ with_sign (not b) n
neg-with_sign true n = neg-neg (pos n)
neg-with_sign false n = refl

div_round_zero : (d : ℤ) → div_round_half_away (pos 0) d ≡ negated (div_round_half_away (pos 0) d)
unfolding div_round_half_away neg
div_round_zero d = ground (arith, round_half_zero (abs d))

-- Rounding is odd: the quotient of the opposite is the opposite of the quotient, errors included.
pub div_round_odd : (n d : ℤ) → div_round_half_away (neg n) d ≡ negated (div_round_half_away n d)
unfolding div_round_half_away neg
div_round_odd (pos zero) d = div_round_zero d
div_round_odd (pos (suc n)) d = ground (arith, neg-with_sign false (round_half (suc n) (abs d)))
div_round_odd (negsuc n) d = ground (arith, neg-with_sign true (round_half (suc n) (abs d)))

to_minor_odd : (v : ℤ) → to_minor (neg v) ≡ negated (to_minor v)
unfolding to_minor
to_minor_odd v = ground (arith, neg_parts v)

-- A percentage of the opposite amount is the opposite of the percentage.
mul_bps_odd : (v b : ℤ) → mul_bps (neg v) b ≡ negated (mul_bps v b)
unfolding mul_bps
mul_bps_odd v b = elim (Result-cases (div_round_half_away (v *ℤ b) (pos 10_000))) [
  | inl (q, e) ↦
      rw (neg_mul v b, div_round_odd (v *ℤ b) (pos 10_000), e) (ground (arith, to_minor_odd q))
  | inr (x, e) ↦ rw (neg_mul v b, div_round_odd (v *ℤ b) (pos 10_000), e) (ground arith)
]

-- A quotient that is returned is nearest to the exact one, a half away from zero.
div_round_nearest :
    (n d : ℤ) {q : ℤ}
    → div_round_half_away n d ≡ ok q
    → (2 * abs n < 2 * (abs q * abs d) + abs d) × (2 * (abs q * abs d) ≤ 2 * abs n + abs d)
unfolding div_round_half_away
div_round_nearest n d h =
    ground (arith, round_half_nearest (abs n) (abs d), neg_parts (pos (round_half (abs n) (abs d))))

-- Net and VAT are the two parts of the gross amount, exactly.
split_vat_exact :
    (gross rate : ℤ) {s : VatSplit} → split_vat_inclusive gross rate ≡ ok s → s.net +ℤ s.vat ≡ gross
unfolding split_vat_inclusive
split_vat_exact gross rate {s} h = elim (Bool-cases (ltb_ℤ rate (pos 0))) [
  | inl bad ↦ absurd (err-ne-ok (rw bad at h))
  | inr fine ↦
      let (q, _, h₂) =
        >>=-eq-ok (div_round_half_away (gross *ℤ pos 10_000) (pos 10_000 +ℤ rate)) _
          (rw fine at h) in
      let (net, _, h₃) = >>=-eq-ok (to_minor q) _ h₂ in
      let (vat, v, h₄) = >>=-eq-ok (sub_minor gross net) _ h₃ in
      let e : vat ≡ gross -ℤ net = (sub_minor-ok gross net v).0 in
      let parts : net +ℤ vat ≡ gross = omega (int_laws, ap pos_part e, ap neg_part e) in
      ap (λ t. t.net +ℤ t.vat) (sym (ok-injective {b = s} h₄)) ∙ parts
]
