-- ===== src/Engine/Gateway/Costliest.antt =====
-- packages/core/src/engine/gateway.ts: the rule that a card of an unknown scheme is charged at.
use ghalla.Base.{
  ◌≡◌, Bool, true, false, List, [], ◌∷◌, ◌++◌, Option, none, some, if◌then◌else◌, arith, sym, ap,
  ◌∙◌, subst, Bool-cases, inl, inr,
}
use ghalla.Base.Int.{ℤ, ltb_ℤ, ◌≤ℤ◌}
use ghalla.Base.Result.{Result, ok, >>=-eq-ok, ok-injective}
use ghalla.Engine.Input.{GatewayFeeRule}
use ghalla.Engine.Fee.{AppliedFee, apply_fee_formula}
use ghalla.Engine.Gateway.{costliest_from, costliest}

at_most_of_ltb : (a b : ℤ) → ltb_ℤ a b ≡ true → a ≤ℤ b
at_most_of_ltb a b h = ground arith

at_most_of_not : (a b : ℤ) → ltb_ℤ a b ≡ false → b ≤ℤ a
at_most_of_not a b h = ground arith

at_most_trans : (a b c : ℤ) → a ≤ℤ b → b ≤ℤ c → a ≤ℤ c
at_most_trans a b c p q = omega arith

module _ (amount : ℤ) (registered : Bool) where
  abbrev fee_of : GatewayFeeRule → Result AppliedFee
  fee_of r = apply_fee_formula amount r.formula registered

  -- Whatever the fee by a rule is, it costs `n` at least.
  abbrev Reaches : ℤ → GatewayFeeRule → Type 0
  Reaches n r = (top : AppliedFee) → fee_of r ≡ ok top → n ≤ℤ top.cost_minor

  own-Reaches :
      (r : GatewayFeeRule) (fee : AppliedFee) (n : ℤ)
      → fee_of r ≡ ok fee
      → n ≤ℤ fee.cost_minor
      → Reaches n r
  own-Reaches r fee n e h top k =
      subst (λ (x : AppliedFee). n ≤ℤ x.cost_minor) (ok-injective (sym e ∙ k)) h

  -- The rule that a round of `reduce` keeps
  abbrev kept : GatewayFeeRule → GatewayFeeRule → AppliedFee → AppliedFee → GatewayFeeRule
  kept worst c held fee = if ltb_ℤ held.cost_minor fee.cost_minor then c else worst

  kept-Reaches :
      (worst c : GatewayFeeRule) (held fee : AppliedFee) (n : ℤ)
      → fee_of worst ≡ ok held
      → fee_of c ≡ ok fee
      → Reaches n worst
      → Reaches n (kept worst c held fee)
  kept-Reaches worst c held fee n e f h = elim (Bool-cases (ltb_ℤ held.cost_minor fee.cost_minor)) [
    | inl lt ↦ rw lt (
        own-Reaches c fee n f (
          at_most_trans n held.cost_minor fee.cost_minor (h held e)
            (at_most_of_ltb held.cost_minor fee.cost_minor lt)))
    | inr ge ↦ rw ge h
  ]

  new-Reaches :
      (worst c : GatewayFeeRule) (held fee : AppliedFee)
      → fee_of worst ≡ ok held
      → fee_of c ≡ ok fee
      → Reaches fee.cost_minor (kept worst c held fee)
  new-Reaches worst c held fee e f = elim (Bool-cases (ltb_ℤ held.cost_minor fee.cost_minor)) [
    | inl lt ↦ rw lt (own-Reaches c fee fee.cost_minor f (omega arith))
    | inr ge ↦
        rw ge (
          own-Reaches worst held fee.cost_minor e
            (at_most_of_not held.cost_minor fee.cost_minor ge))
  ]

  costliest_from-Reaches :
      (n : ℤ) (cs : List GatewayFeeRule) (worst : GatewayFeeRule) {w : GatewayFeeRule}
      → Reaches n worst
      → costliest_from amount registered worst cs ≡ ok w
      → Reaches n w
  unfolding costliest_from
  costliest_from-Reaches n [] worst h k = subst (Reaches n) (ok-injective k) h
  costliest_from-Reaches n (c ∷ cs) worst h k =
      let (fee, f, k₁) = >>=-eq-ok (fee_of c) _ k in
      let (held, e, k₂) = >>=-eq-ok (fee_of worst) _ k₁ in
      costliest_from-Reaches n cs (kept worst c held fee) (kept-Reaches worst c held fee n e f h) k₂

  costliest_from-member :
      (earlier later : List GatewayFeeRule) (c worst : GatewayFeeRule) (fee : AppliedFee)
      {w : GatewayFeeRule}
      → fee_of c ≡ ok fee
      → costliest_from amount registered worst (earlier ++ (c ∷ later)) ≡ ok w
      → Reaches fee.cost_minor w
  unfolding costliest_from
  costliest_from-member [] later c worst fee f k =
      let (fee₁, f₁, k₁) = >>=-eq-ok (fee_of c) _ k in
      let (held, e, k₂) = >>=-eq-ok (fee_of worst) _ k₁ in
      let same : fee₁.cost_minor ≡ fee.cost_minor =
        ap (λ (x : AppliedFee). x.cost_minor) (ok-injective (sym f₁ ∙ f)) in
      costliest_from-Reaches fee.cost_minor later (kept worst c held fee₁)
        (subst (λ (n : ℤ). Reaches n (kept worst c held fee₁)) same
          (new-Reaches worst c held fee₁ e f₁))
        k₂
  costliest_from-member (d ∷ earlier) later c worst fee f k =
      let (fee₁, f₁, k₁) = >>=-eq-ok (fee_of d) _ k in
      let (held, e, k₂) = >>=-eq-ok (fee_of worst) _ k₁ in
      costliest_from-member earlier later c (kept worst d held fee₁) fee f k₂

abbrev some_or : GatewayFeeRule → Option GatewayFeeRule → GatewayFeeRule
some_or d none = d
some_or d (some r) = r

-- The rule that is chosen among the candidates for a card of unknown scheme costs at least as much
-- as any of them, wherever both fees can be computed.
costliest-maximal :
    (amount : ℤ) (registered : Bool) (earlier later : List GatewayFeeRule) (c : GatewayFeeRule)
    {w : GatewayFeeRule} {fee top : AppliedFee}
    → costliest amount registered (earlier ++ (c ∷ later)) ≡ ok (some w)
    → apply_fee_formula amount c.formula registered ≡ ok fee
    → apply_fee_formula amount w.formula registered ≡ ok top
    → fee.cost_minor ≤ℤ top.cost_minor
unfolding costliest
costliest-maximal amount registered [] later c {w} {fee} {top} h f t =
    let (v, k, e) = >>=-eq-ok (costliest_from amount registered c later) _ h in
    costliest_from-Reaches amount registered fee.cost_minor later c
      (own-Reaches amount registered c fee fee.cost_minor f (omega arith))
      (k ∙ ap (λ (o : Option GatewayFeeRule). ok (some_or v o)) (ok-injective e)) top t
costliest-maximal amount registered (d ∷ earlier) later c {w} {fee} {top} h f t =
    let (v, k, e) = >>=-eq-ok (costliest_from amount registered d (earlier ++ (c ∷ later))) _ h in
    costliest_from-member amount registered earlier later c d fee f
      (k ∙ ap (λ (o : Option GatewayFeeRule). ok (some_or v o)) (ok-injective e)) top t
