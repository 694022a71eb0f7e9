-- ===== src/Billing/Subscription/Deferral.antt =====
-- packages/billing/src/subscription.ts: when a change of plan takes effect.
use ghalla.Base.{
  ◌&&◌, ℕ, ◌*◌, ◌<◌, ◌≡◌, ◌⊎◌, refl, sym, ap, ◌∙◌, subst, Bool, true, false, not, List, [], ◌∷◌,
  Option, none, some, any, if◌then◌else◌, Bool-cases, inl, inr, arith, some-injective,
}
use ghalla.Base.Text.{Text, eq_text, eq_text_iff, lt_text}
use ghalla.Contracts.Enums.{BillingInterval}
use ghalla.Billing.Plans.{Plan, Feature, plan_of, includes, eq_feature, is_downgrade, is_lower_cap}
use ghalla.Billing.Subscription.{
  Subscription, SubscriptionChange, applied, is_stale, changed, defers, apply_change,
  effective_plan_code, leb_text,
}
use ghalla.Billing.Subscription.Events.{applied_or}

changed_of :
    (s : Subscription) (c : SubscriptionChange) {next : Subscription}
    → apply_change s c ≡ applied next
    → changed s c ≡ next
unfolding apply_change
changed_of s c h = elim (Bool-cases (is_stale s c.occurred_at)) [
  | inl e ↦ absurd (let h₁ = rw e at h in cc)
  | inr e ↦ ap (applied_or s) (rw e at h)
]

-- A feature of one plan that the other does not have
abbrev Loses : Plan → Plan → Type 0
Loses from to =
    (f : Feature) × ((includes from.features f ≡ true) × (includes to.features f ≡ false))

-- The orders that a plan allows in a year; `none` is no cap.
abbrev in_a_year : Plan → Option ℕ
in_a_year p = elim p.order_cap [
  | none ↦ none
  | some cap ↦
      some (elim p.interval [ BillingInterval.month ↦ 12 * cap | BillingInterval.year ↦ cap ])
]

abbrev IsBelow : Option ℕ → Option ℕ → Type 0
IsBelow none above = ⊥
IsBelow (some below) none = Unit
IsBelow (some below) (some above) = below < above

-- The second plan lacks a feature of the first or allows fewer orders in a year.
abbrev pub Reduces : Plan → Plan → Type 0
Reduces from to = Loses from to ⊎ IsBelow (in_a_year to) (in_a_year from)

eq_feature-eq : (f g : Feature) → eq_feature f g ≡ true → f ≡ g
eq_feature-eq f g h = ground (arith, h)

any-includes :
    (test : Feature → Bool) (f : Feature) (features : List Feature)
    → includes features f ≡ true
    → test f ≡ true
    → any test features ≡ true
any-includes test f [] has passes = cc
any-includes test f (g ∷ features) has passes = elim (Bool-cases (eq_feature g f)) [
  | inl same ↦ rw (eq_feature-eq g f same, passes) refl
  | inr other ↦
      let rest = any-includes test f features (rw other at has) passes in ground (arith, rest)
]

lower_cap : (below above : Option ℕ) → IsBelow below above → is_lower_cap above below ≡ true
lower_cap none above h = absurd h
lower_cap (some below) none h = refl
lower_cap (some below) (some above) h = ground (arith, h)

Reduces-is_downgrade : (from to : Plan) → Reduces from to → is_downgrade from to ≡ true
unfolding is_downgrade
Reduces-is_downgrade from to (inl (f, (had, lost))) =
    let missing : not (includes to.features f) ≡ true = ground (arith, lost) in
    let found = any-includes (λ g. not (includes to.features g)) f from.features had missing in
    rw found refl
Reduces-is_downgrade from to (inr fewer) =
    elim (Bool-cases (any (λ f. not (includes to.features f)) from.features)) [
      | inl lost ↦ rw lost refl
      | inr all_kept ↦ rw all_kept (lower_cap (in_a_year to) (in_a_year from) fewer)
    ]

IsBelow-irreflexive : (cap : Option ℕ) → IsBelow cap cap → ⊥
IsBelow-irreflexive none h = h
IsBelow-irreflexive (some cap) h = omega (arith, h)

Reduces-irreflexive : (p : Plan) → Reduces p p → ⊥
Reduces-irreflexive p (inl (f, (had, lost))) = let e = sym had ∙ lost in cc
Reduces-irreflexive p (inr fewer) = IsBelow-irreflexive (in_a_year p) fewer

reduced-defers :
    (s : Subscription) (c : SubscriptionChange) (code : Text) (from to : Plan)
    → c.plan_code ≡ some code
    → plan_of s.plan_code ≡ some from
    → plan_of code ≡ some to
    → Reduces from to
    → defers s c ≡ lt_text c.occurred_at s.current_period_end
reduced-defers s c code from to asked known wanted reduces =
    elim (Bool-cases (eq_text code s.plan_code)) [
      | inl same ↦
          let one : from ≡ to =
            some-injective
              (sym known ∙ (ap plan_of (sym ((eq_text_iff code s.plan_code).0 same)) ∙ wanted)) in
          absurd (Reduces-irreflexive to (subst (λ (p : Plan). Reduces p to) one reduces))
      | inr other ↦ rw (asked, other, known, wanted, Reduces-is_downgrade from to reduces) refl
    ]

in_force :
    (s : Subscription) (c : SubscriptionChange) (code now : Text)
    → c.plan_code ≡ some code
    → effective_plan_code (changed s c) now
      ≡ (if defers s c && not (leb_text s.current_period_end now) then s.plan_code else code)
unfolding effective_plan_code
in_force s c code now asked = elim (Bool-cases (defers s c)) [
  | inl down ↦ elim (Bool-cases (leb_text s.current_period_end now)) [
    | inl ended ↦ rw (down, asked, ended) refl
    | inr paid ↦ rw (down, asked, paid) refl
  ]
  | inr up ↦ rw (up, asked) refl
]

-- A change to a plan that lacks a feature of the plan of the row or allows fewer orders in a year,
-- whatever was pending before: if it occurs before the end of the paid period, the plan of the row
-- is in force until that end and the plan that was asked for from then on; if it does not, the plan
-- that was asked for is in force at every time.
pub apply_change-deferred :
    (s : Subscription) (c : SubscriptionChange) (code now : Text) (from to : Plan)
    {next : Subscription}
    → apply_change s c ≡ applied next
    → c.plan_code ≡ some code
    → plan_of s.plan_code ≡ some from
    → plan_of code ≡ some to
    → Reduces from to
    → effective_plan_code next now ≡ (
        if lt_text c.occurred_at s.current_period_end && not (leb_text s.current_period_end now)
        then s.plan_code
        else code)
apply_change-deferred s c code now from to h asked known wanted reduces =
    let waits = reduced-defers s c code from to asked known wanted reduces in
    let plan =
      in_force s c code now asked
      ∙ ap
          (λ (wait : Bool).
            if wait && not (leb_text s.current_period_end now) then s.plan_code else code)
          waits in
    subst
      (λ (x : Subscription). effective_plan_code x now ≡ (
        if lt_text c.occurred_at s.current_period_end && not (leb_text s.current_period_end now)
        then s.plan_code
        else code))
      (changed_of s c h) plan
