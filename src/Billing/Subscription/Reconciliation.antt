-- ===== src/Billing/Subscription/Reconciliation.antt =====
-- packages/billing/src/subscription.ts: what a reconciliation leaves behind.
use ghalla.Base.{
  ◌≡◌, refl, true, false, Option, none, some, Bool-cases, inl, inr, ap, or_else, or_option, arith,
}
use ghalla.Base.Text.{Text, eq_text_iff, eq_text_refl}
use ghalla.Contracts.Enums.{SubscriptionStatus}
use ghalla.Billing.Subscription.{
  Subscription, SubscriptionChange, ReconcileOutcome, reconciled, unchanged, differs_from,
  reconcile, eq_status, differs, differs_option,
}

eq_status_refl : (s : SubscriptionStatus) → eq_status s s ≡ true
eq_status_refl SubscriptionStatus.trialing = refl
eq_status_refl SubscriptionStatus.active = refl
eq_status_refl SubscriptionStatus.past_due = refl
eq_status_refl SubscriptionStatus.canceled = refl
eq_status_refl SubscriptionStatus.expired = refl

settled : (truth : Option Text) (current : Text) → differs truth (or_else truth current) ≡ false
settled none current = refl
settled (some t) current = rw (eq_text_refl t) refl

settled_option :
    (truth current : Option Text) → differs_option truth (or_option truth current) ≡ false
settled_option none current = refl
settled_option (some t) current = rw (eq_text_refl t) refl

abbrev reconciled_or : Subscription → ReconcileOutcome → Subscription
reconciled_or s (reconciled next) = next
reconciled_or s unchanged = s

-- A field is what the platform named, if it named one.
abbrev IsNamed : Option Text → Text → Type 0
IsNamed none current = Unit
IsNamed (some named) current = current ≡ named

abbrev IsNamedOption : Option Text → Option Text → Type 0
IsNamedOption none current = Unit
IsNamedOption (some named) current = current ≡ some named

-- A row has the status of the platform, and each of the other fields that the platform named.
abbrev pub Follows : Subscription → SubscriptionChange → Type 0
Follows row truth =
    (row.status ≡ truth.status)
    × (IsNamed truth.plan_code row.plan_code
        × (IsNamedOption truth.platform_plan_id row.platform_plan_id
            × (IsNamed truth.current_period_start row.current_period_start
                × (IsNamed truth.current_period_end row.current_period_end
                    × IsNamedOption truth.trial_ends_at row.trial_ends_at))))

or_else-IsNamed : (truth : Option Text) (current : Text) → IsNamed truth (or_else truth current)
or_else-IsNamed none current = tt
or_else-IsNamed (some t) current = refl

or_option-IsNamedOption :
    (truth current : Option Text) → IsNamedOption truth (or_option truth current)
or_option-IsNamedOption none current = tt
or_option-IsNamedOption (some t) current = refl

kept-IsNamed :
    (truth : Option Text) (current : Text) → differs truth current ≡ false → IsNamed truth current
kept-IsNamed none current h = tt
kept-IsNamed (some t) current h = (eq_text_iff current t).0 (ground (arith, h))

kept-IsNamedOption :
    (truth current : Option Text)
    → differs_option truth current ≡ false
    → IsNamedOption truth current
kept-IsNamedOption none current h = tt
kept-IsNamedOption (some t) none h = cc
kept-IsNamedOption (some t) (some c) h = ap some ((eq_text_iff c t).0 (ground (arith, h)))

eq_status-eq : (a b : SubscriptionStatus) → eq_status a b ≡ true → a ≡ b
eq_status-eq a b h = ground (arith, h)

-- The row that a reconciliation leaves
abbrev pub row_after : Subscription → SubscriptionChange → Text → Subscription
row_after s truth at = reconciled_or s (reconcile s truth at)

unchanged-Follows :
    (s : Subscription) (truth : SubscriptionChange) → differs_from s truth ≡ false → Follows s truth
unfolding differs_from
unchanged-Follows s truth h =
    let status : eq_status s.status truth.status ≡ true = ground (arith, h) in
    let plan : differs truth.plan_code s.plan_code ≡ false = ground (arith, h) in
    let platform_plan : differs_option truth.platform_plan_id s.platform_plan_id ≡ false =
      ground (arith, h) in
    let start : differs truth.current_period_start s.current_period_start ≡ false =
      ground (arith, h) in
    let end : differs truth.current_period_end s.current_period_end ≡ false = ground (arith, h) in
    let trial : differs_option truth.trial_ends_at s.trial_ends_at ≡ false = ground (arith, h) in
    (
      eq_status-eq s.status truth.status status,
      (
        kept-IsNamed truth.plan_code s.plan_code plan,
        (
          kept-IsNamedOption truth.platform_plan_id s.platform_plan_id platform_plan,
          (
            kept-IsNamed truth.current_period_start s.current_period_start start,
            (
              kept-IsNamed truth.current_period_end s.current_period_end end,
              kept-IsNamedOption truth.trial_ends_at s.trial_ends_at trial,
            ),
          ),
        ),
      ),
    )

-- A reconciliation leaves a row that agrees with the platform on the status and on every field that
-- the platform named, whether or not the row was written, and reconciling that row again with the
-- same answer changes nothing.
pub reconcile-settles :
    (s : Subscription) (truth : SubscriptionChange) (at_first again : Text)
    → Follows (row_after s truth at_first) truth
      × (reconcile (row_after s truth at_first) truth again ≡ unchanged)
unfolding reconcile differs_from
reconcile-settles s truth at_first again = elim (Bool-cases (differs_from s truth)) [
  | inr e ↦ rw e (unchanged-Follows s truth e, rw e refl)
  | inl e ↦ rw e (
    (
      refl,
      (
        or_else-IsNamed truth.plan_code s.plan_code,
        (
          or_option-IsNamedOption truth.platform_plan_id s.platform_plan_id,
          (
            or_else-IsNamed truth.current_period_start s.current_period_start,
            (
              or_else-IsNamed truth.current_period_end s.current_period_end,
              or_option-IsNamedOption truth.trial_ends_at s.trial_ends_at,
            ),
          ),
        ),
      ),
    ),
    rw
        (
          eq_status_refl truth.status,
          settled truth.plan_code s.plan_code,
          settled_option truth.platform_plan_id s.platform_plan_id,
          settled truth.current_period_start s.current_period_start,
          settled truth.current_period_end s.current_period_end,
          settled_option truth.trial_ends_at s.trial_ends_at,
        )
        refl,
  )
]
