-- ===== src/Billing/Subscription/Events.antt =====
-- packages/billing/src/subscription.ts: events that arrive late or twice.
use ghalla.Base.{
  ◌≡◌, refl, false, List, [], ◌∷◌, ◌++◌, Option-cases, some, Bool-cases, inl, inr, arith, subst, ap,
}
use ghalla.Base.Text.{Text, lt_text, lt_text_irrefl, lt_text_trans}
use ghalla.Billing.Subscription.{
  Subscription, SubscriptionChange, ApplyOutcome, applied, stale, is_stale, apply_change,
}

abbrev pub applied_or : Subscription → ApplyOutcome → Subscription
applied_or s (applied next) = next
applied_or s stale = s

-- An event that has been applied is stale when it arrives again, as is every event that is not after
-- it.
apply_change-stale :
    (s : Subscription) (c d : SubscriptionChange) {next : Subscription}
    → apply_change s c ≡ applied next
    → lt_text c.occurred_at d.occurred_at ≡ false
    → apply_change next d ≡ stale
unfolding apply_change
apply_change-stale s c d {next} h late = elim (Bool-cases (is_stale s c.occurred_at)) [
  | inl e ↦ absurd (let h₁ = rw e at h in cc)
  | inr e ↦
      subst (λ (x : Subscription). apply_change x d ≡ stale) (ap (applied_or s) (rw e at h))
        (rw late refl)
]

-- The subscription after a list of events, in the order of their arrival
abbrev pub after_events : Subscription → List SubscriptionChange → Subscription
after_events s [] = s
after_events s (c ∷ cs) = after_events (applied_or s (apply_change s c)) cs

-- The last event of `s` is not before `t`.
abbrev pub HasReached : Text → Subscription → Type 0
HasReached t s = (last : Text) × (s.last_event_at ≡ some last) × (lt_text last t ≡ false)

step-HasReached :
    (s : Subscription) (c : SubscriptionChange) (t : Text)
    → HasReached t s
    → HasReached t (applied_or s (apply_change s c))
unfolding apply_change
step-HasReached s c t (last, e, h) = elim (Bool-cases (lt_text last c.occurred_at)) [
  | inl newer ↦
      rw (e, newer)
        (c.occurred_at, refl, ground (arith, lt_text_trans last c.occurred_at t newer, h))
  | inr older ↦ rw (e, older) (last, refl, h)
]

first-HasReached :
    (s : Subscription) (c : SubscriptionChange)
    → HasReached c.occurred_at (applied_or s (apply_change s c))
unfolding apply_change
first-HasReached s c = elim (Option-cases s.last_event_at) [
  | inl e ↦ rw e (c.occurred_at, refl, lt_text_irrefl c.occurred_at)
  | inr (last, e) ↦ elim (Bool-cases (lt_text last c.occurred_at)) [
    | inl newer ↦ rw (e, newer) (c.occurred_at, refl, lt_text_irrefl c.occurred_at)
    | inr older ↦ rw (e, older) (last, refl, older)
  ]
]

events-HasReached :
    (s : Subscription) (cs : List SubscriptionChange) (t : Text)
    → HasReached t s
    → HasReached t (after_events s cs)
events-HasReached s [] t h = h
events-HasReached s (c ∷ cs) t h =
    events-HasReached (applied_or s (apply_change s c)) cs t (step-HasReached s c t h)

reached-HasReached :
    (s : Subscription) (earlier later : List SubscriptionChange) (c : SubscriptionChange)
    → HasReached c.occurred_at (after_events s (earlier ++ (c ∷ later)))
reached-HasReached s [] later c =
    events-HasReached (applied_or s (apply_change s c)) later c.occurred_at (first-HasReached s c)
reached-HasReached s (d ∷ earlier) later c =
    reached-HasReached (applied_or s (apply_change s d)) earlier later c

reached-stale :
    (s : Subscription) (c : SubscriptionChange)
    → HasReached c.occurred_at s
    → apply_change s c ≡ stale
unfolding apply_change
reached-stale s c (last, e, h) = rw (e, h) refl

-- However events are ordered on arrival, once they have been handled the subscription stands at an
-- event that is not before any of them, and each of them is stale if it arrives again.
pub after_events-HasReached :
    (s : Subscription) (earlier later : List SubscriptionChange) (c : SubscriptionChange)
    → HasReached c.occurred_at (after_events s (earlier ++ (c ∷ later)))
      × (apply_change (after_events s (earlier ++ (c ∷ later))) c ≡ stale)
after_events-HasReached s earlier later c =
    let reached = reached-HasReached s earlier later c in
    (reached, reached-stale (after_events s (earlier ++ (c ∷ later))) c reached)
