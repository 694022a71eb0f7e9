-- ===== src/Console/Revenue/Statuses.antt =====
-- apps/ghalla-ops/src/lib/queries/subscriptions.ts: `statusCounts` and the number of subscriptions.
use ghalla.Base.{
  ℕ, ◌+◌, ◌≡◌, refl, ap, ◌∙◌, List, [], ◌∷◌, Option, map, length, or_else, if◌then◌else◌,
  Bool-cases, inl, inr, arith,
}
use ghalla.Base.Text.{Text, eq_text, eq_text_iff}
use ghalla.Base.Dict.{Dict, lookup, insert, lookup-insert}
use ghalla.Contracts.Enums.{SubscriptionStatus}
use ghalla.Console.Revenue.{
  SubscriptionState, StatusCounts, status_text, status_counts, tally, count_at,
}

abbrev occurrences : Text → List Text → ℕ
occurrences key [] = 0
occurrences key (k ∷ ks) = (if eq_text k key then 1 else 0) + occurrences key ks

counted_one :
    (wanted key : Text) (counts : Dict ℕ)
    → count_at wanted (insert key (count_at key counts + 1) counts)
      ≡ count_at wanted counts + (if eq_text key wanted then 1 else 0)
counted_one wanted key counts =
    ap (λ (o : Option ℕ). or_else o 0) (lookup-insert key wanted (count_at key counts + 1) counts)
    ∙ elim (Bool-cases (eq_text key wanted)) [
      | inl same ↦ rw same (ap (λ k. count_at k counts + 1) ((eq_text_iff key wanted).0 same))
      | inr other ↦ rw other (omega arith)
    ]

tally-at :
    (wanted : Text) (keys : List Text) (counts : Dict ℕ)
    → count_at wanted (tally keys counts) ≡ count_at wanted counts + occurrences wanted keys
unfolding tally
tally-at wanted [] counts = omega arith
tally-at wanted (key ∷ keys) counts =
    let rest = tally-at wanted keys (insert key (count_at key counts + 1) counts) in
    let here = counted_one wanted key counts in rest ∙ omega (arith, here)

abbrev in_all : List Text → ℕ
in_all texts =
    occurrences (status_text SubscriptionStatus.active) texts
    + occurrences (status_text SubscriptionStatus.trialing) texts
    + occurrences (status_text SubscriptionStatus.past_due) texts
    + occurrences (status_text SubscriptionStatus.canceled) texts
    + occurrences (status_text SubscriptionStatus.expired) texts

one_more :
    (status : SubscriptionStatus) (texts : List Text)
    → in_all (status_text status ∷ texts) ≡ in_all texts + 1
unfolding eq_text
one_more SubscriptionStatus.trialing texts = omega arith
one_more SubscriptionStatus.active texts = omega arith
one_more SubscriptionStatus.past_due texts = omega arith
one_more SubscriptionStatus.canceled texts = omega arith
one_more SubscriptionStatus.expired texts = omega arith

every_status :
    (rows : List SubscriptionState)
    → in_all (map (λ (s : SubscriptionState). status_text s.status) rows) ≡ length rows
every_status [] = refl
every_status (s ∷ rows) =
    one_more s.status (map (λ (t : SubscriptionState). status_text t.status) rows)
    ∙ omega (arith, every_status rows)

abbrev pub all_counts : StatusCounts → ℕ
all_counts c = c.active + c.trialing + c.past_due + c.canceled + c.expired

-- The counts by status add up to the number of subscriptions.
pub status_counts-sum :
    (rows : List SubscriptionState)
    → all_counts (status_counts rows) ≡ (status_counts rows).subscriptions
unfolding status_counts lookup
status_counts-sum rows =
    let texts = map (λ (s : SubscriptionState). status_text s.status) rows in
    let active = tally-at (status_text SubscriptionStatus.active) texts [] in
    let trialing = tally-at (status_text SubscriptionStatus.trialing) texts [] in
    let past_due = tally-at (status_text SubscriptionStatus.past_due) texts [] in
    let canceled = tally-at (status_text SubscriptionStatus.canceled) texts [] in
    let expired = tally-at (status_text SubscriptionStatus.expired) texts [] in
    omega (arith, active, trialing, past_due, canceled, expired, every_status rows)
