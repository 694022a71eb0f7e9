-- ===== src/Engine/Reversal/Impact.antt =====
-- packages/core/src/engine/reversal.ts: the impact on the order and the impacts on the lines.
use ghalla.Base.{
  ◌≡◌, refl, Bool, List, [], ◌∷◌, map, ap, sym, ◌∙◌, is_empty, Bool-cases, inl, inr, if◌then◌else◌,
  subst, ◌&&◌, not, arith,
}
use ghalla.Base.Text.{Text}
use ghalla.Base.Dict.{Dict, lookup}
use ghalla.Base.Int.{ℤ, pos, total_by, sum-map, int_laws, min_ℤ, max_ℤ, ◌-ℤ◌, ◌≤ℤ◌}
use ghalla.Base.Totals.{map-map_result}
use ghalla.Base.Result.{ok, >>=-eq-ok, ok-injective, map_result}
use ghalla.Money.{add_minor, assert_in_range, negate_minor}
use ghalla.Money.Exact.{add_minor-ok, assert_in_range-ok, negate_minor-ok}
use ghalla.Contracts.Canonical.{CanonicalReversal, CanonicalShipment}
use ghalla.Engine.Diagnostics.{Computed, Diagnostic}
use ghalla.Engine.Recognition.{ProfitRecognition, is_recognized}
use ghalla.Engine.Revenue.{LineRevenue}
use ghalla.Engine.Cogs.{LineCogs}
use ghalla.Engine.Reversal.{
  LineReversal, ReversalImpact, result_line, impact_of_tallies, credit_whole_order, credit_line,
  empty_impact, compute_reversal_impact, cogs_by_id, cogs_minor_of, rto_recovery,
  rto_goods_recovered, is_undispatched_reason,
}
use ghalla.Engine.Reversal.Totals.{Tallies, tally, line_buckets, no_tallies}
use ghalla.Engine.Reversal.Steps.{reversal_steps}

abbrev pub impact_of : LineReversal → ℤ
impact_of l = l.impact_minor

-- The lines have the ids of the lines of revenue, and their impacts add up to the order's.
abbrev pub Reconciles : List LineRevenue → ReversalImpact → Type 0
Reconciles revenue r =
    (map (λ l. l.order_item_id) r.lines ≡ map (λ l. l.order_item_id) revenue)
    × (r.impact_minor ≡ total_by impact_of r.lines)

empty_ids :
    (revenue : List LineRevenue)
    → map (λ l. l.order_item_id) (empty_impact revenue).lines ≡ map (λ l. l.order_item_id) revenue
empty_ids [] = refl
empty_ids (l ∷ ls) = ap (λ (ks : List Text). l.order_item_id ∷ ks) (empty_ids ls)

empty_total : (revenue : List LineRevenue) → pos 0 ≡ total_by impact_of (empty_impact revenue).lines
empty_total [] = refl
empty_total (l ∷ ls) = empty_total ls ∙ omega int_laws

credit_ids :
    (cogs : Dict LineCogs) (quantities : Dict ℤ) (revenue : List LineRevenue)
    → map (λ l. l.order_item_id) (map (credit_line cogs quantities) revenue)
      ≡ map (λ l. l.order_item_id) revenue
credit_ids cogs quantities [] = refl
credit_ids cogs quantities (l ∷ ls) =
    ap (λ (ks : List Text). l.order_item_id ∷ ks) (credit_ids cogs quantities ls)

credit-Reconciles :
    (revenue : List LineRevenue) (cogs : Dict LineCogs) (quantities : Dict ℤ)
    {c : Computed ReversalImpact}
    → credit_whole_order revenue cogs quantities ≡ ok c
    → Reconciles revenue c.value
unfolding credit_whole_order
credit-Reconciles revenue cogs quantities {c} h =
    let lines = map (credit_line cogs quantities) revenue in
    let (restocked, p, h₁) = >>=-eq-ok (add_minor (map (λ l. l.restocked_cogs_minor) lines)) _ h in
    let (impact, q, h₂) = >>=-eq-ok (add_minor (map impact_of lines)) _ h₁ in
    subst (λ (y : Computed ReversalImpact). Reconciles revenue y.value) (ok-injective {b = c} h₂)
      (
        credit_ids cogs quantities revenue,
        (add_minor-ok (map impact_of lines) q).0 ∙ sum-map impact_of lines,
      )

-- What holds of every line of a reversal: the impact is the goods taken back less the revenue given
-- back, and where the line's goods cost no less than nothing, those taken back cost no less than
-- nothing and no more than all of them.
abbrev pub IsSound : Dict LineCogs → LineReversal → Type 0
IsSound cogs l =
    (l.impact_minor ≡ l.restocked_cogs_minor -ℤ l.reversed_revenue_ex_vat_minor)
    × (pos 0 ≤ℤ cogs_minor_of (lookup l.order_item_id cogs)
        → (pos 0 ≤ℤ l.restocked_cogs_minor)
          × (l.restocked_cogs_minor ≤ℤ cogs_minor_of (lookup l.order_item_id cogs)))

capped :
    (t c : ℤ) → pos 0 ≤ℤ c → (pos 0 ≤ℤ max_ℤ (pos 0) (min_ℤ t c)) × (max_ℤ (pos 0) (min_ℤ t c) ≤ℤ c)
capped t c h = ground arith

line-IsSound :
    (counts : Bool) (t : Tallies) (cogs : Dict LineCogs) (quantities : Dict ℤ) (l : LineRevenue)
    {r : LineReversal}
    → result_line counts t cogs quantities l ≡ ok r
    → (r.order_item_id ≡ l.order_item_id) × IsSound cogs r
unfolding result_line
line-IsSound counts t cogs quantities l {r} h =
    let id = l.order_item_id in
    let cost = cogs_minor_of (lookup id cogs) in
    let credit = max_ℤ (pos 0) (min_ℤ (tally t.restocked id) cost) in
    let (revenue, p, h₁) =
      >>=-eq-ok (if counts then assert_in_range (tally t.reversed_revenue id) else ok (pos 0)) _
        h in
    let (back, q, h₂) = >>=-eq-ok (assert_in_range credit) _ h₁ in
    let (less, n, h₃) = >>=-eq-ok (negate_minor revenue) _ h₂ in
    let (impact, s, h₄) = >>=-eq-ok (add_minor (less ∷ back ∷ [])) _ h₃ in
    subst (λ (x : LineReversal). (x.order_item_id ≡ l.order_item_id) × IsSound cogs x)
      (ok-injective {b = r} h₄)
      (
        refl,
        (
          (add_minor-ok (less ∷ back ∷ []) s).0 ∙ rw (negate_minor-ok revenue n) (omega int_laws),
          λ owned.
              subst (λ (b : ℤ). (pos 0 ≤ℤ b) × (b ≤ℤ cost)) (sym (assert_in_range-ok credit q).0)
                (capped (tally t.restocked id) cost owned),
        ),
      )

tallied-Reconciles :
    (counts : Bool) (t : Tallies) (cogs : Dict LineCogs) (quantities : Dict ℤ)
    (revenue : List LineRevenue) {c : Computed ReversalImpact}
    → impact_of_tallies counts t cogs quantities revenue ≡ ok c
    → Reconciles revenue c.value
unfolding impact_of_tallies
tallied-Reconciles counts t cogs quantities revenue {c} h =
    let f = result_line counts t cogs quantities in
    let (lines, p, h₁) = >>=-eq-ok (map_result f revenue) _ h in
    let (reversed, q, h₂) =
      >>=-eq-ok (add_minor (map (λ l. l.reversed_revenue_ex_vat_minor) lines)) _ h₁ in
    let (restocked, r, h₃) = >>=-eq-ok (add_minor (map (λ l. l.restocked_cogs_minor) lines)) _ h₂ in
    let (impact, s, h₄) = >>=-eq-ok (add_minor (map impact_of lines)) _ h₃ in
    subst (λ (y : Computed ReversalImpact). Reconciles revenue y.value) (ok-injective {b = c} h₄)
      (
        map-map_result f (λ r. r.order_item_id) (λ l. l.order_item_id)
            (λ l r e. (line-IsSound counts t cogs quantities l e).0) revenue p,
        (add_minor-ok (map impact_of lines) s).0 ∙ sum-map impact_of lines,
      )

empty-Reconciles :
    (revenue : List LineRevenue) (notes : List Diagnostic) {c : Computed ReversalImpact}
    → ok (record { value = empty_impact revenue; diagnostics = notes }) ≡ ok c
    → Reconciles revenue c.value
empty-Reconciles revenue notes {c} h =
    subst (λ (y : Computed ReversalImpact). Reconciles revenue y.value) (ok-injective {b = c} h)
      (empty_ids revenue, empty_total revenue)

-- On every path, the reversal has one line for each line of revenue, in the same order, and the
-- impact on the order is exactly the sum of the impacts on the lines.
pub compute_reversal_impact-Reconciles :
    (reversals : List CanonicalReversal) (revenue : List LineRevenue) (cogs : List LineCogs)
    (quantities weights : Dict ℤ) (recognition : ProfitRecognition)
    (shipments : List CanonicalShipment) (dispatched : Bool) {c : Computed ReversalImpact}
    → compute_reversal_impact reversals revenue cogs quantities weights recognition shipments
        dispatched
      ≡ ok c
    → Reconciles revenue c.value
unfolding compute_reversal_impact
compute_reversal_impact-Reconciles reversals revenue cogs quantities weights recognition shipments
      dispatched {c} h =
    let m = cogs_by_id cogs in
    elim (Bool-cases (is_undispatched_reason recognition && not dispatched)) [
      | inl e ↦ credit-Reconciles revenue m quantities (rw e at h)
      | inr e ↦
          elim (Bool-cases (rto_recovery recognition && not (rto_goods_recovered shipments))) [
            | inl e₁ ↦ empty-Reconciles revenue _ (rw (e, e₁) at h)
            | inr e₁ ↦ elim (Bool-cases (rto_recovery recognition)) [
              | inl e₂ ↦ credit-Reconciles revenue m quantities (rw (e, e₁, e₂) at h)
              | inr e₂ ↦ elim (Bool-cases (is_empty reversals)) [
                | inl e₃ ↦ empty-Reconciles revenue [] (rw (e, e₁, e₂, e₃) at h)
                | inr e₃ ↦
                    let (t, p, h₁) =
                      >>=-eq-ok
                        (reversal_steps (line_buckets revenue weights) quantities cogs m reversals
                          (no_tallies revenue))
                        _ (rw (e, e₁, e₂, e₃) at h) in
                    tallied-Reconciles (is_recognized recognition) t m quantities revenue h₁
              ]
            ]
          ]
    ]

-- Where the goods of a line cost at least nothing, a reversal takes back goods for at least nothing
-- and at most that cost, and the impact is the goods taken back less the revenue given back.
pub result_line-bounded :
    (counts : Bool) (t : Tallies) (cogs : Dict LineCogs) (quantities : Dict ℤ) (l : LineRevenue)
    {r : LineReversal}
    → result_line counts t cogs quantities l ≡ ok r
    → pos 0 ≤ℤ cogs_minor_of (lookup r.order_item_id cogs)
    → (pos 0 ≤ℤ r.restocked_cogs_minor)
      × (r.restocked_cogs_minor ≤ℤ cogs_minor_of (lookup r.order_item_id cogs))
      × (r.impact_minor ≡ r.restocked_cogs_minor -ℤ r.reversed_revenue_ex_vat_minor)
result_line-bounded counts t cogs quantities l h owned =
    let (id, (impact, bounds)) = line-IsSound counts t cogs quantities l h in
    let (above, below) = bounds owned in (above, below, impact)
