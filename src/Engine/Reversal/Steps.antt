-- ===== src/Engine/Reversal/Steps.antt =====
-- What one reversal does to the running totals.
use ghalla.Base.{
  Bool, true, false, ◌&&◌, List, [], ◌∷◌, ◌++◌, map, Option, none, some, if◌then◌else◌, is_some,
}
use ghalla.Base.Int.{ℤ, pos, ◌+ℤ◌, ◌-ℤ◌, ◌*ℤ◌, min_ℤ, max_ℤ, ltb_ℤ, eq_ℤ}
use ghalla.Base.Double.{floor_mul_div}
use ghalla.Base.Dict.{Dict, lookup, insert}
use ghalla.Base.Result.{Result, ok, ◌>>=◌}
use ghalla.Money.{add_minor, assert_in_range, AllocationBucket}
use ghalla.Contracts.Enums.{RestockOutcome}
use ghalla.Contracts.Canonical.{CanonicalReversal, CanonicalReversalLine}
use ghalla.Engine.Diagnostics.{Diagnostic, DiagnosticCode, diagnostic, on_reversal}
use ghalla.Engine.Cogs.{LineCogs}
use ghalla.Engine.Reversal.Totals.{Tallies, tally, add_to}
use ghalla.Engine.Reversal.Spread.{spread, spread_capped_by_cogs}

-- The set `RECOVERS_COGS`
abbrev pub recovers_cogs : RestockOutcome → Bool
recovers_cogs RestockOutcome.restocked_sellable = true
recovers_cogs _ = false

-- The set `UNKNOWN_RESTOCK`
abbrev pub unknown_restock : RestockOutcome → Bool
unknown_restock RestockOutcome.pending_receipt = true
unknown_restock RestockOutcome.unknown = true
unknown_restock _ = false

abbrev unit_cost_of : Option LineCogs → ℤ
unit_cost_of none = pos 0
unit_cost_of (some l) = l.unit_cost_minor

abbrev note : DiagnosticCode → CanonicalReversal → Diagnostic
note c r = diagnostic c (on_reversal r.id)

-- The totals with a diagnostic more, and marked as allocated.
abbrev noted : DiagnosticCode → CanonicalReversal → Tallies → Tallies
noted c r t = record t { notes = t.notes ++ (note c r ∷ []) }

abbrev noted_if : Bool → DiagnosticCode → CanonicalReversal → Tallies → Tallies
noted_if b c r t = if b then noted c r t else t

abbrev mark_allocated : Tallies → Tallies
mark_allocated t = record t { allocated = true }

-- A line of a reversal that names one of the order's items.
abbrev matched_line :
    Dict ℤ → Dict LineCogs → CanonicalReversal → CanonicalReversalLine → Tallies → Tallies
matched_line quantities cogs r l t =
    let already = tally t.reversed_qty l.order_item_id in
    let ordered = tally quantities l.order_item_id in
    let creditable = max_ℤ (pos 0) (min_ℤ l.quantity (ordered -ℤ already)) in
    let unit = unit_cost_of (lookup l.order_item_id cogs) in
    noted_if (unknown_restock l.restock_outcome) DiagnosticCode.restock_unknown r (record t {
      reversed_revenue = add_to l.order_item_id l.amount_ex_vat_minor t.reversed_revenue;
      reversed_qty = insert l.order_item_id (already +ℤ creditable) t.reversed_qty;
      restocked =
          if recovers_cogs l.restock_outcome
          then add_to l.order_item_id (unit *ℤ creditable) t.restocked
          else t.restocked;
    })

-- The loop over the lines, with the amount that belongs to no line so far.
unfoldable pub reversal_lines :
    Dict ℤ
    → Dict LineCogs
    → CanonicalReversal
    → List CanonicalReversalLine
    → ℤ
    → Tallies
    → ℤ × Tallies
reversal_lines quantities cogs r [] unmatched t = (unmatched, t)
reversal_lines quantities cogs r (l ∷ ls) unmatched t =
    let known = is_some (lookup l.order_item_id t.reversed_revenue) in
    reversal_lines quantities cogs r ls
      (if known then unmatched else unmatched +ℤ l.amount_ex_vat_minor)
      (if known
        then matched_line quantities cogs r l t
        else mark_allocated (noted DiagnosticCode.reversal_line_unmatched r t))

-- `spread(total, reversedRevenue)`
abbrev spread_revenue : List AllocationBucket → ℤ → Tallies → Result Tallies
spread_revenue buckets total t =
    spread buckets total t.reversed_revenue >>= λ m. ok (record t { reversed_revenue = m })

unfoldable pub detailed_reversal :
    List AllocationBucket
    → Dict ℤ
    → Dict LineCogs
    → CanonicalReversal
    → ℤ
    → List CanonicalReversalLine
    → Tallies
    → Result Tallies
detailed_reversal buckets quantities cogs r order_level lines t₀ = do
  claimed ← add_minor (map (λ l. l.amount_ex_vat_minor) lines)
  let t₁ =
      if eq_ℤ claimed r.amount_ex_vat_minor
      then t₀
      else mark_allocated (noted DiagnosticCode.reversal_total_mismatch r t₀)
  let after =
      reversal_lines quantities cogs r lines (max_ℤ (pos 0) (r.amount_ex_vat_minor -ℤ claimed)) t₁
  t₂ ←
      (if eq_ℤ after.0 (pos 0)
        then ok after.1
        else (assert_in_range after.0 >>= λ u. spread_revenue buckets u after.1))
  (if eq_ℤ order_level (pos 0)
      then ok t₂
      else spread_revenue buckets order_level
          (mark_allocated (noted DiagnosticCode.reversal_lines_allocated r t₂)))

-- The COGS credit of a reversal with no lines, in proportion to the item revenue reversed.
unfoldable pub prorated_restock :
    List AllocationBucket
    → List LineCogs
    → Dict LineCogs
    → CanonicalReversal
    → Tallies
    → Result Tallies
prorated_restock buckets cogs_lines cogs r t = do
  items_gross ← add_minor (map (λ b. b.weight) buckets)
  (if ltb_ℤ (pos 0) r.amount_ex_vat_minor && ltb_ℤ (pos 0) items_gross
      then (add_minor (map (λ l. l.cogs_minor) cogs_lines) >>= λ full_cogs.
          assert_in_range (floor_mul_div full_cogs r.amount_ex_vat_minor items_gross) >>= λ share.
          spread_capped_by_cogs buckets share t.restocked cogs >>= λ m.
          ok (record t { restocked = m }))
      else ok t)

unfoldable pub undetailed_reversal :
    List AllocationBucket
    → List LineCogs
    → Dict LineCogs
    → CanonicalReversal
    → ℤ
    → Tallies
    → Result Tallies
undetailed_reversal buckets cogs_lines cogs r order_level t₀ = do
  let t₁ =
      noted_if (unknown_restock r.restock_outcome) DiagnosticCode.restock_unknown r
        (mark_allocated (noted DiagnosticCode.reversal_lines_allocated r t₀))
  total ← add_minor (r.amount_ex_vat_minor ∷ order_level ∷ [])
  t₂ ← spread_revenue buckets total t₁
  (if recovers_cogs r.restock_outcome then prorated_restock buckets cogs_lines cogs r t₂ else ok t₂)

unfoldable pub reversal_step :
    List AllocationBucket
    → Dict ℤ
    → List LineCogs
    → Dict LineCogs
    → CanonicalReversal
    → Tallies
    → Result Tallies
reversal_step buckets quantities cogs_lines cogs r t =
    add_minor (
      r.shipping_refund_ex_vat_minor ∷ r.cod_fee_refund_ex_vat_minor ∷ r.adjustment_ex_vat_minor
      ∷ [])
    >>= λ order_level. elim r.lines [
      | none ↦ undetailed_reversal buckets cogs_lines cogs r order_level t
      | some lines ↦ detailed_reversal buckets quantities cogs r order_level lines t
    ]

unfoldable pub reversal_steps :
    List AllocationBucket
    → Dict ℤ
    → List LineCogs
    → Dict LineCogs
    → List CanonicalReversal
    → Tallies
    → Result Tallies
reversal_steps buckets quantities cogs_lines cogs [] t = ok t
reversal_steps buckets quantities cogs_lines cogs (r ∷ rs) t =
    reversal_step buckets quantities cogs_lines cogs r t
    >>= reversal_steps buckets quantities cogs_lines cogs rs
