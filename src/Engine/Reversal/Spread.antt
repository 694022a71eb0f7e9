-- ===== src/Engine/Reversal/Spread.antt =====
-- `spread` and `spreadCappedByCogs` of reversal.ts.
use mathlib.Core.Logic.{dite}
use mathlib.Core.WellFounded.{Acc}
use native.Mathlib.Decide.{dec_lt}
use ghalla.Base.{
  ℕ, ◌+◌, ◌-◌, ◌<◌, ◌||◌, List, [], ◌∷◌, if◌then◌else◌, filter, is_empty, arith, none, some,
}
use ghalla.Base.Int.{ℤ, pos, pos_part, ◌-ℤ◌, min_ℤ, max_ℤ, ltb_ℤ, eq_ℤ}
use ghalla.Base.Text.{Text}
use ghalla.Base.Dict.{Dict, lookup}
use ghalla.Base.Result.{Result, ok, ◌>>=◌}
use ghalla.Base.Order.{lt_wf}
use ghalla.Money.{AllocationBucket, allocate_minor, assert_in_range}
use ghalla.Engine.Cogs.{LineCogs}
use ghalla.Engine.Reversal.Totals.{tally, add_to}

-- `for (const [key, amount] of shares) into.set(key, tally(into, key) + amount)`
abbrev pub add_all : Dict ℤ → Dict ℤ → Dict ℤ
add_all [] into = into
add_all ((k, v) ∷ shares) into = add_all shares (add_to k v into)

unfoldable pub spread : List AllocationBucket → ℤ → Dict ℤ → Result (Dict ℤ)
spread buckets total into =
    if eq_ℤ total (pos 0) || is_empty buckets
    then ok into
    else (allocate_minor total buckets >>= λ shares. ok (add_all shares into))

-- What a line has cost, by its id
abbrev pub cost_of : Dict LineCogs → Text → ℤ
cost_of costs id = elim (lookup id costs) [ none ↦ pos 0 | some l ↦ l.cogs_minor ]

abbrev pub headroom : Dict LineCogs → Dict ℤ → Text → ℤ
headroom costs into id = cost_of costs id -ℤ tally into id

-- One round over the shares: each line takes what it has room for. The number is `absorbed`.
unfoldable pub absorb : Dict LineCogs → Dict ℤ → Dict ℤ → ℕ → Dict ℤ × ℕ
absorb costs [] into absorbed = (into, absorbed)
absorb costs ((k, amount) ∷ shares) into absorbed =
    let take = max_ℤ (pos 0) (min_ℤ amount (headroom costs into k)) in
    absorb costs shares (if eq_ℤ take (pos 0) then into else add_to k take into)
      (absorbed + pos_part take)

abbrev pub still_open : Dict LineCogs → Dict ℤ → List AllocationBucket → List AllocationBucket
still_open costs into = filter (λ b. ltb_ℤ (pos 0) (headroom costs into b.key))

-- The `while` loop, on what remains. A round that absorbs nothing is the last.
unfoldable pub spread_rounds :
    Dict LineCogs
    → (remaining : ℕ) → Acc ◌<◌ remaining
    → List AllocationBucket
    → Dict ℤ
    → Result (Dict ℤ)
spread_rounds costs remaining (Acc.intro _ smaller) open_buckets into =
    dite (dec_lt 0 remaining)
      (λ positive.
        if is_empty open_buckets
        then ok into
        else (assert_in_range (pos remaining) >>= λ checked.
            allocate_minor checked open_buckets >>= λ shares.
            let (next, absorbed) = absorb costs shares into 0 in
            dite (dec_lt 0 absorbed)
              (λ some_absorbed.
                spread_rounds costs (remaining - absorbed)
                  (smaller (remaining - absorbed) (omega arith))
                  (still_open costs next open_buckets) next)
              (λ _. ok next)))
      (λ _. ok into)

unfoldable pub spread_capped_by_cogs :
    List AllocationBucket → ℤ → Dict ℤ → Dict LineCogs → Result (Dict ℤ)
unfolding lt_wf dec_lt
spread_capped_by_cogs buckets total into costs =
    let open_buckets = filter (λ b. ltb_ℤ (pos 0) (cost_of costs b.key)) buckets in
    spread_rounds costs (pos_part total) (lt_wf.apply (pos_part total)) open_buckets into
