-- ===== src/Engine/Reversal/Totals.antt =====
-- The running totals by line id, and the buckets over which amounts are spread.
use ghalla.Base.{Bool, false, List, [], map, or_else}
use ghalla.Base.Int.{ℤ, pos, ◌+ℤ◌}
use ghalla.Base.Text.{Text}
use ghalla.Base.Dict.{Dict, lookup, insert, of_entries}
use ghalla.Money.{AllocationBucket}
use ghalla.Engine.Diagnostics.{Diagnostic}
use ghalla.Engine.Revenue.{LineRevenue}

-- The state of the loop over reversals.
pub record Tallies : Type 0 where
  pub reversed_revenue : Dict ℤ
  pub reversed_qty : Dict ℤ
  pub restocked : Dict ℤ
  pub allocated : Bool
  pub notes : List Diagnostic

-- `tally`
abbrev pub tally : Dict ℤ → Text → ℤ
tally m id = or_else (lookup id m) (pos 0)

-- `m.set(id, tally(m, id) + amount)`
abbrev pub add_to : Text → ℤ → Dict ℤ → Dict ℤ
add_to id amount m = insert id (tally m id +ℤ amount) m

abbrev pub zeros : List LineRevenue → Dict ℤ
zeros revenue = of_entries (map (λ l. (l.order_item_id, pos 0)) revenue)

abbrev pub no_tallies : List LineRevenue → Tallies
no_tallies revenue = record {
  reversed_revenue = zeros revenue;
  reversed_qty = zeros revenue;
  restocked = zeros revenue;
  allocated = false;
  notes = [];
}

abbrev pub line_buckets : List LineRevenue → Dict ℤ → List AllocationBucket
line_buckets revenue weights =
    map (λ l. record { key = l.order_item_id; weight = tally weights l.order_item_id }) revenue
