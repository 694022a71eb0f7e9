-- ===== src/Engine/Cogs.antt =====
-- packages/core/src/engine/cogs.ts: each line's cost, by product key and then by SKU; and the cost
-- index of normalize.ts that it reads.
pub mod Total
use ghalla.Base.{
  Bool, true, false, not, List, [], ◌∷◌, ◌++◌, map, Option, none, some, if◌then◌else◌, any, or_else,
  or_option, is_empty,
}
use ghalla.Base.Int.{ℤ, pos, ◌*ℤ◌}
use ghalla.Base.Text.{Text, lit}
use ghalla.Base.Dict.{Dict, lookup}
use ghalla.Base.Result.{Result, ok, ◌>>=◌}
use ghalla.Money.{add_minor, assert_in_range}
use ghalla.Contracts.Enums.{CostSource, is_exact_source}
use ghalla.Contracts.Canonical.{CanonicalOrderItem}
use ghalla.Engine.Input.{ResolvedCost}
use ghalla.Engine.Diagnostics.{Diagnostic, DiagnosticCode, Computed, diagnostic, on_line}

pub record CostIndex : Type 0 where
  pub by_product_key : Dict ResolvedCost
  pub by_sku : Dict ResolvedCost

unfoldable pub product_key_of : Text → Option Text → Text
product_key_of product variant = product ++ (lit "|" ++ or_else variant [])

pub record LineCogs : Type 0 where
  pub order_item_id : Text
  pub unit_cost_minor : ℤ
  pub cogs_minor : ℤ
  pub source : CostSource
  pub cost_history_id : Option Text
  pub covered : Bool

pub record OrderCogs : Type 0 where
  pub lines : List LineCogs
  pub cogs_minor : ℤ
  pub any_missing : Bool
  pub any_estimated : Bool

abbrev sku_cost : Option Text → Dict ResolvedCost → Option ResolvedCost
sku_cost none m = none
sku_cost (some s) m = if is_empty s then none else lookup s m

-- `byKey ?? bySku`
unfoldable pub resolve_cost : CostIndex → CanonicalOrderItem → Option ResolvedCost
resolve_cost costs i =
    or_option
      (lookup (product_key_of i.platform_product_id i.platform_variant_id) costs.by_product_key)
      (sku_cost i.sku costs.by_sku)

-- A line with what its resolution says.
pub record LineCost : Type 0 where
  pub line : LineCogs
  pub missing : Bool
  pub estimated : Bool
  pub notes : List Diagnostic

unfoldable pub cost_line : CanonicalOrderItem → Option ResolvedCost → Result LineCost
cost_line i none = ok (record {
  line = record {
    order_item_id = i.id;
    unit_cost_minor = pos 0;
    cogs_minor = pos 0;
    source = CostSource.no_source;
    cost_history_id = none;
    covered = false;
  };
  missing = true;
  estimated = false;
  notes = diagnostic DiagnosticCode.cost_missing (on_line i.id) ∷ [];
})
cost_line i (some c) = assert_in_range (c.unit_cost_minor *ℤ i.quantity) >>= λ cogs. ok (record {
  line = record {
    order_item_id = i.id;
    unit_cost_minor = c.unit_cost_minor;
    cogs_minor = cogs;
    source = c.source;
    cost_history_id = some c.cost_history_id;
    covered = is_exact_source c.source;
  };
  missing = false;
  estimated = not (is_exact_source c.source);
  notes =
      if is_exact_source c.source
      then []
      else diagnostic DiagnosticCode.cost_estimated (on_line i.id) ∷ [];
})

unfoldable pub cost_lines : CostIndex → List CanonicalOrderItem → Result (List LineCost)
cost_lines costs [] = ok []
cost_lines costs (i ∷ items) =
    cost_line i (resolve_cost costs i) >>= λ l. cost_lines costs items >>= λ ls. ok (l ∷ ls)

abbrev cost_notes : List LineCost → List Diagnostic
cost_notes [] = []
cost_notes (l ∷ ls) = l.notes ++ cost_notes ls

unfoldable pub compute_cogs : List CanonicalOrderItem → CostIndex → Result (Computed OrderCogs)
compute_cogs items costs = do
  priced ← cost_lines costs items
  total ← add_minor (map (λ l. l.line.cogs_minor) priced)
  ok (record {
    value = record {
      lines = map (λ l. l.line) priced;
      cogs_minor = total;
      any_missing = any (λ l. l.missing) priced;
      any_estimated = any (λ l. l.estimated) priced;
    };
    diagnostics = cost_notes priced;
  })
