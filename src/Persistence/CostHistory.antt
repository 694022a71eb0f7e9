-- ===== src/Persistence/CostHistory.antt =====
-- packages/persistence/src/repositories/cost-history.repository.ts: the windows in which costs hold.
-- An instant is its milliseconds since the epoch. The order that the database gives to rows, and the
-- text of a double, are parameters.
pub mod Past
pub mod Windows
pub mod Chain
use ghalla.Base.{
  ℕ, suc, Bool, true, ◌&&◌, ◌||◌, List, [], ◌∷◌, ◌++◌, Option, none, some, map, filter, find, any,
  if◌then◌else◌, leb, ltb, or_else, or_option, is_empty, is_none,
}
use ghalla.Base.Int.{ℤ}
use ghalla.Base.Text.{Text, lit, eq_text, eq_option_text}
use ghalla.Base.Dict.{Dict, lookup, insert}
use ghalla.Base.Result.{Result, ok, err, ◌>>=◌}
use ghalla.Contracts.Enums.{CostSource}
use ghalla.Engine.Input.{ResolvedCost}
use ghalla.Persistence.MoneyColumn.{minor_to_numeric, numeric_to_minor, is_negative}

pub record ProductKeyRef : Type 0 where
  pub platform_product_id : Text
  pub platform_variant_id : Option Text
  pub sku : Option Text

pub record CostEntry : Type 0 where
  pub id : Text
  pub store_id : Text
  pub platform_product_id : Text
  pub platform_variant_id : Option Text
  pub sku : Option Text
  pub unit_cost_minor : ℤ
  pub source : CostSource
  pub effective_from : ℕ
  pub note : Option Text

-- A row of `cost_history` but for the end of its window
pub record CostRow : Type 0 where
  pub id : Text
  pub store_id : Text
  pub platform_product_id : Text
  pub platform_variant_id : Option Text
  pub sku : Option Text
  pub unit_cost_minor : Text
  pub source : CostSource
  pub effective_from : ℕ
  pub note : Option Text

-- A row of `cost_history`, with the end of its window, where it has one
abbrev pub Window : Type 0
Window = CostRow × Option ℕ

-- `effective_to IS NULL OR effective_to > at`
abbrev pub is_before_end : ℕ → Option ℕ → Bool
is_before_end at none = true
is_before_end at (some end) = ltb at end

-- Half-open: [from, to)
abbrev pub covers : ℕ → Window → Bool
covers at (row, end) = leb row.effective_from at && is_before_end at end

-- The rows that the query selects. What follows does not read the end of a window.
unfoldable pub select_as_of : List Window → Text → ℕ → List CostRow
select_as_of windows store_id at =
    map (λ (w : Window). w.0)
      (filter (λ (w : Window). eq_text w.0.store_id store_id && covers at w) windows)

abbrev joined_key : Text → Option Text → Text
joined_key product variant = product ++ (lit "|" ++ or_else variant [])

abbrev insert_new : Text → CostRow → Dict CostRow → Dict CostRow
insert_new key row m = elim (lookup key m) [ none ↦ insert key row m | some old ↦ m ]

abbrev insert_sku : CostRow → Option Text → Dict CostRow → Dict CostRow
insert_sku row none m = m
insert_sku row (some sku) m = if is_empty sku then m else insert_new sku row m

-- The loop that fills both maps: the first row of a key stays
unfoldable pub index_rows : List CostRow → Dict CostRow × Dict CostRow → Dict CostRow × Dict CostRow
index_rows [] maps = maps
index_rows (row ∷ rows) (by_product_key, by_sku) = index_rows rows (
  insert_new (joined_key row.platform_product_id row.platform_variant_id) row by_product_key,
  insert_sku row row.sku by_sku,
)

abbrev match_sku : Option Text → Dict CostRow → Option CostRow
match_sku none m = none
match_sku (some sku) m = lookup sku m

-- `exact ?? productLevel ?? bySkuMatch`
abbrev choose_row : ProductKeyRef → Dict CostRow × Dict CostRow → Option CostRow
choose_row wanted (by_product_key, by_sku) =
    or_option
      (lookup (joined_key wanted.platform_product_id wanted.platform_variant_id) by_product_key)
      (or_option (lookup (joined_key wanted.platform_product_id none) by_product_key)
        (match_sku wanted.sku by_sku))

abbrev resolve_row : ProductKeyRef → CostRow → Result ResolvedCost
resolve_row wanted row = numeric_to_minor row.unit_cost_minor >>= λ cost. ok (record {
  platform_product_id = wanted.platform_product_id;
  platform_variant_id = wanted.platform_variant_id;
  sku = wanted.sku;
  unit_cost_minor = cost;
  source = row.source;
  cost_history_id = row.id;
})

abbrev add_resolved :
    ProductKeyRef → Option CostRow → Result (List ResolvedCost) → Result (List ResolvedCost)
add_resolved wanted none rest = rest
add_resolved wanted (some row) rest =
    resolve_row wanted row >>= λ cost. rest >>= λ costs. ok (cost ∷ costs)

unfoldable pub resolve_keys :
    Dict CostRow × Dict CostRow → List ProductKeyRef → Result (List ResolvedCost)
resolve_keys maps [] = ok []
resolve_keys maps (wanted ∷ keys) =
    add_resolved wanted (choose_row wanted maps) (resolve_keys maps keys)

-- `newest_first` is the answer to `ORDER BY effective_from DESC`.
unfoldable pub resolve_as_of :
    (List CostRow → List CostRow)
    → List Window
    → Text
    → List ProductKeyRef
    → ℕ
    → Result (List ResolvedCost)
unfolding index_rows resolve_keys
resolve_as_of newest_first windows store_id keys at =
    if is_empty keys
    then ok []
    else resolve_keys (index_rows (newest_first (select_as_of windows store_id at)) ([], [])) keys

-- Whether a row is of the product of an entry; a variant of null is compared with IS NULL
abbrev pub is_of_product : CostEntry → CostRow → Bool
is_of_product entry row =
    eq_text row.store_id entry.store_id
    && eq_text row.platform_product_id entry.platform_product_id
    && eq_option_text entry.platform_variant_id row.platform_variant_id

abbrev pub is_open_for : CostEntry → Window → Bool
is_open_for entry (row, end) = is_of_product entry row && is_none end

-- `UPDATE … SET effective_to = from WHERE …`
unfoldable pub close_open : CostEntry → List Window → List Window
close_open entry =
    map (λ (w : Window). if is_open_for entry w then (w.0, some entry.effective_from) else w)

abbrev pub cost_row : CostEntry → Text → CostRow
cost_row entry cost = record {
  id = entry.id;
  store_id = entry.store_id;
  platform_product_id = entry.platform_product_id;
  platform_variant_id = entry.platform_variant_id;
  sku = entry.sku;
  unit_cost_minor = cost;
  source = entry.source;
  effective_from = entry.effective_from;
  note = entry.note;
}

-- What `record` does: a backdated correction is refused with the start of the open window, an amount
-- that is no money or breaks a constraint with the error of its check.
pub data Recorded : Type 0 where
  backdated : ℕ → Recorded
  refused : Recorded
  recorded : List Window → Recorded

-- The checks of the table: no window is closed before it starts, no cost is negative, and ids differ.
abbrev pub is_refused : CostEntry → List Window → ℤ → Bool
is_refused entry windows cost =
    is_negative cost
    || any (λ (w : Window). is_open_for entry w && leb entry.effective_from w.0.effective_from)
        windows
    || any (λ (w : Window). eq_text w.0.id entry.id) windows

abbrev pub insert_cost : CostEntry → List Window → Result ℤ → Recorded
insert_cost entry windows (err e) = refused
insert_cost entry windows (ok cost) =
    if is_refused entry windows cost
    then refused
    else recorded ((cost_row entry (minor_to_numeric cost), none) ∷ close_open entry windows)

abbrev pub record_after : CostEntry → List Window → Result ℤ → Option Window → Recorded
record_after entry windows cost none = insert_cost entry windows cost
record_after entry windows cost (some (open_row, end)) =
    if leb entry.effective_from open_row.effective_from
    then backdated open_row.effective_from
    else insert_cost entry windows cost

-- `decimal_of` is `String(unitCostMinor / 100)`.
unfoldable pub record_cost : (ℤ → Text) → List Window → CostEntry → Recorded
unfolding close_open
record_cost decimal_of windows entry =
    record_after entry windows (numeric_to_minor (decimal_of entry.unit_cost_minor))
      (find (is_open_for entry) windows)

abbrev same_key : CostRow → CostRow → Bool
same_key a b =
    eq_text a.platform_product_id b.platform_product_id
    && eq_option_text a.platform_variant_id b.platform_variant_id

-- `count(distinct (product, variant))`, where two variants of NULL are not distinct
unfoldable pub count_distinct : List CostRow → ℕ
count_distinct [] = 0
count_distinct (row ∷ rows) =
    let rest = count_distinct rows in if any (same_key row) rows then rest else suc rest

abbrev is_open_in : Text → Window → Bool
is_open_in store_id (row, end) = eq_text row.store_id store_id && is_none end

unfoldable pub count_keys_with_cost : List Window → Text → ℕ
unfolding count_distinct
count_keys_with_cost windows store_id =
    count_distinct (map (λ (w : Window). w.0) (filter (is_open_in store_id) windows))
