-- ===== src/Persistence/CostHistory/Past.antt =====
-- `record` of packages/persistence/src/repositories/cost-history.repository.ts: the costs of the
-- past after a cost is recorded.
use ghalla.Base.{
  ℕ, ◌<◌, ◌≡◌, refl, sym, ap, ◌∙◌, subst, Bool, true, false, ◌&&◌, List, [], ◌∷◌, none, some, find,
  if◌then◌else◌, leb, Bool-cases, Option-cases, inl, inr, arith, is_empty,
}
use ghalla.Base.Int.{ℤ}
use ghalla.Base.Text.{Text, eq_text}
use ghalla.Base.Result.{Result, ok, err}
use ghalla.Persistence.MoneyColumn.{minor_to_numeric, numeric_to_minor}
use ghalla.Persistence.CostHistory.{
  CostEntry, CostRow, Window, ProductKeyRef, covers, select_as_of, resolve_as_of, is_open_for,
  close_open, cost_row, Recorded, backdated, refused, recorded, record_cost, insert_cost,
  is_refused, index_rows, resolve_keys,
}

recorded_or : List Window → Recorded → List Window
recorded_or windows (backdated from) = windows
recorded_or windows refused = windows
recorded_or windows (recorded after) = after

pub recorded-injective : {a b : List Window} → recorded a ≡ recorded b → a ≡ b
unfolding recorded_or
recorded-injective {a} h = ap (recorded_or a) h

-- A window that is closed at `end` covers the same instants before it.
closed-covers :
    (entry : CostEntry) (w : Window) (at : ℕ)
    → at < entry.effective_from
    → covers at (if is_open_for entry w then (w.0, some entry.effective_from) else w) ≡ covers at w
closed-covers entry (row, none) at early = elim (Bool-cases (is_open_for entry (row, none))) [
  | inl mine ↦ rw mine (ground arith)
  | inr other ↦ rw other refl
]
closed-covers entry (row, some end) at early =
    elim (Bool-cases (is_open_for entry (row, some end))) [
      | inl mine ↦ absurd (ground arith)
      | inr other ↦ rw other refl
    ]

closed-row :
    (entry : CostEntry) (w : Window)
    → (if is_open_for entry w then (w.0, some entry.effective_from) else w).0 ≡ w.0
closed-row entry w = elim (Bool-cases (is_open_for entry w)) [
  | inl mine ↦ rw mine refl
  | inr other ↦ rw other refl
]

abbrev is_selected : Text → ℕ → Window → Bool
is_selected store_id at w = eq_text w.0.store_id store_id && covers at w

select_if : Bool → CostRow → List CostRow → List CostRow
select_if true row rows = row ∷ rows
select_if false row rows = rows

select-cons :
    (store_id : Text) (at : ℕ) (w : Window) (windows : List Window)
    → select_as_of (w ∷ windows) store_id at
      ≡ select_if (is_selected store_id at w) w.0 (select_as_of windows store_id at)
unfolding select_as_of select_if
select-cons store_id at w windows = elim (Bool-cases (is_selected store_id at w)) [
  | inl hit ↦ rw hit refl
  | inr miss ↦ rw miss refl
]

close_open-select :
    (entry : CostEntry) (windows : List Window) (store_id : Text) (at : ℕ)
    → at < entry.effective_from
    → select_as_of (close_open entry windows) store_id at ≡ select_as_of windows store_id at
unfolding close_open
close_open-select entry [] store_id at early = refl
close_open-select entry (w ∷ windows) store_id at early =
    let closed : Window = if is_open_for entry w then (w.0, some entry.effective_from) else w in
    select-cons store_id at closed (close_open entry windows)
    ∙ ((λ i.
          select_if
            (eq_text (closed-row entry w i).store_id store_id && closed-covers entry w at early i)
            (closed-row entry w i) (close_open-select entry windows store_id at early i))
        ∙ sym (select-cons store_id at w windows))

new-unselected :
    (entry : CostEntry) (cost : Text) (store_id : Text) (at : ℕ)
    → at < entry.effective_from
    → is_selected store_id at (cost_row entry cost, none) ≡ false
new-unselected entry cost store_id at early = ground arith

insert_cost-select :
    (entry : CostEntry) (windows : List Window) (cost : Result ℤ) (store_id : Text) (at : ℕ)
    {after : List Window}
    → at < entry.effective_from
    → insert_cost entry windows cost ≡ recorded after
    → select_as_of after store_id at ≡ select_as_of windows store_id at
unfolding select_if
insert_cost-select entry windows (err e) store_id at early h = cc
insert_cost-select entry windows (ok cost) store_id at {after} early h =
    elim (Bool-cases (is_refused entry windows cost)) [
      | inl bad ↦ absurd (let e = rw bad at h in cc)
      | inr good ↦
          subst
            (λ (table : List Window).
              select_as_of table store_id at ≡ select_as_of windows store_id at)
            (recorded-injective (rw good at h))
            (select-cons store_id at (cost_row entry (minor_to_numeric cost), none)
                (close_open entry windows)
              ∙ (ap
                    (λ b.
                      select_if b (cost_row entry (minor_to_numeric cost))
                        (select_as_of (close_open entry windows) store_id at))
                    (new-unselected entry (minor_to_numeric cost) store_id at early)
                  ∙ close_open-select entry windows store_id at early))
    ]

record_cost-select :
    (decimal_of : ℤ → Text) (windows : List Window) (entry : CostEntry) (store_id : Text) (at : ℕ)
    {after : List Window}
    → at < entry.effective_from
    → record_cost decimal_of windows entry ≡ recorded after
    → select_as_of after store_id at ≡ select_as_of windows store_id at
unfolding record_cost
record_cost-select decimal_of windows entry store_id at early h =
    let cost = numeric_to_minor (decimal_of entry.unit_cost_minor) in
    elim (Option-cases (find (is_open_for entry) windows)) [
      | inl fresh ↦ insert_cost-select entry windows cost store_id at early (rw fresh at h)
      | inr ((open_row, end), found) ↦
          elim (Bool-cases (leb entry.effective_from open_row.effective_from)) [
            | inl back ↦ absurd (let e = rw (found, back) at h in cc)
            | inr forward ↦
                insert_cost-select entry windows cost store_id at early (rw (found, forward) at h)
          ]
    ]

-- Recording a cost changes no cost that is resolved as of an instant before it takes effect, for any
-- products of any store and whatever order the database gives to rows.
pub record_cost-keeps_past :
    (decimal_of : ℤ → Text) (newest_first : List CostRow → List CostRow) (windows : List Window)
    (entry : CostEntry) (store_id : Text) (keys : List ProductKeyRef) (at : ℕ) {after : List Window}
    → at < entry.effective_from
    → record_cost decimal_of windows entry ≡ recorded after
    → resolve_as_of newest_first after store_id keys at
      ≡ resolve_as_of newest_first windows store_id keys at
unfolding resolve_as_of
record_cost-keeps_past decimal_of newest_first windows entry store_id keys at early h =
    ap
      (λ rows.
        if is_empty keys
        then ok []
        else resolve_keys (index_rows (newest_first rows) ([], [])) keys)
      (record_cost-select decimal_of windows entry store_id at early h)
