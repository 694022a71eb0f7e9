-- ===== src/Persistence/CostHistory/Chain.antt =====
-- `record` of packages/persistence/src/repositories/cost-history.repository.ts: the windows of each
-- product before and after.
use ghalla.Base.{
  ℕ, ◌<◌, ◌≤◌, ◌≡◌, refl, sym, ap, ◌∙◌, subst, Bool, true, false, ◌&&◌, List, [], ◌∷◌, Option, none,
  some, filter, find, if◌then◌else◌, leb, All, Bool-cases, Option-cases, inl, inr, arith,
  leb-false→lt,
}
use ghalla.Base.Int.{ℤ}
use ghalla.Base.Text.{Text}
use ghalla.Base.Result.{Result, ok, err}
use ghalla.Persistence.MoneyColumn.{minor_to_numeric, numeric_to_minor}
use ghalla.Persistence.CostHistory.{
  CostEntry, CostRow, Window, covers, is_of_product, is_open_for, close_open, cost_row, recorded,
  record_cost, insert_cost, is_refused,
}
use ghalla.Persistence.CostHistory.Past.{recorded-injective}
use ghalla.Persistence.CostHistory.Windows.{
  EndsBy, IsChain, AreChained, one_product, own_product, closed, closed-product, close_open-own,
  close_open-fresh, find-other, close_open-other,
}

-- The windows of the product of an entry end by its start once they are closed.
abbrev ClosedBy : CostEntry → CostEntry → List Window → Type 0
ClosedBy entry other windows =
    All (λ (w : Window). is_of_product other w.0 ≡ true → EndsBy entry.effective_from w)
      (close_open entry windows)

-- The open window, if there is one, starts before the entry.
abbrev StartsAfter : CostEntry → Option Window → Type 0
StartsAfter entry none = Unit
StartsAfter entry (some (row, end)) = row.effective_from < entry.effective_from

chain-ClosedBy :
    (entry other : CostEntry) (windows : List Window) (found : Option Window)
    → ((w : Window) → is_of_product other w.0 ≡ is_of_product entry w.0)
    → IsChain entry windows found
    → StartsAfter entry found
    → ClosedBy entry other windows
chain-ClosedBy entry other windows none same chain later =
    close_open-fresh entry other windows same chain
chain-ClosedBy entry other windows (some (row, end)) same chain later =
    close_open-own entry row.effective_from other windows same later chain

inserted_parts :
    (entry : CostEntry) (windows : List Window) (cost : Result ℤ) {after : List Window}
    → insert_cost entry windows cost ≡ recorded after
    → (text : Text) × (after ≡ (cost_row entry text, none) ∷ close_open entry windows)
inserted_parts entry windows (err e) h = cc
inserted_parts entry windows (ok cost) h = elim (Bool-cases (is_refused entry windows cost)) [
  | inl bad ↦ absurd (let e = rw bad at h in cc)
  | inr good ↦ (minor_to_numeric cost, sym (recorded-injective (rw good at h)))
]

-- A cost that was recorded: its amount, the table after it, and that it starts after the open window
recorded_parts :
    (decimal_of : ℤ → Text) (windows : List Window) (entry : CostEntry) {after : List Window}
    → record_cost decimal_of windows entry ≡ recorded after
    → (cost : Text) × (after ≡ (cost_row entry cost, none) ∷ close_open entry windows)
      × StartsAfter entry (find (is_open_for entry) windows)
unfolding record_cost
recorded_parts decimal_of windows entry h =
    let cost = numeric_to_minor (decimal_of entry.unit_cost_minor) in
    elim (Option-cases (find (is_open_for entry) windows)) [
      | inl fresh ↦
          let (text, table) = inserted_parts entry windows cost (rw fresh at h) in
          (text, table, rw fresh tt)
      | inr ((open_row, end), found) ↦
          elim (Bool-cases (leb entry.effective_from open_row.effective_from)) [
            | inl back ↦ absurd (let e = rw (found, back) at h in cc)
            | inr forward ↦
                let (text, table) = inserted_parts entry windows cost (rw (found, forward) at h) in
                (
                  text,
                  table,
                  rw found (leb-false→lt entry.effective_from open_row.effective_from forward),
                )
          ]
    ]

found_first :
    (other : CostEntry) (row : CostRow) (rest : List Window)
    → is_of_product other row ≡ true
    → find (is_open_for other) ((row, none) ∷ rest) ≡ some (row, none)
found_first other row rest mine =
    let hit : is_open_for other (row, none) ≡ true = ground arith in rw hit refl

passed_by :
    (other : CostEntry) (row : CostRow) (rest : List Window)
    → is_of_product other row ≡ false
    → find (is_open_for other) ((row, none) ∷ rest) ≡ find (is_open_for other) rest
passed_by other row rest foreign =
    let miss : is_open_for other (row, none) ≡ false = ground arith in rw miss refl

put_foreign :
    (other : CostEntry) (row : CostRow) (rest : List Window) (found : Option Window)
    → is_of_product other row ≡ false
    → IsChain other rest found
    → IsChain other ((row, none) ∷ rest) found
put_foreign other row rest none foreign p = (foreign, p)
put_foreign other row rest (some f) foreign p =
    ((λ mine. absurd (let e = sym mine ∙ foreign in cc)), p)

-- The windows of a product that are in force at an instant
abbrev pub in_force : CostEntry → ℕ → Window → Bool
in_force entry at w = is_of_product entry w.0 && covers at w

-- Recording a cost keeps the windows of every product one after the other.
pub record_cost-AreChained :
    (decimal_of : ℤ → Text) (windows : List Window) (entry : CostEntry) {after : List Window}
    → record_cost decimal_of windows entry ≡ recorded after
    → AreChained windows
    → AreChained after
record_cost-AreChained decimal_of windows entry h chained other =
    let (cost, table, later) = recorded_parts decimal_of windows entry h in
    subst (λ (t : List Window). IsChain other t (find (is_open_for other) t)) (sym table)
      (elim (Bool-cases (is_of_product other (cost_row entry cost))) [
        | inl mine ↦
            let same =
              one_product other entry (cost_row entry cost) mine (own_product entry cost) in
            subst (IsChain other ((cost_row entry cost, none) ∷ close_open entry windows))
              (sym (found_first other (cost_row entry cost) (close_open entry windows) mine))
              (
                (λ again. refl),
                chain-ClosedBy entry other windows (find (is_open_for entry) windows)
                    (λ w. same w.0) (chained entry) later,
              )
        | inr foreign ↦
            subst (IsChain other ((cost_row entry cost, none) ∷ close_open entry windows))
              (sym (
                passed_by other (cost_row entry cost) (close_open entry windows) foreign
                ∙ find-other entry other foreign windows))
              (put_foreign other (cost_row entry cost) (close_open entry windows)
                (find (is_open_for other) windows) foreign
                (close_open-other entry other foreign (find (is_open_for other) windows) windows
                  (chained other)))
      ])

ended_by :
    (entry : CostEntry) (row : CostRow) (end : ℕ)
    → (is_of_product entry (closed entry (row, some end)).0 ≡ true
        → EndsBy entry.effective_from (closed entry (row, some end)))
    → is_of_product entry row ≡ true
    → is_open_for entry (row, some end) ≡ false
    → end ≤ entry.effective_from
ended_by entry row end p mine miss =
    subst (EndsBy entry.effective_from)
      (ap (λ b. if b then (row, some entry.effective_from) else (row, some end)) miss)
      (p (closed-product entry entry (row, some end) ∙ mine))

uncovered :
    (entry : CostEntry) (at : ℕ) (w : Window)
    → entry.effective_from ≤ at
    → (is_of_product entry (closed entry w).0 ≡ true → EndsBy entry.effective_from (closed entry w))
    → in_force entry at (closed entry w) ≡ false
uncovered entry at (row, none) from p = elim (Bool-cases (is_open_for entry (row, none))) [
  | inl hit ↦ rw hit (ground arith)
  | inr miss ↦ rw miss (ground arith)
]
uncovered entry at (row, some end) from p =
    let miss : is_open_for entry (row, some end) ≡ false = ground arith in
    elim (Bool-cases (is_of_product entry row)) [
      | inl mine ↦
          let ended : end ≤ entry.effective_from = ended_by entry row end p mine miss in
          rw miss (ground arith)
      | inr foreign ↦ rw miss (ground arith)
    ]

none_covered :
    (entry : CostEntry) (at : ℕ) (windows : List Window)
    → entry.effective_from ≤ at
    → ClosedBy entry entry windows
    → filter (in_force entry at) (close_open entry windows) ≡ []
unfolding close_open
none_covered entry at [] from p = refl
none_covered entry at (w ∷ windows) from p =
    ap
      (λ b.
        if b
        then closed entry w ∷ filter (in_force entry at) (close_open entry windows)
        else filter (in_force entry at) (close_open entry windows))
      (uncovered entry at w from p.0)
    ∙ none_covered entry at windows from p.1

only_new :
    (entry : CostEntry) (cost : Text) (at : ℕ) (windows : List Window)
    → entry.effective_from ≤ at
    → ClosedBy entry entry windows
    → filter (in_force entry at) ((cost_row entry cost, none) ∷ close_open entry windows)
      ≡ (cost_row entry cost, none) ∷ []
only_new entry cost at windows from p =
    let mine = own_product entry cost in
    let here : in_force entry at (cost_row entry cost, none) ≡ true = ground arith in
    rw here (
      ap (λ (t : List Window). (cost_row entry cost, none) ∷ t)
        (none_covered entry at windows from p))

-- Where the windows of each product stand one after the other, a cost that was recorded is the only
-- one of its product from the instant that it takes effect at on.
pub record_cost-takes_over :
    (decimal_of : ℤ → Text) (windows : List Window) (entry : CostEntry) (at : ℕ)
    {after : List Window}
    → record_cost decimal_of windows entry ≡ recorded after
    → AreChained windows
    → entry.effective_from ≤ at
    → (cost : Text) × (filter (in_force entry at) after ≡ (cost_row entry cost, none) ∷ [])
record_cost-takes_over decimal_of windows entry at h chained from =
    let (cost, table, later) = recorded_parts decimal_of windows entry h in
    let ended =
      chain-ClosedBy entry entry windows (find (is_open_for entry) windows) (λ w. refl)
        (chained entry) later in
    (cost, ap (filter (in_force entry at)) table ∙ only_new entry cost at windows from ended)
