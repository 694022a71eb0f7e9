-- ===== src/Engine/Normalize/Accepted.antt =====
-- packages/core/src/engine/normalize.ts: what holds of the items of an input that is accepted.
use ghalla.Base.{
  ◌≡◌, refl, Bool, true, false, not, List, [], ◌∷◌, ◌++◌, map, is_empty, All, Bool-cases, inl, inr,
}
use ghalla.Base.Int.{ℤ}
use ghalla.Base.Text.{Text, eq_text}
use ghalla.Base.Dict.{has}
use ghalla.Money.{is_minor, is_safe_integer, has_duplicate}
use ghalla.Contracts.Canonical.{CanonicalOrderItem}
use ghalla.Engine.Input.{OrderProfitInput}
use ghalla.Engine.Diagnostics.{Diagnostic, DiagnosticCode, Subject, diagnostic, on_line}
use ghalla.Engine.Normalize.{
  NormalizedInput, accepted, normalize_and_validate, fatal_diagnostics, check_header,
}
use ghalla.Engine.Normalize.Fatal.{fatal_if, is_negative, invalid_amounts, quantity_checks}
use ghalla.Engine.Normalize.Checks.{check_items, item_checks}

empty_parts :
    {A : Type 0} (xs ys : List A)
    → is_empty (xs ++ ys) ≡ true
    → (is_empty xs ≡ true) × (is_empty ys ≡ true)
empty_parts [] ys h = (refl, h)
empty_parts (x ∷ xs) ys h = cc

fatal_if-empty : (bad : Bool) (d : Diagnostic) → is_empty (fatal_if bad d) ≡ true → bad ≡ false
fatal_if-empty true d h = cc
fatal_if-empty false d h = refl

not-false : (b : Bool) → not b ≡ false → b ≡ true
not-false true h = refl
not-false false h = cc

invalid_amounts-empty :
    (s : Subject) (vs : List ℤ)
    → is_empty (invalid_amounts s vs) ≡ true
    → All (λ v. is_minor v ≡ true) vs
unfolding invalid_amounts
invalid_amounts-empty s [] h = tt
invalid_amounts-empty s (v ∷ vs) h =
    let d = diagnostic DiagnosticCode.non_integer_minor_units s in
    let (here, later) = empty_parts (fatal_if (not (is_minor v)) d) (invalid_amounts s vs) h in
    (
      not-false (is_minor v) (fatal_if-empty (not (is_minor v)) d here),
      invalid_amounts-empty s vs later,
    )

quantity_checks-empty :
    (s : Subject) (q : ℤ) → is_empty (quantity_checks s q) ≡ true → is_negative q ≡ false
quantity_checks-empty s q h = elim (Bool-cases (not (is_safe_integer q))) [
  | inl e ↦ absurd (let h₁ = rw e at h in cc)
  | inr e ↦
      fatal_if-empty (is_negative q) (diagnostic DiagnosticCode.negative_quantity s) (rw e at h)
]

-- The item belongs to the order, counts at least nothing, and its amounts are in the range of money.
abbrev pub IsItemOf : Text → CanonicalOrderItem → Type 0
IsItemOf order_id i =
    (eq_text i.order_id order_id ≡ true)
    × (is_negative i.quantity ≡ false)
    × All (λ v. is_minor v ≡ true)
        (i.unit_price_ex_vat_minor ∷ i.gross_line_ex_vat_minor ∷ i.line_discount_ex_vat_minor
          ∷ i.line_total_ex_vat_minor ∷ [])

item_checks-empty :
    (order_id : Text) (ids lines : List Text) (i : CanonicalOrderItem)
    → is_empty (item_checks order_id ids lines i) ≡ true
    → (has i.id ids ≡ false) × (has i.platform_line_id lines ≡ false) × IsItemOf order_id i
item_checks-empty order_id ids lines i h =
    let (a, h₁) = empty_parts (fatal_if (not (eq_text i.order_id order_id)) _) _ h in
    let (b, h₂) = empty_parts (fatal_if (has i.id ids) _) _ h₁ in
    let (c, h₃) = empty_parts (fatal_if (has i.platform_line_id lines) _) _ h₂ in
    let (d, h₄) = empty_parts (quantity_checks (on_line i.id) i.quantity) _ h₃ in
    (
      fatal_if-empty (has i.id ids) _ b,
      fatal_if-empty (has i.platform_line_id lines) _ c,
      (
        not-false (eq_text i.order_id order_id) (fatal_if-empty _ _ a),
        quantity_checks-empty (on_line i.id) i.quantity d,
        invalid_amounts-empty (on_line i.id) _ h₄,
      ),
    )

check_items-empty :
    (order_id : Text) (ids lines : List Text) (items : List CanonicalOrderItem)
    → is_empty (check_items order_id ids lines items) ≡ true
    → (has_duplicate ids (map (λ i. i.id) items) ≡ false)
      × (has_duplicate lines (map (λ i. i.platform_line_id) items) ≡ false)
      × All (IsItemOf order_id) items
unfolding check_items has_duplicate
check_items-empty order_id ids lines [] h = (refl, refl, tt)
check_items-empty order_id ids lines (i ∷ items) h =
    let (here, later) = empty_parts (item_checks order_id ids lines i) _ h in
    let (fresh, new_line, good) = item_checks-empty order_id ids lines i here in
    let (distinct, distinct_lines, rest) =
      check_items-empty order_id (i.id ∷ ids) (i.platform_line_id ∷ lines) items later in
    (rw (fresh, distinct) refl, rw (new_line, distinct_lines) refl, (good, rest))

accepted-empty :
    (input : OrderProfitInput) {n : NormalizedInput}
    → normalize_and_validate input ≡ accepted n
    → is_empty (fatal_diagnostics input) ≡ true
unfolding normalize_and_validate
accepted-empty input h = elim (Bool-cases (is_empty (fatal_diagnostics input))) [
  | inl e ↦ e
  | inr e ↦ absurd (let h₁ = rw e at h in cc)
]

-- Where an input is accepted, no two items have one id or one line id on the platform, and every
-- item belongs to the order, counts at least nothing and has its amounts in the range of money.
pub normalize_and_validate-items :
    (input : OrderProfitInput) {n : NormalizedInput}
    → normalize_and_validate input ≡ accepted n
    → (has_duplicate [] (map (λ i. i.id) input.items) ≡ false)
      × (has_duplicate [] (map (λ i. i.platform_line_id) input.items) ≡ false)
      × All (IsItemOf input.order.id) input.items
unfolding fatal_diagnostics
normalize_and_validate-items input h =
    let (header, h₁) = empty_parts (check_header input) _ (accepted-empty input h) in
    let (items, h₂) = empty_parts (check_items input.order.id [] [] input.items) _ h₁ in
    check_items-empty input.order.id [] [] input.items items
