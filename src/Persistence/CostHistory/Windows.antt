-- ===== src/Persistence/CostHistory/Windows.antt =====
-- The windows of one product, as `record` of
-- packages/persistence/src/repositories/cost-history.repository.ts keeps them.
use ghalla.Base.{
  ℕ, ◌<◌, ◌≤◌, ◌≡◌, refl, sym, ap, ◌∙◌, subst, Bool, true, false, ◌&&◌, List, [], ◌∷◌, Option, none,
  some, find, if◌then◌else◌, All, Bool-cases, inl, inr, arith,
}
use ghalla.Base.Text.{Text, eq_text, eq_text_iff, eq_text_refl, eq_option_text}
use ghalla.Persistence.CostHistory.{
  CostEntry, CostRow, Window, is_of_product, is_open_for, close_open, cost_row,
}

-- A window ends at an instant or before it; an open one starts there.
abbrev pub EndsBy : ℕ → Window → Type 0
EndsBy start (row, none) = row.effective_from ≡ start
EndsBy start (row, some end) = end ≤ start

-- The windows of the product of an entry: none at all, or an open one after all the others
abbrev pub IsChain : CostEntry → List Window → Option Window → Type 0
IsChain entry windows none = All (λ (w : Window). is_of_product entry w.0 ≡ false) windows
IsChain entry windows (some (open_row, end)) =
    All (λ (w : Window). is_of_product entry w.0 ≡ true → EndsBy open_row.effective_from w) windows

abbrev pub AreChained : List Window → Type 0
AreChained windows = (entry : CostEntry) → IsChain entry windows (find (is_open_for entry) windows)

eq_option_text-same : (a b : Option Text) → eq_option_text a b ≡ true → a ≡ b
eq_option_text-same none none h = refl
eq_option_text-same none (some b) h = cc
eq_option_text-same (some a) none h = cc
eq_option_text-same (some a) (some b) h = ap (λ (t : Text). some t) ((eq_text_iff a b).0 h)

eq_option_text_refl : (a : Option Text) → eq_option_text a a ≡ true
eq_option_text_refl none = refl
eq_option_text_refl (some a) = eq_text_refl a

and_parts : (a b c : Bool) → (a && b && c) ≡ true → (a ≡ true) × (b ≡ true) × (c ≡ true)
and_parts true true true h = (refl, refl, refl)
and_parts true true false h = cc
and_parts true false c h = cc
and_parts false b c h = cc

-- Two entries that a row is of are of one product.
pub one_product :
    (a b : CostEntry) (row : CostRow)
    → is_of_product a row ≡ true
    → is_of_product b row ≡ true
    → (other : CostRow) → is_of_product a other ≡ is_of_product b other
one_product a b row p q other =
    let (store, product, variant) =
      and_parts (eq_text row.store_id a.store_id)
        (eq_text row.platform_product_id a.platform_product_id)
        (eq_option_text a.platform_variant_id row.platform_variant_id) p in
    let (store', product', variant') =
      and_parts (eq_text row.store_id b.store_id)
        (eq_text row.platform_product_id b.platform_product_id)
        (eq_option_text b.platform_variant_id row.platform_variant_id) q in
    let same_store =
      sym ((eq_text_iff row.store_id a.store_id).0 store)
      ∙ (eq_text_iff row.store_id b.store_id).0 store' in
    let same_product =
      sym ((eq_text_iff row.platform_product_id a.platform_product_id).0 product)
      ∙ (eq_text_iff row.platform_product_id b.platform_product_id).0 product' in
    let same_variant =
      eq_option_text-same a.platform_variant_id row.platform_variant_id variant
      ∙ sym (eq_option_text-same b.platform_variant_id row.platform_variant_id variant') in
    λ i.
      eq_text other.store_id (same_store i)
      && eq_text other.platform_product_id (same_product i)
      && eq_option_text (same_variant i) other.platform_variant_id

pub own_product :
    (entry : CostEntry) (cost : Text) → is_of_product entry (cost_row entry cost) ≡ true
own_product entry cost =
    rw
      (
        eq_text_refl entry.store_id,
        eq_text_refl entry.platform_product_id,
        eq_option_text_refl entry.platform_variant_id,
      )
      refl

open_parts :
    (entry : CostEntry) (w : Window)
    → is_open_for entry w ≡ true
    → (is_of_product entry w.0 ≡ true) × (w.1 ≡ none)
open_parts entry (row, none) h = (ground arith, refl)
open_parts entry (row, some end) h = absurd (ground arith)

module _ (entry : CostEntry) where
  abbrev pub closed : Window → Window
  closed w = if is_open_for entry w then (w.0, some entry.effective_from) else w

  -- Windows of another product are not touched.
  other-closed :
      (other : CostEntry) (w : Window)
      → is_of_product other (cost_row entry []) ≡ false
      → is_of_product other w.0 ≡ true
      → closed w ≡ w
  other-closed other w apart mine = elim (Bool-cases (is_open_for entry w)) [
    | inl hit ↦ absurd (
        let same =
          one_product other entry w.0 mine (open_parts entry w hit).0 (cost_row entry []) in
        let e = sym apart ∙ (same ∙ own_product entry []) in cc)
    | inr miss ↦ rw miss refl
  ]

  pub closed-product :
      (other : CostEntry) (w : Window) → is_of_product other (closed w).0 ≡ is_of_product other w.0
  closed-product other w = elim (Bool-cases (is_open_for entry w)) [
    | inl hit ↦ rw hit refl
    | inr miss ↦ rw miss refl
  ]

  -- A window of the product ends by the start of the new one.
  own-closed :
      (start : ℕ) (w : Window)
      → start < entry.effective_from
      → is_of_product entry w.0 ≡ true
      → EndsBy start w
      → EndsBy entry.effective_from (closed w)
  own-closed start (row, none) later mine p =
      let hit : is_open_for entry (row, none) ≡ true = ground arith in rw hit (omega arith)
  own-closed start (row, some end) later mine p =
      let miss : is_open_for entry (row, some end) ≡ false = ground arith in
      rw miss (omega (arith, later))

  pub close_open-own :
      (start : ℕ) (other : CostEntry) (windows : List Window)
      → ((w : Window) → is_of_product other w.0 ≡ is_of_product entry w.0)
      → start < entry.effective_from
      → All (λ (w : Window). is_of_product entry w.0 ≡ true → EndsBy start w) windows
      → All
          (λ (w : Window). is_of_product other w.0 ≡ true → EndsBy entry.effective_from w)
          (close_open entry windows)
  unfolding close_open
  close_open-own start other [] same later p = tt
  close_open-own start other (w ∷ windows) same later p = (
    λ mine.
        let ours = sym (same w) ∙ (sym (closed-product other w) ∙ mine) in
        own-closed start w later ours (p.0 ours),
    close_open-own start other windows same later p.1,
  )

  -- A product of which there was nothing
  pub close_open-fresh :
      (other : CostEntry) (windows : List Window)
      → ((w : Window) → is_of_product other w.0 ≡ is_of_product entry w.0)
      → All (λ (w : Window). is_of_product entry w.0 ≡ false) windows
      → All
          (λ (w : Window). is_of_product other w.0 ≡ true → EndsBy entry.effective_from w)
          (close_open entry windows)
  unfolding close_open
  close_open-fresh other [] same p = tt
  close_open-fresh other (w ∷ windows) same p = (
    λ mine. absurd (let e = sym mine ∙ (closed-product other w ∙ (same w ∙ p.0)) in cc),
    close_open-fresh other windows same p.1,
  )

  module _ (other : CostEntry) (apart : is_of_product other (cost_row entry []) ≡ false) where
    not_open : (w : Window) → is_of_product other w.0 ≡ false → is_open_for other w ≡ false
    not_open (row, end) h = ground arith

    pub find-other :
        (windows : List Window)
        → find (is_open_for other) (close_open entry windows) ≡ find (is_open_for other) windows
    unfolding close_open
    find-other [] = refl
    find-other (w ∷ windows) = elim (Bool-cases (is_of_product other w.0)) [
      | inl mine ↦
          ap (λ v. find (is_open_for other) (v ∷ close_open entry windows))
            (other-closed other w apart mine)
          ∙ ap (λ rest. if is_open_for other w then some w else rest) (find-other windows)
      | inr foreign ↦
          ap
            (λ b.
              if b then some (closed w) else find (is_open_for other) (close_open entry windows))
            (not_open (closed w) (closed-product other w ∙ foreign))
          ∙ (find-other windows
              ∙ sym (
                  ap (λ b. if b then some w else find (is_open_for other) windows)
                    (not_open w foreign)))
    ]

    pub close_open-other :
        (found : Option Window) (windows : List Window)
        → IsChain other windows found
        → IsChain other (close_open entry windows) found
    unfolding close_open
    close_open-other none [] p = tt
    close_open-other (some f) [] p = tt
    close_open-other none (w ∷ windows) p =
        (closed-product other w ∙ p.0, close_open-other none windows p.1)
    close_open-other (some (row, end)) (w ∷ windows) p = (
      λ mine.
          let ours = sym (closed-product other w) ∙ mine in
          subst (EndsBy row.effective_from) (sym (other-closed other w apart ours)) (p.0 ours),
      close_open-other (some (row, end)) windows p.1,
    )
