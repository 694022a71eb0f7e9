-- ===== src/Persistence/Queue/Exclusive.antt =====
-- Two claims of the queue of packages/persistence/src/repositories/webhook-event.repository.ts.
use ghalla.Base.{
  ℕ, ◌≡◌, refl, sym, ◌∙◌, subst, Bool, true, false, List, [], ◌∷◌, map, filter, leb, is_empty, All,
  All-both, All-map, All-weaken, filter-All, Bool-cases, inl, inr, arith,
}
use ghalla.Base.Text.{Text, eq_text, eq_text_iff}
use ghalla.Base.Dict.{has, Unique}
use ghalla.Persistence.Queue.{WebhookRow, update_where, is_processing}
use ghalla.Persistence.Queue.Claim.{
  DueQuery, HasUniqueIds, WebhookEventRecord, record_of, is_due, claim, claim_ids, set_claimed,
}
use ghalla.Persistence.Queue.Rows.{update_where-All, anyway, update_where-ids}

abbrev pub record_ids : List WebhookEventRecord → List Text
record_ids = map (λ (r : WebhookEventRecord). r.id)

abbrev chosen : List Text → WebhookRow → Bool
chosen ids row = has row.id ids

-- Only rows whose ids were selected are returned.
has-returned :
    (id : Text) (ids : List Text) (rows : List WebhookRow)
    → has id (record_ids (map record_of (filter (chosen ids) rows))) ≡ true
    → has id ids ≡ true
unfolding has
has-returned id ids [] h = cc
has-returned id ids (row ∷ rows) h = elim (Bool-cases (chosen ids row)) [
  | inl hit ↦ elim (Bool-cases (eq_text row.id id)) [
    | inl same ↦ subst (λ (t : Text). has t ids ≡ true) ((eq_text_iff row.id id).0 same) hit
    | inr other ↦ has-returned id ids rows (rw (hit, other) at h)
  ]
  | inr miss ↦ has-returned id ids rows (rw miss at h)
]

-- A row that a claim takes is being processed after it.
claimed-processing :
    (ids : List Text) (now : ℕ) (rows : List WebhookRow)
    → All
        (λ row. chosen ids row ≡ true → is_processing row.status ≡ true)
        (update_where (chosen ids) (set_claimed now) rows)
claimed-processing ids now rows =
    update_where-All (λ row. Unit {0})
      (λ row. chosen ids row ≡ true → is_processing row.status ≡ true) (chosen ids)
      (set_claimed now) (λ row p hit again. refl)
      (λ row p miss hit. absurd (let e = sym miss ∙ hit in cc)) rows (anyway rows)

not_returned :
    (row : WebhookRow) (ids : List Text) (now : ℕ) (after : List WebhookRow)
    → (has row.id ids ≡ true → is_due now row ≡ true)
    → is_processing row.status ≡ true
    → has row.id (record_ids (map record_of (filter (chosen ids) after))) ≡ false
not_returned row ids now after only busy =
    elim (Bool-cases (has row.id (record_ids (map record_of (filter (chosen ids) after))))) [
      | inl returned ↦
          absurd (let due = only (has-returned row.id ids after returned) in ground arith)
      | inr absent ↦ absent
    ]

nobody :
    (rows : List WebhookRow)
    → All (λ row. is_processing row.status ≡ true → has row.id [] ≡ false) rows
unfolding has
nobody [] = tt
nobody (row ∷ rows) = ((λ busy. refl), nobody rows)

claim-apart :
    (query : DueQuery) (rows : List WebhookRow) (limit now : ℕ)
    → HasUniqueIds rows
    → All
        (λ row.
          is_processing row.status ≡ true
          → has row.id (record_ids (claim query rows limit now).1) ≡ false)
        rows
unfolding claim has
claim-apart query rows limit now unique =
    let ids = query.select_due rows now limit in
    elim (Bool-cases (leb limit 0)) [
      | inl nothing ↦ rw nothing (nobody rows)
      | inr left ↦ elim (Bool-cases (is_empty ids)) [
        | inl nothing ↦ rw (left, nothing) (nobody rows)
        | inr due ↦
            rw (left, due)
              (All-weaken (λ row. has row.id ids ≡ true → is_due now row ≡ true)
                (λ row.
                  is_processing row.status ≡ true
                  → has row.id (record_ids (claim_ids rows ids now).1) ≡ false)
                rows
                (λ row only busy.
                  not_returned row ids now (update_where (chosen ids) (set_claimed now) rows) only
                    busy)
                (query.selects_due rows now limit unique))
      ]
    ]

claimed-apart :
    (query : DueQuery) (rows : List WebhookRow) (ids : List Text) (now another later : ℕ)
    → HasUniqueIds rows
    → All
        (λ (event : WebhookEventRecord).
          has event.id (
            record_ids
              (claim query (update_where (chosen ids) (set_claimed now) rows) another later).1)
          ≡ false)
        (map record_of (filter (chosen ids) (update_where (chosen ids) (set_claimed now) rows)))
claimed-apart query rows ids now another later unique =
    let after = update_where (chosen ids) (set_claimed now) rows in
    let next = record_ids (claim query after another later).1 in
    let busy = claimed-processing ids now rows in
    let apart = claim-apart query after another later (
      subst Unique
        (sym (update_where-ids (chosen ids) (set_claimed now) (λ row. (refl, refl)) rows))
        unique) in
    All-map (λ (event : WebhookEventRecord). has event.id next ≡ false) record_of
      (filter (chosen ids) after)
      (filter-All (λ row. has row.id next ≡ false) (chosen ids) after
        (All-weaken
          (λ row.
            (chosen ids row ≡ true → is_processing row.status ≡ true)
            × (is_processing row.status ≡ true → has row.id next ≡ false))
          (λ row. chosen ids row ≡ true → has row.id next ≡ false) after
          (λ row p hit. p.1 (p.0 hit))
          (All-both (λ row. chosen ids row ≡ true → is_processing row.status ≡ true)
            (λ row. is_processing row.status ≡ true → has row.id next ≡ false) after busy apart)))

-- Two claims, one right after the other, have no event in common, whatever their limits and times.
pub claim-claim :
    (query : DueQuery) (rows : List WebhookRow) (limit now another later : ℕ)
    → HasUniqueIds rows
    → All
        (λ (event : WebhookEventRecord).
          has event.id (record_ids (claim query (claim query rows limit now).0 another later).1)
          ≡ false)
        (claim query rows limit now).1
unfolding claim
claim-claim query rows limit now another later unique =
    let ids = query.select_due rows now limit in
    elim (Bool-cases (leb limit 0)) [
      | inl nothing ↦ rw nothing tt
      | inr left ↦ elim (Bool-cases (is_empty ids)) [
        | inl nothing ↦ rw (left, nothing) tt
        | inr due ↦ rw (left, due) (claimed-apart query rows ids now another later unique)
      ]
    ]
