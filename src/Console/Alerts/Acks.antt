-- ===== src/Console/Alerts/Acks.antt =====
-- apps/ghalla-ops/src/lib/portal/alert-acks.ts: what an acknowledgement silences, and for how long.
use ghalla.Base.{
  ℕ, ◌+◌, ◌≡◌, refl, ap, ◌∙◌, subst, Bool, true, false, List, [], ◌∷◌, Option, none, some, map,
  filter, if◌then◌else◌, leb, Bool-cases, inl, inr, arith, or_option,
}
use ghalla.Base.Text.{Text, eq_text, eq_text_iff}
use ghalla.Base.Dict.{Dict, lookup, insert, lookup-insert, Apart, Unique}
use ghalla.Console.Alerts.{Alert, AckRow, ack_ttl_ms, silence, ack_map, is_recent, active_acks}

abbrev pub keys_of : List AckRow → List Text
keys_of = map (λ (row : AckRow). row.alert_key)

-- The table has one row for each key: the key is its primary key.
abbrev pub IsAckTable : List AckRow → Type 0
IsAckTable rows = Unique (keys_of rows)

unfoldable pub ack_of : Text → List AckRow → Option ℕ
ack_of key [] = none
ack_of key (row ∷ rows) =
    if eq_text row.alert_key key then some row.acknowledged_at else ack_of key rows

Apart-ack_of : (key : Text) (rows : List AckRow) → Apart key (keys_of rows) → ack_of key rows ≡ none
unfolding ack_of
Apart-ack_of key [] apart = refl
Apart-ack_of key (row ∷ rows) apart =
    let other : eq_text row.alert_key key ≡ false =
      ground (arith, apart.0, eq_text_iff row.alert_key key, eq_text_iff key row.alert_key) in
    rw other (Apart-ack_of key rows apart.1)

lookup-ack_map :
    (key : Text) (rows : List AckRow) (acks : Dict ℕ)
    → IsAckTable rows
    → lookup key (ack_map rows acks) ≡ or_option (ack_of key rows) (lookup key acks)
unfolding ack_map ack_of
lookup-ack_map key [] acks table = refl
lookup-ack_map key (row ∷ rows) acks table =
    let rest = lookup-ack_map key rows (insert row.alert_key row.acknowledged_at acks) table.1 in
    let set = lookup-insert row.alert_key key row.acknowledged_at acks in
    elim (Bool-cases (eq_text row.alert_key key)) [
      | inl same ↦
          let gone : ack_of key rows ≡ none =
            subst (λ k. ack_of k rows ≡ none) ((eq_text_iff row.alert_key key).0 same)
              (Apart-ack_of row.alert_key rows table.0) in
          rest ∙ rw (gone, set, same) refl
      | inr other ↦ rest ∙ rw (set, other) refl
    ]

Apart-filter :
    (key : Text) (test : AckRow → Bool) (rows : List AckRow)
    → Apart key (keys_of rows)
    → Apart key (keys_of (filter test rows))
Apart-filter key test [] apart = tt
Apart-filter key test (row ∷ rows) apart = elim (Bool-cases (test row)) [
  | inl kept ↦ rw kept (apart.0, Apart-filter key test rows apart.1)
  | inr dropped ↦ rw dropped (Apart-filter key test rows apart.1)
]

IsAckTable-filter :
    (test : AckRow → Bool) (rows : List AckRow) → IsAckTable rows → IsAckTable (filter test rows)
IsAckTable-filter test [] table = tt
IsAckTable-filter test (row ∷ rows) table = elim (Bool-cases (test row)) [
  | inl kept ↦
      rw kept (Apart-filter row.alert_key test rows table.0, IsAckTable-filter test rows table.1)
  | inr dropped ↦ rw dropped (IsAckTable-filter test rows table.1)
]

-- An acknowledgement that the query leaves out has expired.
silence-recent :
    (alert : Alert) (key : Text) (rows : List AckRow) (now : ℕ)
    → IsAckTable rows
    → silence alert (ack_of key (filter (is_recent now) rows)) now
      ≡ silence alert (ack_of key rows) now
unfolding ack_of
silence-recent alert key [] now table = refl
silence-recent alert key (row ∷ rows) now table =
    let rest = silence-recent alert key rows now table.1 in
    elim (Bool-cases (is_recent now row)) [
      | inl kept ↦ elim (Bool-cases (eq_text row.alert_key key)) [
        | inl same ↦ rw (kept, same) refl
        | inr other ↦ rw (kept, other) rest
      ]
      | inr dropped ↦ elim (Bool-cases (eq_text row.alert_key key)) [
        | inl same ↦
            let gone : ack_of key (filter (is_recent now) rows) ≡ none =
              subst (λ k. ack_of k (filter (is_recent now) rows) ≡ none)
                ((eq_text_iff row.alert_key key).0 same)
                (Apart-ack_of row.alert_key (filter (is_recent now) rows)
                  (Apart-filter row.alert_key (is_recent now) rows table.0)) in
            let over : leb (row.acknowledged_at + ack_ttl_ms) now ≡ true =
              ground (arith, dropped) in
            rw (dropped, same, gone, over) refl
        | inr other ↦ rw (dropped, other) rest
      ]
    ]

pub silence-active :
    (alert : Alert) (rows : List AckRow) (now : ℕ)
    → IsAckTable rows
    → silence alert (lookup alert.key (active_acks rows now)) now
      ≡ silence alert (ack_of alert.key rows) now
unfolding active_acks lookup
silence-active alert rows now table =
    ap (λ o. silence alert o now)
      (lookup-ack_map alert.key (filter (is_recent now) rows) []
          (IsAckTable-filter (is_recent now) rows table)
        ∙ or_none (ack_of alert.key (filter (is_recent now) rows)))
    ∙ silence-recent alert alert.key rows now table
  where
    or_none : (o : Option ℕ) → or_option o none ≡ o
    or_none none = refl
    or_none (some n) = refl
