-- ===== src/Console/Alerts/Silenced.antt =====
-- apps/ghalla-ops/src/lib/portal/alert-acks.ts: the alerts after an acknowledgement.
use ghalla.Base.{
  ℕ, ◌+◌, ◌≡◌, refl, sym, ap, ◌∙◌, false, List, [], ◌∷◌, Option, some, map, if◌then◌else◌, leb,
  Bool-cases, inl, inr, arith,
}
use ghalla.Base.Text.{Text, eq_text, eq_text_iff}
use ghalla.Base.Dict.{lookup, Apart}
use ghalla.Console.Alerts.{Alert, AckRow, ack_ttl_ms, silence, apply_acks, active_acks, acknowledge}
use ghalla.Console.Alerts.Acks.{keys_of, IsAckTable, ack_of, silence-active}

ack_of-acknowledge :
    (wanted key actor : Text) (remark : Option Text) (rows : List AckRow) (now : ℕ)
    → ack_of wanted (acknowledge rows key actor remark now)
      ≡ (if eq_text key wanted then some now else ack_of wanted rows)
unfolding ack_of acknowledge
ack_of-acknowledge wanted key actor remark [] now = refl
ack_of-acknowledge wanted key actor remark (row ∷ rows) now =
    let rest = ack_of-acknowledge wanted key actor remark rows now in
    elim (Bool-cases (eq_text row.alert_key key)) [
      | inl same ↦
          let both : eq_text row.alert_key wanted ≡ eq_text key wanted =
            ap (λ k. eq_text k wanted) ((eq_text_iff row.alert_key key).0 same) in
          elim (Bool-cases (eq_text key wanted)) [
            | inl hit ↦ rw (same, both, hit) refl
            | inr miss ↦ rw (same, both, miss) refl
          ]
      | inr other ↦ elim (Bool-cases (eq_text row.alert_key wanted)) [
        | inl hit ↦
            let miss : eq_text key wanted ≡ false = ground (
              arith,
              other,
              eq_text_iff row.alert_key key,
              eq_text_iff row.alert_key wanted,
              eq_text_iff key wanted,
            ) in
            rw (other, hit, miss) refl
        | inr miss ↦ rw (other, miss) rest
      ]
    ]

Apart-acknowledge :
    (first key actor : Text) (remark : Option Text) (rows : List AckRow) (now : ℕ)
    → eq_text first key ≡ false
    → Apart first (keys_of rows)
    → Apart first (keys_of (acknowledge rows key actor remark now))
unfolding acknowledge
Apart-acknowledge first key actor remark [] now other apart = (other, tt)
Apart-acknowledge first key actor remark (row ∷ rows) now other apart =
    elim (Bool-cases (eq_text row.alert_key key)) [
      | inl same ↦ rw same apart
      | inr differs ↦
          rw differs (apart.0, Apart-acknowledge first key actor remark rows now other apart.1)
    ]

pub acknowledge-IsAckTable :
    (key actor : Text) (remark : Option Text) (rows : List AckRow) (now : ℕ)
    → IsAckTable rows
    → IsAckTable (acknowledge rows key actor remark now)
unfolding acknowledge
acknowledge-IsAckTable key actor remark [] now table = (tt, tt)
acknowledge-IsAckTable key actor remark (row ∷ rows) now table =
    elim (Bool-cases (eq_text row.alert_key key)) [
      | inl same ↦ rw same table
      | inr other ↦ rw other (
        Apart-acknowledge row.alert_key key actor remark rows now other table.0,
        acknowledge-IsAckTable key actor remark rows now table.1,
      )
    ]

-- An alert as the feed shows it at an instant, given the acknowledgements of the table
abbrev pub shown_at : ℕ → List AckRow → Alert → Alert
shown_at now rows alert = silence alert (lookup alert.key (active_acks rows now)) now

silence-acknowledge :
    (key actor : Text) (remark : Option Text) (rows : List AckRow) (at now : ℕ) (alert : Alert)
    → IsAckTable rows
    → shown_at now (acknowledge rows key actor remark at) alert
      ≡ (if eq_text key alert.key then silence alert (some at) now else shown_at now rows alert)
silence-acknowledge key actor remark rows at now alert table =
    silence-active alert (acknowledge rows key actor remark at) now
      (acknowledge-IsAckTable key actor remark rows at table)
    ∙ (ap (λ o. silence alert o now) (ack_of-acknowledge alert.key key actor remark rows at)
        ∙ elim (Bool-cases (eq_text key alert.key)) [
          | inl mine ↦ rw mine refl
          | inr other ↦ rw other (sym (silence-active alert rows now table))
        ])

-- An operator who acknowledges a key silences the alerts with that key until a day later, whatever
-- was acknowledged before; no other alert changes, none is dropped, and the key stays unique.
pub acknowledge-silences :
    (key actor : Text) (remark : Option Text) (rows : List AckRow) (alerts : List Alert)
    (at now : ℕ)
    → IsAckTable rows
    → IsAckTable (acknowledge rows key actor remark at)
      × (apply_acks alerts (active_acks (acknowledge rows key actor remark at) now) now
          ≡ map
              (λ (alert : Alert).
                if eq_text key alert.key
                then (if leb (at + ack_ttl_ms) now
                    then alert
                    else record alert { acknowledged_until = some (at + ack_ttl_ms) })
                else shown_at now rows alert)
              alerts)
unfolding apply_acks
acknowledge-silences key actor remark rows alerts at now table =
    (acknowledge-IsAckTable key actor remark rows at table, go alerts)
  where
    go :
        (alerts : List Alert)
        → map (shown_at now (acknowledge rows key actor remark at)) alerts
          ≡ map
              (λ (alert : Alert).
                if eq_text key alert.key
                then silence alert (some at) now
                else shown_at now rows alert)
              alerts
    go [] = refl
    go (alert ∷ rest) = rw (silence-acknowledge key actor remark rows at now alert table) (
        ap
          (λ (t : List Alert).
            (if eq_text key alert.key then silence alert (some at) now else shown_at now rows alert)
            ∷ t)
          (go rest))
