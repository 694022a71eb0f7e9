-- ===== src/Persistence/Queue/Rows.antt =====
-- Updates of the rows of the queue: what they keep, and rows that are found by their ids.
use ghalla.Base.{
  ◌≡◌, refl, ap, Bool, true, false, ◌&&◌, ◌||◌, List, [], ◌∷◌, map, if◌then◌else◌, All, Bool-cases,
  inl, inr, arith,
}
use ghalla.Base.Text.{Text, eq_text, eq_text_iff}
use ghalla.Base.Dict.{Apart}
use ghalla.Persistence.Queue.{WebhookRow, update_where, has_event}
use ghalla.Persistence.Queue.Claim.{row_ids, HasUniqueIds}

-- A key of the unique index
abbrev pub Event : Type 0
Event = Text × Text

abbrev pub event_of : WebhookRow → Event
event_of row = (row.store_id, row.platform_event_id)

abbrev pub eq_event : Event → Event → Bool
eq_event (store, event) (other, another) = eq_text store other && eq_text event another

unfoldable pub knows : List Event → Event → Bool
knows [] event = false
knows (known ∷ log) event = eq_event known event || knows log event

abbrev pub IsDistinct : List Event → Type 0
IsDistinct [] = Unit
IsDistinct (event ∷ log) = (knows log event ≡ false) × IsDistinct log

-- The deliveries that the table has accepted
abbrev pub log_of : List WebhookRow → List Event
log_of = map event_of

pub knows-log :
    (store event : Text) (rows : List WebhookRow)
    → has_event store event rows ≡ knows (log_of rows) (store, event)
unfolding has_event knows
knows-log store event [] = refl
knows-log store event (row ∷ rows) =
    ap (λ b. eq_event (event_of row) (store, event) || b) (knows-log store event rows)

-- A setter that leaves the identity of a row alone
abbrev pub KeepsIdentity : (WebhookRow → WebhookRow) → Type 0
KeepsIdentity set =
    (row : WebhookRow) → ((set row).id ≡ row.id) × (event_of (set row) ≡ event_of row)

module _ (test : WebhookRow → Bool) (set : WebhookRow → WebhookRow)
    (keeps : KeepsIdentity set) where
  one-ids : (row : WebhookRow) (b : Bool) → (if b then set row else row).id ≡ row.id
  one-ids row true = (keeps row).0
  one-ids row false = refl

  one-event : (row : WebhookRow) (b : Bool) → event_of (if b then set row else row) ≡ event_of row
  one-event row true = (keeps row).1
  one-event row false = refl

  pub update_where-ids :
      (rows : List WebhookRow) → row_ids (update_where test set rows) ≡ row_ids rows
  unfolding update_where
  update_where-ids [] = refl
  update_where-ids (row ∷ rows) = λ i. one-ids row (test row) i ∷ update_where-ids rows i

  pub update_where-log :
      (rows : List WebhookRow) → log_of (update_where test set rows) ≡ log_of rows
  unfolding update_where
  update_where-log [] = refl
  update_where-log (row ∷ rows) = λ i. one-event row (test row) i ∷ update_where-log rows i

pub anyway : (rows : List WebhookRow) → All (λ (row : WebhookRow). Unit {0}) rows
anyway [] = tt
anyway (row ∷ rows) = (tt, anyway rows)

-- What an update makes of each row holds of all of them.
pub update_where-All :
    (P Q : WebhookRow → Type 0) (test : WebhookRow → Bool) (set : WebhookRow → WebhookRow)
    → ((row : WebhookRow) → P row → test row ≡ true → Q (set row))
    → ((row : WebhookRow) → P row → test row ≡ false → Q row)
    → (rows : List WebhookRow) → All P rows
    → All Q (update_where test set rows)
unfolding update_where
update_where-All P Q test set changed kept [] p = tt
update_where-All P Q test set changed kept (row ∷ rows) p =
    let rest = update_where-All P Q test set changed kept rows p.1 in
    elim (Bool-cases (test row)) [
      | inl hit ↦ rw hit (changed row p.0 hit, rest)
      | inr miss ↦ rw miss (kept row p.0 miss, rest)
    ]

-- Rows with one id are one row.
abbrev pub IsRowOf : WebhookRow → WebhookRow → Type 0
IsRowOf read row = eq_text row.id read.id ≡ true → row ≡ read

apart-IsRowOf :
    (read : WebhookRow) (rows : List WebhookRow)
    → Apart read.id (row_ids rows)
    → All (IsRowOf read) rows
apart-IsRowOf read [] p = tt
apart-IsRowOf read (row ∷ rows) p = (
  λ same. absurd (ground (arith, eq_text_iff row.id read.id, eq_text_iff read.id row.id, p.0)),
  apart-IsRowOf read rows p.1,
)

joined :
    (row : WebhookRow) (reads rows : List WebhookRow)
    → Apart row.id (row_ids reads)
    → All (λ read. All (IsRowOf read) rows) reads
    → All (λ read. All (IsRowOf read) (row ∷ rows)) reads
joined row [] rows p all = tt
joined row (read ∷ reads) rows p all =
    (((λ same. absurd (ground (arith, p.0))), all.0), joined row reads rows p.1 all.1)

pub HasUniqueIds-rows :
    (rows : List WebhookRow) → HasUniqueIds rows → All (λ read. All (IsRowOf read) rows) rows
HasUniqueIds-rows [] u = tt
HasUniqueIds-rows (row ∷ rows) u = (
  ((λ same. refl), apart-IsRowOf row rows u.0),
  joined row rows rows u.0 (HasUniqueIds-rows rows u.1),
)
