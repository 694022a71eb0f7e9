-- ===== src/Base/Dict.antt =====
-- JavaScript's `Map` with string keys, in insertion order.
use mathlib.Core.Path.{◌≡◌, refl}
use mathlib.Core.Bool.{Bool, true, false, ◌||◌}
use mathlib.Core.Option.{Option, none, some}
use mathlib.Core.List.{List, [], ◌∷◌}
use native.Mathlib.Omega.{arith}
use ghalla.Base.Tests.{if◌then◌else◌}
use ghalla.Base.Lists.{All}
use ghalla.Base.Text.{Text, eq_text, eq_text_iff, eq_text_refl}

abbrev pub Dict {ℓ} : Type ℓ → Type ℓ
Dict V = List (Text × V)

-- `set.has(k)` for a set or a list of strings
unfoldable pub has : Text → List Text → Bool
has k [] = false
has k (j ∷ ks) = eq_text j k || has k ks

-- No key of a list is `k`.
abbrev pub Apart : Text → List Text → Type 0
Apart k ks = All (λ j. eq_text k j ≡ false) ks

abbrev pub Unique : List Text → Type 0
Unique [] = Unit
Unique (k ∷ ks) = Apart k ks × Unique ks

-- `[...new Set(texts)]`: the first of each text
abbrev pub dedupe_from : List Text → List Text → List Text
dedupe_from seen [] = []
dedupe_from seen (t ∷ ts) = elim (has t seen) [
  | true ↦ dedupe_from seen ts
  | false ↦ t ∷ dedupe_from (t ∷ seen) ts
]

module _ {ℓ} {V : Type ℓ} where
  -- `m.get(k)`
  unfoldable pub lookup : Text → Dict V → Option V
  lookup k [] = none
  lookup k ((j, v) ∷ m) = if eq_text j k then some v else lookup k m

  -- `m.set(k, v)`
  unfoldable pub insert : Text → V → Dict V → Dict V
  insert k v [] = (k, v) ∷ []
  insert k v ((j, w) ∷ m) = if eq_text j k then (j, v) ∷ m else (j, w) ∷ insert k v m

  -- `m.delete(k)`
  unfoldable pub erase : Text → Dict V → Dict V
  erase k [] = []
  erase k ((j, w) ∷ m) = if eq_text j k then m else (j, w) ∷ erase k m

  abbrev pub insert_all : List (Text × V) → Dict V → Dict V
  insert_all [] m = m
  insert_all ((k, v) ∷ es) m = insert_all es (insert k v m)

  -- `new Map(entries)`
  abbrev pub of_entries : List (Text × V) → Dict V
  of_entries es = insert_all es []

  -- What was set under a key is found under it, and nothing else changes.
  pub lookup-insert :
      (key wanted : Text) (new : V) (entries : Dict V)
      → lookup wanted (insert key new entries)
        ≡ (if eq_text key wanted then some new else lookup wanted entries)
  unfolding insert lookup
  lookup-insert key wanted new ((first, old) ∷ entries) =
      let rest = lookup-insert key wanted new entries in
      ground (arith, eq_text_iff first wanted, eq_text_iff first key, eq_text_iff key wanted, rest)
  lookup-insert key wanted new [] = refl

  pub lookup-insert_self : (k : Text) (v : V) (m : Dict V) → lookup k (insert k v m) ≡ some v
  lookup-insert_self k v m = simp (lookup-insert, eq_text_refl)
