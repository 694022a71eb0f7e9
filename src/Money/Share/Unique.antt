-- ===== src/Money/Share/Unique.antt =====
-- Keys without duplicates, as `allocateMinor` checks them, and what a map with such keys holds.
use ghalla.Base.{
  ◌≡◌, refl, Bool, false, ◌||◌, List, [], ◌∷◌, ◌++◌, Option, none, some, arith, All, ap, sym, ◌∙◌,
}
use ghalla.Base.Text.{Text, eq_text, eq_text_iff, eq_text_refl}
use ghalla.Base.Int.{ℤ, pos, total_by}
pub use ghalla.Base.Dict.{Apart, Unique}
use ghalla.Base.Dict.{Dict, has, lookup, insert, insert_all, of_entries}
use ghalla.Money.Allocate.{has_duplicate}

-- None of the keys has been seen.
abbrev Unseen : List Text → List Text → Type 0
Unseen seen ks = All (λ k. has k seen ≡ false) ks

Unseen-split :
    (seen : List Text) (k : Text) (ks : List Text)
    → Unseen (k ∷ seen) ks
    → Unseen seen ks × Apart k ks
unfolding has
Unseen-split seen k [] p = (tt, tt)
Unseen-split seen k (j ∷ ks) p = ground (arith, Unseen-split seen k ks p.1)

or_parts : (a b : Bool) → (a || b) ≡ false → (a ≡ false) × (b ≡ false)
or_parts a b h = ground arith

has_duplicate-Unseen :
    (seen ks : List Text) → has_duplicate seen ks ≡ false → Unseen seen ks × Unique ks
unfolding has_duplicate
has_duplicate-Unseen seen [] h = (tt, tt)
has_duplicate-Unseen seen (k ∷ ks) h =
    let (here, later) = or_parts (has k seen) (has_duplicate (k ∷ seen) ks) h in
    let (apart, distinct) = has_duplicate-Unseen (k ∷ seen) ks later in
    let (old, new) = Unseen-split seen k ks apart in ((here, old), (new, distinct))

pub Unique-of_check : (ks : List Text) → has_duplicate [] ks ≡ false → Unique ks
Unique-of_check ks h = (has_duplicate-Unseen [] ks h).1

module _ {ℓ} {V : Type ℓ} where
  abbrev pub keys : Dict V → List Text
  keys [] = []
  keys ((k, v) ∷ m) = k ∷ keys m

  -- `m.get(k)?.field ?? 0`
  abbrev pub read : (V → ℤ) → Option V → ℤ
  read f none = pos 0
  read f (some v) = f v

  abbrev pub value_at : (V → ℤ) → Dict V → Text → ℤ
  value_at f m k = read f (lookup k m)

  total_by-skip :
      (f : V → ℤ) (k : Text) (v : V) (m : Dict V) (ks : List Text)
      → Apart k ks
      → total_by (value_at f ((k, v) ∷ m)) ks ≡ total_by (value_at f m) ks
  unfolding lookup
  total_by-skip f k v m [] p = refl
  total_by-skip f k v m (j ∷ ks) p = rw (p.0, total_by-skip f k v m ks p.1) refl

  -- Read by its own keys, a map with unique keys gives each of its values once.
  pub total_by-keys :
      (f : V → ℤ) (m : Dict V)
      → Unique (keys m)
      → total_by (value_at f m) (keys m) ≡ total_by (λ (e : Text × V). f e.1) m
  unfolding lookup
  total_by-keys f [] u = refl
  total_by-keys f ((k, v) ∷ m) u =
      rw (eq_text_refl k, total_by-skip f k v m (keys m) u.0, total_by-keys f m u.1) refl

  insert_new :
      (k : Text) (v : V) (m : Dict V) → Apart k (keys m) → insert k v m ≡ m ++ ((k, v) ∷ [])
  unfolding insert
  insert_new k v [] p = refl
  insert_new k v ((j, w) ∷ m) p =
      let other : eq_text j k ≡ false = ground (arith, eq_text_iff j k, eq_text_iff k j, p.0) in
      rw (other, insert_new k v m p.1) refl

  -- Every key of the entries is apart from every key of the map.
  abbrev Fresh : List (Text × V) → Dict V → Type 0
  Fresh es m = All (λ (e : Text × V). Apart e.0 (keys m)) es

  append-Apart :
      (j k : Text) (v : V) (m : Dict V)
      → Apart j (keys m)
      → eq_text k j ≡ false
      → Apart j (keys (m ++ ((k, v) ∷ [])))
  append-Apart j k v [] p h = (ground (arith, eq_text_iff j k, eq_text_iff k j), tt)
  append-Apart j k v ((i, w) ∷ m) p h = (p.0, append-Apart j k v m p.1 h)

  append-Fresh :
      (k : Text) (v : V) (m : Dict V) (es : List (Text × V))
      → Fresh es m
      → Apart k (keys es)
      → Fresh es (m ++ ((k, v) ∷ []))
  append-Fresh k v m [] p a = tt
  append-Fresh k v m ((j, w) ∷ es) p a =
      (append-Apart j k v m p.0 a.0, append-Fresh k v m es p.1 a.1)

  append_assoc : (m : Dict V) (e : Text × V) (es : Dict V) → (m ++ (e ∷ [])) ++ es ≡ m ++ (e ∷ es)
  append_assoc [] e es = refl
  append_assoc (d ∷ m) e es = ap (λ (t : Dict V). d ∷ t) (append_assoc m e es)

  insert_all_new :
      (es : List (Text × V)) (m : Dict V)
      → Fresh es m
      → Unique (keys es)
      → insert_all es m ≡ m ++ es
  insert_all_new [] m p u = sym (append_nil m)
    where
      append_nil : (m : Dict V) → m ++ [] ≡ m
      append_nil [] = refl
      append_nil (d ∷ m) = ap (λ (t : Dict V). d ∷ t) (append_nil m)
  insert_all_new ((k, v) ∷ es) m p u = rw (insert_new k v m p.0) (
      insert_all_new es (m ++ ((k, v) ∷ [])) (append-Fresh k v m es p.1 u.0) u.1
      ∙ append_assoc m (k, v) es)

  none-Fresh : (es : List (Text × V)) → Fresh es []
  none-Fresh [] = tt
  none-Fresh (e ∷ es) = (tt, none-Fresh es)

  -- A map made of entries with unique keys holds the entries as they are.
  pub of_entries_eq : (es : List (Text × V)) → Unique (keys es) → of_entries es ≡ es
  of_entries_eq es u = insert_all_new es [] (none-Fresh es) u
