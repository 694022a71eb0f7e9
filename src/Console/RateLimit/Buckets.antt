-- ===== src/Console/RateLimit/Buckets.antt =====
-- What the buckets of a limiter hold after an operation.
use ghalla.Base.{
  ◌≡◌, refl, List, [], ◌∷◌, Option, none, some, if◌then◌else◌, ◌&&◌, All, Bool-cases, inl, inr,
  arith, ℕ, leb, map, subst, ap, ◌∙◌,
}
use ghalla.Base.Text.{Text, eq_text, eq_text_iff}
use ghalla.Base.Dict.{Dict, lookup, insert, erase, Apart, Unique}
use ghalla.Console.RateLimit.{Bucket, LimiterOptions, is_idle, prune_buckets}

-- A property of every bucket
abbrev pub Buckets : (Bucket → Type 0) → Dict Bucket → Type 0
Buckets P m = All (λ (e : Text × Bucket). P e.1) m

abbrev pub OfOption : (Bucket → Type 0) → Option Bucket → Type 0
OfOption P none = Unit
OfOption P (some bucket) = P bucket

module _ (P : Bucket → Type 0) where
  pub Buckets-lookup : (key : Text) (m : Dict Bucket) → Buckets P m → OfOption P (lookup key m)
  unfolding lookup
  Buckets-lookup key [] p = tt
  Buckets-lookup key ((k, b) ∷ m) p = elim (Bool-cases (eq_text k key)) [
    | inl hit ↦ rw hit p.0
    | inr miss ↦ rw miss (Buckets-lookup key m p.1)
  ]

  pub Buckets-insert :
      (key : Text) (bucket : Bucket) (m : Dict Bucket)
      → P bucket
      → Buckets P m
      → Buckets P (insert key bucket m)
  unfolding insert
  Buckets-insert key bucket [] new p = (new, tt)
  Buckets-insert key bucket ((k, b) ∷ m) new p = elim (Bool-cases (eq_text k key)) [
    | inl hit ↦ rw hit (new, p.1)
    | inr miss ↦ rw miss (p.0, Buckets-insert key bucket m new p.1)
  ]

  pub Buckets-erase : (key : Text) (m : Dict Bucket) → Buckets P m → Buckets P (erase key m)
  unfolding erase
  Buckets-erase key [] p = tt
  Buckets-erase key ((k, b) ∷ m) p = elim (Bool-cases (eq_text k key)) [
    | inl hit ↦ rw hit p.1
    | inr miss ↦ rw miss (p.0, Buckets-erase key m p.1)
  ]

  pub Buckets-prune :
      (options : LimiterOptions) (now : ℕ) (m : Dict Bucket)
      → Buckets P m
      → Buckets P (prune_buckets options now m)
  unfolding prune_buckets
  Buckets-prune options now [] p = tt
  Buckets-prune options now ((k, b) ∷ m) p =
      elim (Bool-cases (is_idle options b now && leb b.blocked_until now)) [
        | inl gone ↦ rw gone (Buckets-prune options now m p.1)
        | inr kept ↦ rw kept (p.0, Buckets-prune options now m p.1)
      ]

abbrev pub keys_of : Dict Bucket → List Text
keys_of = map (λ (e : Text × Bucket). e.0)

abbrev pub drop_idle : LimiterOptions → ℕ → Option Bucket → Option Bucket
drop_idle options now none = none
drop_idle options now (some b) =
    if is_idle options b now && leb b.blocked_until now then none else some b

lookup-Apart : (key : Text) (m : Dict Bucket) → Apart key (keys_of m) → lookup key m ≡ none
unfolding lookup
lookup-Apart key [] p = refl
lookup-Apart key ((k, b) ∷ m) p =
    ground (arith, eq_text_iff k key, eq_text_iff key k, lookup-Apart key m p.1)

-- A map whose keys are distinct, as a Map's are, is pruned bucket by bucket.
pub lookup-prune :
    (options : LimiterOptions) (now : ℕ) (key : Text) (m : Dict Bucket)
    → Unique (keys_of m)
    → lookup key (prune_buckets options now m) ≡ drop_idle options now (lookup key m)
unfolding lookup prune_buckets
lookup-prune options now key [] u = refl
lookup-prune options now key ((k, b) ∷ m) u =
    elim (Bool-cases (is_idle options b now && leb b.blocked_until now)) [
      | inl gone ↦ elim (Bool-cases (eq_text k key)) [
        | inl hit ↦
            rw (gone, hit, gone)
              (lookup-prune options now key m u.1
                ∙ ap (drop_idle options now) (
                    lookup-Apart key m
                      (subst (λ t. Apart t (keys_of m)) ((eq_text_iff k key).0 hit) u.0)))
        | inr miss ↦ rw (gone, miss) (lookup-prune options now key m u.1)
      ]
      | inr kept ↦ elim (Bool-cases (eq_text k key)) [
        | inl hit ↦ rw (kept, hit, kept) refl
        | inr miss ↦ rw (kept, miss) (lookup-prune options now key m u.1)
      ]
    ]
