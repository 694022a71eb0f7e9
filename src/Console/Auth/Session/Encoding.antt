-- ===== src/Console/Auth/Session/Encoding.antt =====
-- The texts of apps/ghalla-ops/src/lib/auth/session.ts: base64 for URLs, and where a token is
-- split.
use ghalla.Base.{
  ℕ, ◌≡◌, refl, sym, ap, ◌∙◌, false, [], ◌∷◌, ◌++◌, Option, none, some, if◌then◌else◌, ◌==◌, ==_iff,
  is_empty, All, Bool-cases, inl, inr, arith, some-injective,
}
use ghalla.Base.Text.{Text}
use ghalla.Console.Auth.Session.{
  IsPlain, replace_char, replace_all, strip_padding, split_at_dot, put_before,
}

abbrev encode_char : ℕ → ℕ
encode_char c = replace_char b'/' b'_' (replace_char b'+' b'-' c)

abbrev decode_char : ℕ → ℕ
decode_char c = replace_char b'_' b'/' (replace_char b'-' b'+' c)

decode_char-encode_char : (c : ℕ) → IsPlain c → decode_char (encode_char c) ≡ c
decode_char-encode_char c p = elim (Bool-cases (c == b'+')) [
  | inl plus ↦ rw plus (sym ((==_iff c b'+').0 plus))
  | inr other ↦ elim (Bool-cases (c == b'/')) [
    | inl slash ↦ rw (other, slash) (sym ((==_iff c b'/').0 slash))
    | inr letter ↦ rw (other, letter, p.0, p.1) refl
  ]
]

encode_char-padding : (c : ℕ) → (encode_char c == b'=') ≡ (c == b'=')
encode_char-padding c = elim (Bool-cases (c == b'+')) [
  | inl plus ↦ rw plus (ground arith)
  | inr other ↦ elim (Bool-cases (c == b'/')) [
    | inl slash ↦ rw (other, slash) (ground arith)
    | inr letter ↦ rw (other, letter) refl
  ]
]

encode_char-dot : (c : ℕ) → IsPlain c → (encode_char c == b'.') ≡ false
encode_char-dot c p = elim (Bool-cases (c == b'+')) [
  | inl plus ↦ rw plus refl
  | inr other ↦ elim (Bool-cases (c == b'/')) [
    | inl slash ↦ rw (other, slash) refl
    | inr letter ↦ rw (other, letter) p.2
  ]
]

abbrev pub encoded : Text → Text
encoded text = strip_padding (replace_all b'/' b'_' (replace_all b'+' b'-' text))

abbrev decoded : Text → Text
decoded text = replace_all b'_' b'/' (replace_all b'-' b'+' text)

joined :
    (c : ℕ) (rest stripped : Text)
    → IsPlain c
    → decoded rest ≡ stripped
    → decoded (
        if is_empty rest
        then (if encode_char c == b'=' then [] else encode_char c ∷ [])
        else encode_char c ∷ rest)
      ≡ (if is_empty stripped then (if c == b'=' then [] else c ∷ []) else c ∷ stripped)
joined c [] [] p h = elim (Bool-cases (c == b'=')) [
  | inl pad ↦ rw (encode_char-padding c, pad) refl
  | inr letter ↦ rw (encode_char-padding c, letter) (ap (λ d. d ∷ []) (decode_char-encode_char c p))
]
joined c [] (s ∷ stripped) p h = cc
joined c (r ∷ rest) [] p h = cc
joined c (r ∷ rest) (s ∷ stripped) p h = λ i. decode_char-encode_char c p i ∷ h i

-- Replacing characters and taking off the padding may be done in either order.
pub decoded-encoded : (text : Text) → All IsPlain text → decoded (encoded text) ≡ strip_padding text
unfolding strip_padding
decoded-encoded [] p = refl
decoded-encoded (c ∷ text) p =
    joined c (encoded text) (strip_padding text) p.0 (decoded-encoded text p.1)

kept :
    (c : ℕ) (rest : Text)
    → IsPlain c
    → All (λ c. (c == b'.') ≡ false) rest
    → All
        (λ c. (c == b'.') ≡ false)
        (if is_empty rest
          then (if encode_char c == b'=' then [] else encode_char c ∷ [])
          else encode_char c ∷ rest)
kept c [] p q = elim (Bool-cases (encode_char c == b'=')) [
  | inl pad ↦ rw pad tt
  | inr letter ↦ rw letter (encode_char-dot c p, tt)
]
kept c (r ∷ rest) p q = (encode_char-dot c p, q)

pub encoded-dotless :
    (text : Text) → All IsPlain text → All (λ c. (c == b'.') ≡ false) (encoded text)
unfolding strip_padding
encoded-dotless [] p = tt
encoded-dotless (c ∷ text) p = kept c (encoded text) p.0 (encoded-dotless text p.1)

pub split_at_dot-append :
    (before after : Text)
    → All (λ c. (c == b'.') ≡ false) before
    → split_at_dot (before ++ (b'.' ∷ after)) ≡ some (before, after)
unfolding split_at_dot
split_at_dot-append [] after p = refl
split_at_dot-append (c ∷ before) after p = rw (p.0, split_at_dot-append before after p.1) refl

put_before-some :
    (c : ℕ) (o : Option (Text × Text)) {before after : Text}
    → put_before c o ≡ some (before, after)
    → (rest : Text) × (o ≡ some (rest, after)) × (before ≡ c ∷ rest)
put_before-some c none h = cc
put_before-some c (some (rest, a)) {before} {after} h = (
  rest,
  ap (λ (x : Text). some (rest, x)) (ap (λ p. p.1) (some-injective h)),
  sym (ap (λ p. p.0) (some-injective h)),
)

pub split_at_dot-parts :
    (token : Text) {before after : Text}
    → split_at_dot token ≡ some (before, after)
    → token ≡ before ++ (b'.' ∷ after)
unfolding split_at_dot
split_at_dot-parts [] h = cc
split_at_dot-parts (c ∷ text) {before} {after} h = elim (Bool-cases (c == b'.')) [
  | inl dot ↦
      let found = some-injective (rw dot at h) in
      ap (λ d. d ∷ text) ((==_iff c b'.').0 dot)
      ∙ ap (λ (p : Text × Text). p.0 ++ (b'.' ∷ p.1)) found
  | inr other ↦
      let (rest, inner, first) = put_before-some c (split_at_dot text) (rw other at h) in
      ap (λ (t : Text). c ∷ t) (split_at_dot-parts text inner)
      ∙ ap (λ (t : Text). t ++ (b'.' ∷ after)) (sym first)
]
