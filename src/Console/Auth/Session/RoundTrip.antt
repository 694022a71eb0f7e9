-- ===== src/Console/Auth/Session/RoundTrip.antt =====
-- Minting and verifying a session of apps/ghalla-ops/src/lib/auth/session.ts.
use ghalla.Base.{
  ℕ, ◌≡◌, ◌<◌, refl, sym, ap, ◌∙◌, false, List, [], ◌∷◌, ◌++◌, Option, none, some, if◌then◌else◌,
  leb, ◌==◌, is_empty, map, All, Bool-cases, Option-cases, inl, inr, arith, leb-false→lt,
}
use ghalla.Base.Text.{Text}
use ghalla.Console.Auth.AccessKey.{timing_safe_equal}
use ghalla.Console.Auth.AccessKey.Equal.{timing_safe_equal_iff}
use ghalla.Console.Auth.Session.{
  Session, PartialSession, Platform, replace_char, replace_all, SessionCheck, valid, refused,
  expired, check_expiry, check_fields, split_at_dot, to_base64_url, decode_base64_url, sign,
  mint_session, read_payload, check_parts, verify_session,
}
use ghalla.Console.Auth.Session.Encoding.{
  encoded, decoded-encoded, encoded-dotless, split_at_dot-append, split_at_dot-parts,
}

abbrev valid_or : Session → SessionCheck → Session
valid_or s (valid session) = session
valid_or s (refused why) = s

valid-injective : {s t : Session} → valid s ≡ valid t → s ≡ t
valid-injective {s} h = ap (valid_or s) h

-- What JSON.parse gives for the payload of a session
abbrev pub fields_of : Session → PartialSession
fields_of s = record { session_id = some s.session_id; expires_at = some s.expires_at }

fields_read :
    (now : ℕ) (id : Option Text) (at : Option ℕ) {session : Session}
    → check_fields now id at ≡ valid session
    → ((id ≡ some session.session_id) × (at ≡ some session.expires_at)) × (now < session.expires_at)
fields_read now none at h = cc
fields_read now (some id) none h = cc
fields_read now (some id) (some at) {session} h = elim (Bool-cases (leb at now)) [
  | inl past ↦ absurd (let e = rw past at h in cc)
  | inr future ↦
      let same = valid-injective (rw future at h) in
      (
        (
          ap (λ (s : Session). some s.session_id) same,
          ap (λ (s : Session). some s.expires_at) same,
        ),
        omega (arith, leb-false→lt at now future, ap (λ (s : Session). s.expires_at) same),
      )
]

expiry_read :
    (now : ℕ) (o : Option PartialSession) {session : Session}
    → check_expiry now o ≡ valid session
    → (o ≡ some (fields_of session)) × (now < session.expires_at)
expiry_read now none h = cc
expiry_read now (some s) h =
    let ((id, at), fresh) = fields_read now s.session_id s.expires_at h in
    (λ i. some (record { session_id = id i; expires_at = at i }), fresh)

module _ (platform : Platform) where
  open platform use {
    btoa, atob, btoa_plain, atob_btoa, btoa_some, read_write, write_session, read_session,
  }

  decode-encode :
      (bytes : List ℕ) → decode_base64_url platform (to_base64_url platform bytes) ≡ some bytes
  unfolding decode_base64_url to_base64_url
  decode-encode bytes = ap atob (decoded-encoded (btoa bytes) (btoa_plain bytes)) ∙ atob_btoa bytes

  some_before : (before after : Text) → is_empty (before ++ (b'.' ∷ after)) ≡ false
  some_before [] after = refl
  some_before (c ∷ before) after = refl

  is_empty-map : (f : ℕ → ℕ) (text : Text) → is_empty (map f text) ≡ is_empty text
  is_empty-map f [] = refl
  is_empty-map f (c ∷ text) = refl

  dotless : (bytes : List ℕ) → All (λ c. (c == b'.') ≡ false) (to_base64_url platform bytes)
  unfolding to_base64_url
  dotless bytes = encoded-dotless (btoa bytes) (btoa_plain bytes)

  payload_some :
      (session : Session) → is_empty (to_base64_url platform (write_session session)) ≡ false
  unfolding to_base64_url
  payload_some session =
      let text = btoa (write_session session) in
      sym (is_empty-map (replace_char b'-' b'+') (encoded text))
      ∙ (sym (is_empty-map (replace_char b'_' b'/') (replace_all b'-' b'+' (encoded text)))
          ∙ (ap (λ t. is_empty t) (decoded-encoded text (btoa_plain (write_session session)))
              ∙ btoa_some session))

  -- The payload is the base64 for URLs of what is read as the session.
  abbrev pub Carries : Text → Session → Type 0
  Carries payload session =
      (bytes : List ℕ) × ((decode_base64_url platform payload ≡ some bytes)
        × (read_session bytes ≡ some (fields_of session)))

  payload_read :
      (now : ℕ) (payload : Text) {session : Session}
      → read_payload platform now (decode_base64_url platform payload) ≡ valid session
      → Carries payload session × (now < session.expires_at)
  payload_read now payload h = elim (Option-cases (decode_base64_url platform payload)) [
    | inl rubbish ↦ absurd (let e = rw rubbish at h in cc)
    | inr (bytes, decodes) ↦
        let (fields, fresh) = expiry_read now (read_session bytes) (rw decodes at h) in
        ((bytes, (decodes, fields)), fresh)
  ]

  -- What the checks of a payload and its signature let through
  checked :
      (access_key : Text) (now : ℕ) (payload signature : Text) {session : Session}
      → check_parts platform access_key now (some (payload, signature)) ≡ valid session
      → (decode_base64_url platform signature ≡ some (sign platform access_key payload))
        × (Carries payload session × (now < session.expires_at))
  checked access_key now payload signature h = elim (Bool-cases (is_empty payload)) [
    | inl nothing ↦ absurd (let e = rw nothing at h in cc)
    | inr something ↦ elim (Option-cases (decode_base64_url platform signature)) [
      | inl rubbish ↦ absurd (let e = rw (something, rubbish) at h in cc)
      | inr (presented, decodes) ↦
          elim (Bool-cases (timing_safe_equal presented (sign platform access_key payload))) [
            | inl equal ↦ (
              decodes
                  ∙ ap (λ (b : List ℕ). some b)
                      ((timing_safe_equal_iff presented (sign platform access_key payload)).0
                        equal),
              payload_read now payload (rw (something, decodes, equal) at h),
            )
            | inr differ ↦ absurd (let e = rw (something, decodes, differ) at h in cc)
          ]
    ]
  ]

  -- A session that was minted with a key is accepted under that key until it expires, with its id and
  -- its end, and it is refused as expired from then on.
  pub verify_session-mint_session :
      (access_key : Text) (session : Session) (now : ℕ)
      → verify_session platform access_key (some (mint_session platform access_key session)) now
        ≡ (if leb session.expires_at now then refused expired else valid session)
  unfolding verify_session mint_session
  verify_session-mint_session access_key session now =
      let bytes = write_session session in
      let payload = to_base64_url platform bytes in
      let signature = sign platform access_key payload in
      rw
        (
          some_before payload (to_base64_url platform signature),
          split_at_dot-append payload (to_base64_url platform signature) (dotless bytes),
          payload_some session,
          decode-encode signature,
          (timing_safe_equal_iff signature signature).1 refl,
          decode-encode bytes,
          read_write session,
        )
        refl

  -- A token that is accepted has a payload and a signature that the key gives for it; the payload is
  -- that of the session, which has not expired.
  pub verify_session-valid :
      (access_key token : Text) (now : ℕ) {session : Session}
      → verify_session platform access_key (some token) now ≡ valid session
      → (payload : Text) × (signature : Text) × (token ≡ payload ++ (b'.' ∷ signature))
        × (decode_base64_url platform signature ≡ some (sign platform access_key payload))
        × (Carries payload session × (now < session.expires_at))
  unfolding verify_session
  verify_session-valid access_key token now {session} h = elim (Bool-cases (is_empty token)) [
    | inl nothing ↦ absurd (let e = rw nothing at h in cc)
    | inr something ↦ elim (Option-cases (split_at_dot token)) [
      | inl whole ↦ absurd (let e = rw (something, whole) at h in cc)
      | inr ((payload, signature), parts) ↦
          let (signed, fresh) =
            checked access_key now payload signature (rw (something, parts) at h) in
          (payload, signature, split_at_dot-parts token parts, signed, fresh)
    ]
  ]
