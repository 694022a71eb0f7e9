-- ===== src/Console/Auth/Gate/Protects.antt =====
-- What passes the gate of apps/ghalla-ops/src/lib/auth/gate.ts.
use ghalla.Base.{
  ℕ, ◌≡◌, ◌<◌, ◌⊎◌, refl, sym, ap, ◌∙◌, Bool, true, false, not, List, [], ◌∷◌, ◌++◌, Option, none,
  some, filter, if◌then◌else◌, Bool-cases, inl, inr,
}
use ghalla.Base.Text.{Text, lit, eq_text, eq_text_refl}
use ghalla.Console.Auth.Session.{
  Session, Platform, SessionCheck, valid, refused, verify_session, decode_base64_url, sign,
}
use ghalla.Console.Auth.Session.RoundTrip.{Carries, verify_session-valid}
use ghalla.Console.Auth.Guard.{allow, UrlParser, guard, is_public_path, starts_with}
use ghalla.Console.Auth.Gate.{Headers, gate, is_ok, id_of_check, forwarded_headers, session_header}

-- A token whose payload the key has signed and is that of a session with the id, which has not expired
abbrev pub IsSignedFor : Platform → Text → ℕ → Option Text → Option Text → Type 0
IsSignedFor platform access_key now none id = ⊥
IsSignedFor platform access_key now (some token) id =
    (payload : Text) × (signature : Text) × (session : Session) × (token
      ≡ payload ++ (b'.' ∷ signature))
    × (decode_base64_url platform signature ≡ some (sign platform access_key payload))
    × (Carries platform payload session × (now < session.expires_at))
    × (id ≡ some session.session_id)

SessionCheck-cases : (c : SessionCheck) → ((s : Session) × (c ≡ valid s)) ⊎ (is_ok c ≡ false)
SessionCheck-cases (valid s) = inl (s, refl)
SessionCheck-cases (refused why) = inr refl

check-IsSignedFor :
    (platform : Platform) (access_key : Text) (token : Option Text) (now : ℕ)
    → is_ok (verify_session platform access_key token now) ≡ true
    → IsSignedFor platform access_key now token
        (id_of_check (verify_session platform access_key token now))
unfolding verify_session
check-IsSignedFor platform access_key none now h = cc
check-IsSignedFor platform access_key (some token) now h =
    elim (SessionCheck-cases (verify_session platform access_key (some token) now)) [
      | inl (session, accepted) ↦
          let (payload, signature, whole, signed, fresh) =
            verify_session-valid platform access_key token now accepted in
          (payload, signature, session, whole, signed, fresh, ap id_of_check accepted)
      | inr rejected ↦ absurd (let e = sym h ∙ rejected in cc)
    ]

guard-allow :
    (parser : UrlParser) (pathname search : Text) (authenticated : Bool)
    → is_public_path pathname ≡ false
    → guard parser pathname search authenticated ≡ allow
    → authenticated ≡ true
unfolding guard
guard-allow parser pathname search true closed h = refl
guard-allow parser pathname search false closed h =
    elim (Bool-cases (starts_with (lit "/api/") pathname)) [
      | inl api ↦ absurd (let e = rw (closed, api) at h in cc)
      | inr page ↦ absurd (let e = rw (closed, page) at h in cc)
    ]

-- A request for a path that is not public passes the gate only with a token whose payload the key has
-- signed; what is read from the payload is a session that has not expired, and the id that is recorded
-- for the request is that of this session.
pub gate-protects :
    (platform : Platform) (parser : UrlParser) (access_key pathname search : Text)
    (token : Option Text) (now : ℕ)
    → is_public_path pathname ≡ false
    → (gate platform parser access_key pathname search token now).outcome ≡ allow
    → IsSignedFor platform access_key now token
        (gate platform parser access_key pathname search token now).session_id
unfolding gate
gate-protects platform parser access_key pathname search token now closed passed =
    check-IsSignedFor platform access_key token now (
      guard-allow parser pathname search (is_ok (verify_session platform access_key token now))
        closed passed)

-- The values of a header
abbrev pub values_of : Text → Headers → List Text
values_of name [] = []
values_of name (h ∷ headers) =
    let rest = values_of name headers in if eq_text h.0 name then h.1 ∷ rest else rest

deleted :
    (headers : Headers)
    → values_of session_header
        (filter (λ (h : Text × Text). not (eq_text h.0 session_header)) headers)
      ≡ []
deleted [] = refl
deleted (h ∷ headers) = elim (Bool-cases (eq_text h.0 session_header)) [
  | inl same ↦ rw same (deleted headers)
  | inr other ↦ rw (other, other) (deleted headers)
]

abbrev pub values_if : Option Text → List Text
values_if none = []
values_if (some id) = id ∷ []

values_of-append :
    (name value : Text) (headers : Headers)
    → values_of name (headers ++ ((name, value) ∷ [])) ≡ values_of name headers ++ (value ∷ [])
values_of-append name value [] = rw (eq_text_refl name) refl
values_of-append name value (h ∷ headers) = elim (Bool-cases (eq_text h.0 name)) [
  | inl same ↦ rw same (ap (λ (t : List Text). h.1 ∷ t) (values_of-append name value headers))
  | inr other ↦ rw other (values_of-append name value headers)
]

-- Whatever headers a client sends, the session header of what is passed on has the verified id and
-- nothing else, and no value where no session was verified.
forwarded_headers-values :
    (original : Headers) (session_id : Option Text)
    → values_of session_header (forwarded_headers original session_id) ≡ values_if session_id
unfolding forwarded_headers
forwarded_headers-values original none = deleted original
forwarded_headers-values original (some id) =
    values_of-append session_header id
      (filter (λ (h : Text × Text). not (eq_text h.0 session_header)) original)
    ∙ ap (λ (t : List Text). t ++ (id ∷ [])) (deleted original)
