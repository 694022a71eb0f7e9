-- ===== src/Console/Auth/Session.antt =====
-- apps/ghalla-ops/src/lib/auth/session.ts: signed sessions. `btoa`, `atob`, HMAC and JSON over UTF-8
-- are parameters, with what the code relies on.
pub mod Encoding
pub mod RoundTrip
use ghalla.Base.{
  ℕ, ◌/◌, ◌≡◌, Bool, false, List, [], ◌∷◌, ◌++◌, Option, none, some, if◌then◌else◌, leb, ◌==◌,
  is_empty, map, All,
}
use ghalla.Base.Text.{Text, lit}
use ghalla.Console.Auth.AccessKey.{timing_safe_equal}

abbrev pub session_cookie : Text
session_cookie = lit "ghalla_ops_session"

abbrev pub signing_prefix : Text
signing_prefix = lit "ghalla-ops/session/v1"

pub record Session : Type 0 where
  pub session_id : Text
  pub expires_at : ℕ

-- What JSON.parse gives, where a field may be missing or of another type
pub record PartialSession : Type 0 where
  pub session_id : Option Text
  pub expires_at : Option ℕ

-- `replaceAll` of one character by another
abbrev pub replace_char : ℕ → ℕ → ℕ → ℕ
replace_char from to c = if c == from then to else c

abbrev pub replace_all : ℕ → ℕ → Text → Text
replace_all from to = map (replace_char from to)

-- `replace(/=+$/u, '')`
unfoldable pub strip_padding : Text → Text
strip_padding [] = []
strip_padding (c ∷ text) =
    let rest = strip_padding text in
    if is_empty rest then (if c == b'=' then [] else c ∷ []) else c ∷ rest

-- A character that is neither of the two that the encoding for URLs uses, nor the separator
abbrev pub IsPlain : ℕ → Type 0
IsPlain c = ((c == b'-') ≡ false) × ((c == b'_') ≡ false) × ((c == b'.') ≡ false)

pub record Platform : Type 0 where
  pub btoa : List ℕ → Text
  pub atob : Text → Option (List ℕ)
  pub hmac : Text → Text → List ℕ
  pub write_session : Session → List ℕ
  pub read_session : List ℕ → Option PartialSession
  -- Base64 uses letters, digits, `+`, `/` and `=`, and decodes without its padding.
  pub btoa_plain : (bytes : List ℕ) → All IsPlain (btoa bytes)
  pub atob_btoa : (bytes : List ℕ) → atob (strip_padding (btoa bytes)) ≡ some bytes
  pub btoa_some :
      (session : Session) → is_empty (strip_padding (btoa (write_session session))) ≡ false
  pub read_write :
      (session : Session)
      → read_session (write_session session)
        ≡ some
            (record { session_id = some session.session_id; expires_at = some session.expires_at })

pub data SessionRejection : Type 0 where
  malformed bad_signature expired : SessionRejection

pub data SessionCheck : Type 0 where
  valid : Session → SessionCheck
  refused : SessionRejection → SessionCheck

abbrev pub check_fields : ℕ → Option Text → Option ℕ → SessionCheck
check_fields now none at = refused malformed
check_fields now (some id) none = refused malformed
check_fields now (some id) (some at) =
    if leb at now then refused expired else valid (record { session_id = id; expires_at = at })

abbrev pub check_expiry : ℕ → Option PartialSession → SessionCheck
check_expiry now none = refused malformed
check_expiry now (some s) = check_fields now s.session_id s.expires_at

abbrev pub put_before : ℕ → Option (Text × Text) → Option (Text × Text)
put_before c none = none
put_before c (some (before, after)) = some (c ∷ before, after)

-- `token.slice(0, separator)` and `token.slice(separator + 1)`, where there is a separator
unfoldable pub split_at_dot : Text → Option (Text × Text)
split_at_dot [] = none
split_at_dot (c ∷ text) =
    let rest = split_at_dot text in if c == b'.' then some ([], text) else put_before c rest

module _ (platform : Platform) where
  open platform use {btoa, atob, hmac, write_session, read_session}

  unfoldable pub to_base64_url : List ℕ → Text
  unfolding strip_padding
  to_base64_url bytes = strip_padding (replace_all b'/' b'_' (replace_all b'+' b'-' (btoa bytes)))

  unfoldable pub decode_base64_url : Text → Option (List ℕ)
  decode_base64_url value = atob (replace_all b'_' b'/' (replace_all b'-' b'+' value))

  unfoldable pub sign : Text → Text → List ℕ
  sign access_key payload = hmac access_key (signing_prefix ++ (b'.' ∷ payload))

  unfoldable pub mint_session : Text → Session → Text
  mint_session access_key session =
      let payload = to_base64_url (write_session session) in
      payload ++ (b'.' ∷ to_base64_url (sign access_key payload))

  abbrev read_payload : ℕ → Option (List ℕ) → SessionCheck
  read_payload now none = refused malformed
  read_payload now (some bytes) = check_expiry now (read_session bytes)

  abbrev check_signature : Text → ℕ → Text → Option (List ℕ) → SessionCheck
  check_signature access_key now payload none = refused malformed
  check_signature access_key now payload (some presented) =
      if timing_safe_equal presented (sign access_key payload)
      then read_payload now (decode_base64_url payload)
      else refused bad_signature

  abbrev check_parts : Text → ℕ → Option (Text × Text) → SessionCheck
  check_parts access_key now none = refused malformed
  check_parts access_key now (some (payload, signature)) =
      if is_empty payload
      then refused malformed
      else check_signature access_key now payload (decode_base64_url signature)

  unfoldable pub verify_session : Text → Option Text → ℕ → SessionCheck
  unfolding split_at_dot
  verify_session access_key none now = refused malformed
  verify_session access_key (some token) now =
      if is_empty token then refused malformed else check_parts access_key now (split_at_dot token)

pub record CookieAttributes : Type 0 where
  pub secure : Bool
  pub max_age : ℕ

abbrev pub cookie_attributes : ℕ → Bool → CookieAttributes
cookie_attributes ttl_ms secure = record { secure = secure; max_age = ttl_ms / 1000 }
