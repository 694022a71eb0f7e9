-- ===== src/Console/Auth/Guard.antt =====
-- apps/ghalla-ops/src/lib/auth/guard.ts: what may be reached without a session. The URL parser is a
-- parameter.
use ghalla.Base.{
  Bool, true, false, not, ◌||◌, ◌&&◌, List, [], ◌∷◌, ◌++◌, Option, none, some, if◌then◌else◌,
  is_empty, ◌==◌, or_else,
}
use ghalla.Base.Text.{Text, lit, eq_text}
use ghalla.Base.Dict.{has, Dict, lookup}
use ghalla.Money.Decimal.{trim_start, trim_end}

abbrev pub login_path : Text
login_path = lit "/login"

abbrev pub public_paths : List Text
public_paths = login_path ∷ lit "/api/auth/login" ∷ lit "/api/live" ∷ []

abbrev pub brand_files_prefix : Text
brand_files_prefix = lit "/brand/"

-- `text.startsWith(prefix)`
unfoldable pub starts_with : Text → Text → Bool
starts_with [] text = true
starts_with (c ∷ prefix) [] = false
starts_with (c ∷ prefix) (d ∷ text) = (d == c) && starts_with prefix text

unfoldable pub is_public_path : Text → Bool
unfolding starts_with
is_public_path pathname = has pathname public_paths || starts_with brand_files_prefix pathname

pub data GuardOutcome : Type 0 where
  allow : GuardOutcome
  redirect : Text → GuardOutcome
  unauthorized : GuardOutcome

abbrev pub resolution_base : Text
resolution_base = lit "https://portal.invalid"

pub record Url : Type 0 where
  pub origin : Text
  pub pathname : Text
  pub search : Text

-- `new URL(value, base)`, where `none` is a throw, and `encodeURIComponent`
pub record UrlParser : Type 0 where
  pub resolve : Text → Text → Option Url
  pub encode_component : Text → Text

abbrev pub safe_path : Option Url → Option Text
safe_path none = none
safe_path (some url) =
    let path = url.pathname ++ url.search in
    if not (eq_text url.origin resolution_base)
    then none
    else if starts_with login_path path
    then none
    else some path

module _ (parser : UrlParser) where
  open parser use {resolve, encode_component}

  -- An absent value is the empty text.
  unfoldable pub safe_next : Text → Option Text
  unfolding starts_with
  safe_next value =
      if is_empty value
      then none
      else if not (starts_with (lit "/") value)
      then none
      else safe_path (resolve value resolution_base)

  abbrev login_with : Option Text → Text
  login_with none = login_path
  login_with (some next) = login_path ++ (lit "?next=" ++ encode_component next)

  unfoldable pub login_redirect : Text → Text → Text
  unfolding safe_next
  login_redirect pathname search = login_with (safe_next (pathname ++ search))

  unfoldable pub guard : Text → Text → Bool → GuardOutcome
  unfolding is_public_path login_redirect
  guard pathname search authenticated =
      if is_public_path pathname || authenticated
      then allow
      else if starts_with (lit "/api/") pathname
      then unauthorized
      else redirect (login_redirect pathname search)

-- `split(',')[0]`
unfoldable pub before_comma : Text → Text
before_comma [] = []
before_comma (c ∷ text) = let rest = before_comma text in if c == b',' then [] else c ∷ rest

abbrev first_forwarded : Option Text → Option Text
first_forwarded none = none
first_forwarded (some value) =
    let first = trim_end (trim_start (before_comma value)) in
    if is_empty first then none else some first

-- Headers as a map from lower-case names, as `get` reads them
unfoldable pub client_address : Dict Text → Text
unfolding before_comma trim_start trim_end
client_address headers =
    or_else (first_forwarded (lookup (lit "x-forwarded-for") headers))
      (or_else (lookup (lit "x-real-ip") headers) (lit "unknown"))

abbrev secure_by : Option Text → Text → Bool
secure_by none url = starts_with (lit "https:") url
secure_by (some protocol) url = eq_text protocol (lit "https")

unfoldable pub is_secure_request : Dict Text → Text → Bool
unfolding before_comma trim_start trim_end starts_with
is_secure_request headers url =
    secure_by (first_forwarded (lookup (lit "x-forwarded-proto") headers)) url
