-- ===== src/Console/Auth/Gate.antt =====
-- apps/ghalla-ops/src/lib/auth/gate.ts: the decision of the middleware.
pub mod Protects
use ghalla.Base.{ℕ, Bool, true, false, not, List, [], ◌∷◌, ◌++◌, Option, none, some, filter}
use ghalla.Base.Text.{Text, lit, eq_text}
use ghalla.Console.Auth.Session.{Platform, SessionCheck, valid, refused, verify_session}
use ghalla.Console.Auth.Guard.{GuardOutcome, UrlParser, guard}

-- `SESSION_HEADER`, in lower case
abbrev pub session_header : Text
session_header = lit "x-ops-session"

pub record GateResult : Type 0 where
  pub outcome : GuardOutcome
  pub session_id : Option Text

abbrev pub is_ok : SessionCheck → Bool
is_ok (valid session) = true
is_ok (refused why) = false

abbrev pub id_of_check : SessionCheck → Option Text
id_of_check (valid session) = some session.session_id
id_of_check (refused why) = none

unfoldable pub gate : Platform → UrlParser → Text → Text → Text → Option Text → ℕ → GateResult
gate platform parser access_key pathname search token now =
    let check = verify_session platform access_key token now in
    record { outcome = guard parser pathname search (is_ok check); session_id = id_of_check check }

-- Headers as a list of names in lower case and values
abbrev pub Headers : Type 0
Headers = List (Text × Text)

abbrev set_session : Option Text → Headers → Headers
set_session none headers = headers
set_session (some id) headers = headers ++ ((session_header, id) ∷ [])

-- `delete` takes every value of a name off.
unfoldable pub forwarded_headers : Headers → Option Text → Headers
forwarded_headers original session_id =
    set_session session_id (filter (λ (h : Text × Text). not (eq_text h.0 session_header)) original)
