-- ===== src/Console/Auth/AccessKey.antt =====
-- apps/ghalla-ops/src/lib/auth/access-key.ts: the shared key. The digest of Web Crypto is a parameter.
pub mod Equal
use ghalla.Base.{ℕ, ◌*◌, Bool, List, [], ◌∷◌, Option, none, some, if◌then◌else◌, ltb, ◌==◌, length}
use ghalla.Base.Text.{Text, lit}
use ghalla.Base.Dict.{Dict, lookup}
use ghalla.Base.Bits.{bit_or, bit_xor}
use ghalla.Base.{is_empty}
use ghalla.Money.Decimal.{trim_start, trim_end}

abbrev pub min_access_key_length : ℕ
min_access_key_length = 32

abbrev pub default_session_ttl_ms : ℕ
default_session_ttl_ms = 8 * 60 * 60 * 1000

pub record AuthConfig : Type 0 where
  pub access_key : Text
  pub session_ttl_ms : ℕ

-- `none` is an AuthConfigError.
abbrev config_of_key : Option Text → Option AuthConfig
config_of_key none = none
config_of_key (some key) =
    if is_empty (trim_end (trim_start key))
    then none
    else if ltb (length key) min_access_key_length
    then none
    else some (record { access_key = key; session_ttl_ms = default_session_ttl_ms })

unfoldable pub load_auth_config : Dict Text → Option AuthConfig
unfolding trim_start trim_end
load_auth_config env = config_of_key (lookup (lit "OPS_ACCESS_KEY") env)

-- The loop, over the places of either array; a place that one lacks counts as zero
unfoldable pub difference_from : ℕ → List ℕ → List ℕ → ℕ
difference_from difference [] [] = difference
difference_from difference [] (y ∷ ys) = difference_from (bit_or difference (bit_xor 0 y)) [] ys
difference_from difference (x ∷ xs) [] = difference_from (bit_or difference (bit_xor x 0)) xs []
difference_from difference (x ∷ xs) (y ∷ ys) =
    difference_from (bit_or difference (bit_xor x y)) xs ys

unfoldable pub timing_safe_equal : List ℕ → List ℕ → Bool
unfolding difference_from
timing_safe_equal a b = difference_from (bit_xor (length a) (length b)) a b == 0

-- `digest` is SHA-256 of the UTF-8 encoding of a text.
unfoldable pub access_key_matches : (Text → List ℕ) → Text → Text → Bool
unfolding timing_safe_equal
access_key_matches digest presented configured =
    timing_safe_equal (digest presented) (digest configured)
