-- ===== src/Consolesession.antt =====
-- internal/consolesession/session.go: browser sessions. The store, the authenticator's outcome for
-- an API key and the random source are arguments.
pub mod Sessions
mod Examples
use go_webhook_delivery.Common.{
  ℕ, Bool, true, false, not, ◌&&◌, ◌||◌, Option, none, some, List, [], ◌∷◌, ◌++◌, ltb, ◌==◌,
  if◌then◌else◌, Bytes, bytes, bytes_eq, length, Result, ok, err, ◌>>=◌, ◌>>◌, require, map_err, ℤ,
}
use go_webhook_delivery.Golang.Base64.{base64_encode, base64_decode}
use go_webhook_delivery.Golang.Hex.{hex_encode, hex_decode}
use go_webhook_delivery.Golang.Strings.{split_n, trim_space}
use go_webhook_delivery.Signing.{Hmac}
use go_webhook_delivery.Auth.{Principal, AuthError}

-- `generate_prefix` and `generate_secret` are errors of the random source.
pub data SessionError : Type 0 where
  no_session at_limit prefix_failed secret_failed store_error : SessionError

pub record LookupRecord : Type 0 where
  pub id : Bytes
  pub verifier : Bytes

pub data SessionLookup : Type 0 where
  stored : LookupRecord → SessionLookup
  absent lookup_failed : SessionLookup

pub record SessionStore : Type 0 where
  pub create : Principal → Bytes → Bytes → Result SessionError Bytes
  pub lookup : Bytes → SessionLookup
  pub resume : Bytes → Option Principal

pub record Session : Type 0 where
  pub id : Bytes
  pub token : Bytes
  pub principal : Principal

is_hex : Option Bytes → Bool
is_hex none = false
is_hex (some raw) = true

is_secret : Option Bytes → Bool
is_secret none = false
is_secret (some secret) = length secret == 32

session_parts : List Bytes → Option Bytes
unfolding is_hex is_secret
session_parts (a ∷ b ∷ c ∷ []) =
    if bytes_eq a (bytes "wds")
      && length b == 16
      && is_hex (hex_decode b)
      && is_secret (base64_decode c)
    then some b
    else none
session_parts _ = none

unfoldable pub parse_token : Bytes → Option Bytes
unfolding session_parts
parse_token token = if ltb 128 (length token) then none else session_parts (split_n b'_' 2 token)

-- The token and its prefix.
unfoldable pub generate_token : Option Bytes → Option Bytes → Result SessionError (Bytes × Bytes)
generate_token none secret = err prefix_failed
generate_token (some prefix_raw) none = err secret_failed
generate_token (some prefix_raw) (some secret) = ok (
  bytes "wds_" ++ (hex_encode prefix_raw ++ (bytes "_" ++ base64_encode secret)),
  hex_encode prefix_raw,
)

resumed : Bytes → Bytes → Option Principal → Result SessionError Session
resumed id token none = err no_session
resumed id token (some p) = ok (record { id = id; token = token; principal = p })

module _ (h : Hmac) (pepper : Bytes) (s : SessionStore) where
  session_verifier : Bytes → Bytes
  session_verifier token = h.mac pepper token

  check_session : Bytes → SessionLookup → Result SessionError Session
  unfolding session_verifier resumed
  check_session token lookup_failed = err no_session
  check_session token absent = err no_session
  check_session token (stored r) =
      if length r.verifier == 32 && bytes_eq (session_verifier token) r.verifier
      then resumed r.id token (s.resume r.id)
      else err no_session

  session_of : Bytes → Option Bytes → Result SessionError Session
  unfolding check_session
  session_of token none = err no_session
  session_of token (some prefix) = check_session token (s.lookup prefix)

  -- `Authenticate`.
  unfoldable pub authenticate_session : Bytes → Result SessionError Session
  unfolding session_of
  authenticate_session token = session_of token (parse_token token)

  -- `Login`. `authenticate_key` is `AuthenticateToken` of the authenticator.
  unfoldable pub login :
      (Bytes → Result AuthError Principal)
      → Option Bytes
      → Option Bytes
      → Bytes
      → Result SessionError Session
  unfolding session_verifier
  login authenticate_key prefix_raw secret api_key = do
    principal ← map_err (λ _. no_session) (authenticate_key (trim_space api_key))
    made ← generate_token prefix_raw secret
    id ← s.create principal made.1 (session_verifier made.0)
    ok (record { id = id; token = made.0; principal = principal })

unfoldable pub csrf : Hmac → Bytes → Bytes → Bytes
csrf h csrf_pepper token = base64_encode (h.mac csrf_pepper (bytes "csrf:v1\n" ++ token))

unfoldable pub valid_csrf : Hmac → Bytes → Bytes → Bytes → Bool
unfolding csrf
valid_csrf h csrf_pepper token supplied = bytes_eq (csrf h csrf_pepper token) supplied
