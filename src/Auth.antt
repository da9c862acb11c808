-- ===== src/Auth.antt =====
-- internal/auth/auth.go: API keys and what they admit. The lookup of a key in the database, the
-- clock and the random source are arguments.
pub mod Tokens
pub mod Access
mod Examples
use go_webhook_delivery.Common.{
  ℕ, ◌+◌, Bool, true, false, not, ◌&&◌, ◌||◌, Option, none, some, List, [], ◌∷◌, ◌++◌, ltb, ◌==◌,
  if◌then◌else◌, Bytes, bytes, bytes_eq, length, ℤ, leb_ℤ, Result, ok, err, ◌>>=◌, ◌>>◌, require,
}
use go_webhook_delivery.Golang.Base64.{base64_encode, base64_decode}
use go_webhook_delivery.Golang.Hex.{hex_encode, hex_decode}
use go_webhook_delivery.Golang.Strings.{cut_prefix, split_n}
use go_webhook_delivery.Signing.{Hmac}

abbrev pub dummy_token : Bytes
dummy_token = bytes "wde_test_0000000000000000_AAAAAAAAAAAAAAAAAAAAAAAAAAAAAAAAAAAAAAAAAAA"

-- `Scopes` is a set, here the list of its members.
pub record Principal : Type 0 where
  pub api_key_id : Bytes
  pub workspace_id : Bytes
  pub scopes : List Bytes

pub record Record : Type 0 where
  pub api_key_id : Bytes
  pub workspace_id : Bytes
  pub verifier : Bytes
  pub status : Bytes
  pub workspace_status : Bytes
  pub expires_at : Option ℤ
  pub scopes : List Bytes

-- What `LookupKey` returns: a record, none, or an error.
pub data Lookup : Type 0 where
  found : Record → Lookup
  missing failed : Lookup

pub data AuthError : Type 0 where
  unauthorized insufficient_scope generate_prefix generate_secret : AuthError

decodes : Option Bytes → Bool
decodes none = false
decodes (some raw) = true

decodes_to_32 : Option Bytes → Bool
decodes_to_32 none = false
decodes_to_32 (some secret) = length secret == 32

prefix_of_parts : List Bytes → Option Bytes
unfolding decodes decodes_to_32
prefix_of_parts (a ∷ b ∷ c ∷ d ∷ []) =
    if bytes_eq a (bytes "wde")
      && (bytes_eq b (bytes "test") || bytes_eq b (bytes "live"))
      && length c == 16
      && decodes (hex_decode c)
      && decodes_to_32 (base64_decode d)
    then some c
    else none
prefix_of_parts _ = none

unfoldable pub token_prefix : Bytes → Option Bytes
unfolding prefix_of_parts
token_prefix token = if ltb 249 (length token) then none else prefix_of_parts (split_n b'_' 3 token)

with_prefix : Bytes → Option Bytes → Option (Bytes × Bytes)
with_prefix token none = none
with_prefix token (some prefix) = some (token, prefix)

bearer_token : Option Bytes → Option (Bytes × Bytes)
unfolding with_prefix
bearer_token none = none
bearer_token (some token) = with_prefix token (token_prefix token)

-- The token and its prefix.
unfoldable pub bearer : Bytes → Option (Bytes × Bytes)
unfolding bearer_token
bearer header =
    if ltb 256 (length header) then none else bearer_token (cut_prefix header (bytes "Bearer "))

expired : ℤ → Option ℤ → Bool
expired now none = false
expired now (some at) = leb_ℤ at now

module _ (h : Hmac) (pepper : Bytes) where
  unfoldable pub verifier_of : Bytes → Bytes
  verifier_of token = h.mac pepper token

  -- With the test for the record's state.
  check_record : ℤ → Bytes → Lookup → Result AuthError Principal
  unfolding expired
  check_record now candidate failed = err unauthorized
  check_record now candidate missing = err unauthorized
  check_record now candidate (found r) =
      if not (length r.verifier == 32 && bytes_eq candidate r.verifier)
        || not (bytes_eq r.status (bytes "active"))
        || not (bytes_eq r.workspace_status (bytes "active"))
        || expired now r.expires_at
      then err unauthorized
      else ok
          (record { api_key_id = r.api_key_id; workspace_id = r.workspace_id; scopes = r.scopes })

  lookup_token : (Bytes → Lookup) → ℤ → Bytes → Option Bytes → Result AuthError Principal
  unfolding check_record
  lookup_token lookup now token none = err unauthorized
  lookup_token lookup now token (some prefix) = check_record now (verifier_of token) (lookup prefix)

  unfoldable pub authenticate_token : (Bytes → Lookup) → ℤ → Bytes → Result AuthError Principal
  unfolding lookup_token
  authenticate_token lookup now token = lookup_token lookup now token (token_prefix token)

  authenticate_bearer : (Bytes → Lookup) → ℤ → Option (Bytes × Bytes) → Result AuthError Principal
  authenticate_bearer lookup now none = err unauthorized
  authenticate_bearer lookup now (some (token, prefix)) = authenticate_token lookup now token

  -- `Authenticate`, with the principal that it hands on.
  unfoldable pub authenticate : (Bytes → Lookup) → ℤ → Bytes → Result AuthError Principal
  unfolding authenticate_bearer
  authenticate lookup now header = authenticate_bearer lookup now (bearer header)

  -- The token, its prefix and its verifier, from what the random source gives.
  unfoldable pub generate :
      Bool → Option Bytes → Option Bytes → Result AuthError (Bytes × Bytes × Bytes)
  generate test none secret = err generate_prefix
  generate test (some prefix_raw) none = err generate_secret
  generate test (some prefix_raw) (some secret) =
      let token =
        bytes "wde_"
        ++ ((if test then bytes "test" else bytes "live")
            ++ (bytes "_" ++ (hex_encode prefix_raw ++ (bytes "_" ++ base64_encode secret)))) in
      ok (token, hex_encode prefix_raw, verifier_of token)

unfoldable pub has_scope : Bytes → List Bytes → Bool
has_scope scope [] = false
has_scope scope (s ∷ scopes) = bytes_eq s scope || has_scope scope scopes

-- `Authorize`.
unfoldable pub authorize : Bytes → Option Principal → Result AuthError Principal
authorize scope none = err unauthorized
authorize scope (some p) = if has_scope scope p.scopes then ok p else err insufficient_scope

-- `Middleware`.
unfoldable pub middleware :
    Hmac → Bytes → (Bytes → Lookup) → ℤ → Bytes → Bytes → Result AuthError Principal
middleware h pepper lookup now scope header = do
  principal ← authenticate h pepper lookup now header
  authorize scope (some principal)
