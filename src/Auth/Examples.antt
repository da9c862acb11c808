-- ===== src/Auth/Examples.antt =====
-- A key of zeros, stored as active.
use go_webhook_delivery.Common.{
  ◌≡◌, refl, arith, true, some, [], ◌∷◌, ◌++◌, if◌then◌else◌, Bytes, bytes, bytes_eq, pos, ok,
}
use go_webhook_delivery.Golang.Hex.{hex_encode}
use go_webhook_delivery.Signing.{Hmac}
use go_webhook_delivery.Auth.{
  Record, Lookup, found, missing, has_scope, authorize, middleware, authenticate, generate,
  verifier_of,
}
use go_webhook_delivery.Auth.Tokens.{token_of}
use go_webhook_delivery.Auth.Access.{
  principal_of, Admitted, middleware-Admitted, authenticate-generate,
}

abbrev zeros8 : Bytes
zeros8 = 0 ∷ 0 ∷ 0 ∷ 0 ∷ 0 ∷ 0 ∷ 0 ∷ 0 ∷ []

abbrev zeros32 : Bytes
zeros32 = zeros8 ++ (zeros8 ++ (zeros8 ++ zeros8))

abbrev constant_mac : Hmac
constant_mac = record {
  mac = λ key message. zeros32;
  mac_size = λ key message. refl;
  mac_bytes = λ key message. omega arith;
}

abbrev stored : Record
stored = record {
  api_key_id = bytes "k";
  workspace_id = bytes "w";
  verifier = zeros32;
  status = bytes "active";
  workspace_status = bytes "active";
  expires_at = some (pos 2000);
  scopes = bytes "events:write" ∷ [];
}

abbrev lookup : Bytes → Lookup
lookup prefix = if bytes_eq prefix (bytes "0000000000000000") then found stored else missing

abbrev token : Bytes
token = token_of true zeros8 zeros32

looked_up : lookup (hex_encode zeros8) ≡ found stored
unfolding bytes_eq hex_encode
looked_up = refl

authenticated :
    authenticate constant_mac [] lookup (pos 1000) (bytes "Bearer " ++ token)
    ≡ ok (principal_of stored)
unfolding generate verifier_of
authenticated =
    authenticate-generate constant_mac [] true zeros8 zeros32 token (hex_encode zeros8) zeros32
      lookup (pos 1000) stored refl refl (omega arith) (omega arith) refl looked_up refl refl refl
      (omega arith)

authenticate-generate_example :
    authenticate constant_mac [] lookup (pos 1000) (bytes "Bearer " ++ token)
    ≡ ok (principal_of stored)
unfolding generate verifier_of
authenticate-generate_example =
    authenticate-generate constant_mac [] true zeros8 zeros32 token (hex_encode zeros8) zeros32
      lookup (pos 1000) stored refl refl (omega arith) (omega arith) refl looked_up refl refl refl
      (omega arith)

scoped : has_scope (bytes "events:write") stored.scopes ≡ true
unfolding has_scope bytes_eq
scoped = refl

passes :
    middleware constant_mac [] lookup (pos 1000) (bytes "events:write") (bytes "Bearer " ++ token)
    ≡ ok (principal_of stored)
unfolding middleware authorize
passes = rw (authenticated, scoped) refl

middleware-Admitted_example :
    Admitted constant_mac [] lookup
      (pos 1000)
      (bytes "events:write")
      (bytes "Bearer " ++ token)
      (principal_of stored)
middleware-Admitted_example =
    middleware-Admitted constant_mac [] lookup (pos 1000) (bytes "events:write")
      (bytes "Bearer " ++ token) (principal_of stored) passes
