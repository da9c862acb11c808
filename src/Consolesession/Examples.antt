-- ===== src/Consolesession/Examples.antt =====
-- A session of zeros.
use go_webhook_delivery.Common.{
  ◌≡◌, refl, arith, some, [], ◌∷◌, ◌++◌, if◌then◌else◌, Bytes, bytes, bytes_eq, Result, ok,
}
use go_webhook_delivery.Golang.Hex.{hex_encode}
use go_webhook_delivery.Signing.{Hmac}
use go_webhook_delivery.Auth.{Principal, AuthError}
use go_webhook_delivery.Consolesession.{
  SessionStore, stored, absent, Session, login, authenticate_session, generate_token,
}
use go_webhook_delivery.Consolesession.Sessions.{
  session_token, Opened, authenticate_session-Opened, authenticate_session-login,
}

abbrev zeros8 : Bytes
zeros8 = 0 ∷ 0 ∷ 0 ∷ 0 ∷ 0 ∷ 0 ∷ 0 ∷ 0 ∷ []

abbrev zeros32 : Bytes
zeros32 = zeros8 ++ (zeros8 ++ (zeros8 ++ zeros8))

abbrev constant_mac : Hmac
constant_mac = record {
  mac = λ key message. zeros32;
  mac_size = λ key message. refl;
  mac_bytes = λ key message. omega arith;
}

abbrev user : Principal
user = record { api_key_id = bytes "k"; workspace_id = bytes "w"; scopes = [] }

abbrev session : Session
session = record { id = bytes "id"; token = session_token zeros8 zeros32; principal = user }

abbrev store : SessionStore
store = record {
  create = λ p prefix verifier. ok (bytes "id");
  lookup = λ prefix.
      if bytes_eq prefix (bytes "0000000000000000")
      then stored (record { id = bytes "id"; verifier = zeros32 })
      else absent;
  resume = λ id. some user;
}

abbrev any_key : Bytes → Result AuthError Principal
any_key api_key = ok user

logged_in :
    login constant_mac [] store any_key (some zeros8) (some zeros32) (bytes "key") ≡ ok session
unfolding login generate_token
logged_in = refl

kept : store.lookup (hex_encode zeros8) ≡ stored (record { id = bytes "id"; verifier = zeros32 })
unfolding hex_encode bytes_eq
kept = refl

opens : authenticate_session constant_mac [] store session.token ≡ ok session
opens =
    authenticate_session-login constant_mac [] store store any_key zeros8 zeros32 (bytes "key")
      session refl refl (omega arith) (omega arith) logged_in kept refl

authenticate_session-login_run :
    authenticate_session constant_mac [] store session.token ≡ ok session
authenticate_session-login_run =
    authenticate_session-login constant_mac [] store store any_key zeros8 zeros32 (bytes "key")
      session refl refl (omega arith) (omega arith) logged_in kept refl

authenticate_session-Opened_example : Opened constant_mac [] store session.token session
authenticate_session-Opened_example =
    authenticate_session-Opened constant_mac [] store session.token session opens
