-- ===== src/Endpoint/Service.antt =====
-- internal/endpoint/endpoint.go: endpoints and their signing secrets. The store, the random source and
-- the UUID library are arguments.
pub mod Opens
mod Examples
use go_webhook_delivery.Common.{
  ℕ, Bool, Option, none, some, List, [], ◌∷◌, ◌++◌, if◌then◌else◌, Bytes, bytes, ℤ, eq_ℤ, Result,
  ok, err, ◌>>=◌, ◌>>◌, map_err,
}
use go_webhook_delivery.Golang.Base64.{base64_encode}
use go_webhook_delivery.Golang.Decimal.{format_int}
use go_webhook_delivery.Golang.Netip.{Addr}
use go_webhook_delivery.Cryptobox.{
  Envelope, Keyring, Random, seal, unseal, associated_data, legacy_format_version, format_version,
}
use go_webhook_delivery.Cryptobox.Keyrings.{Materials}
use go_webhook_delivery.Outboundhttp.{Profile, authority}
use go_webhook_delivery.Outboundhttp.Policy.{resolve}
use go_webhook_delivery.Outboundhttp.Destination.{Destination, Urls, parse}
use go_webhook_delivery.Delivery.Requests.{Platform}
use go_webhook_delivery.Endpoint.{EndpointError, invalid, failed, validate_event_types}

pub record CreateInput : Type 0 where
  pub url : Bytes
  pub event_types : List Bytes

pub record EndpointView : Type 0 where
  pub id : Bytes
  pub url : Bytes
  pub status : Bytes
  pub event_types : List Bytes

pub record SigningSecret : Type 0 where
  pub key_id : Bytes
  pub secret : Bytes

pub record Created : Type 0 where
  pub endpoint : EndpointView
  pub signing_secret : SigningSecret

-- `NewRecord` without the actor and the request, which only the audit trail has.
pub record EndpointRecord : Type 0 where
  pub id : Bytes
  pub workspace_id : Bytes
  pub secret_version_id : Bytes
  pub audit_id : Bytes
  pub status : Bytes
  pub scheme : Bytes
  pub host : Bytes
  pub key_id : Bytes
  pub port : ℤ
  pub target : Envelope
  pub secret : Envelope
  pub event_types : List Bytes

pub record StoredRecord : Type 0 where
  pub status : Bytes
  pub scheme : Bytes
  pub host : Bytes
  pub port : ℤ
  pub target : Envelope
  pub event_types : List Bytes

-- What a call draws: identifiers, the bytes of the secret and of its key, and the nonces.
pub record Draws : Type 0 where
  pub id : Option Bytes
  pub secret_id : Option Bytes
  pub audit_id : Option Bytes
  pub secret : Option Bytes
  pub key_raw : Option Bytes
  pub target_random : Random
  pub secret_random : Random

pub record EndpointService : Type 0 where
  pub platform : Platform
  pub urls : Urls
  pub lookup : Bytes → Option (List Addr)
  pub profile : Profile
  pub allow_http : Bool
  pub materials : Materials

unfoldable pub drawn : Option Bytes → Result EndpointError Bytes
drawn none = err failed
drawn (some b) = ok b

unfoldable pub key_id_of : Bytes → Bytes
key_id_of key_raw = bytes "key_" ++ base64_encode key_raw

-- `newSigningSecret`: the secret and the identifier of its key.
unfoldable pub new_signing_secret :
    Option Bytes → Option Bytes → Result EndpointError (Bytes × Bytes)
unfolding drawn key_id_of
new_signing_secret secret key_raw = do s ← drawn secret; k ← drawn key_raw; ok (s, key_id_of k)

module _ (p : Platform) where
  unfoldable pub target_associated_data : ℤ → Bytes → Bytes → Bytes → Bytes → ℤ → Bytes
  target_associated_data version workspace_id endpoint_id scheme host port = associated_data (
      if eq_ℤ version legacy_format_version
      then bytes "1"
        ∷ p.uuid_string workspace_id
        ∷ p.uuid_string endpoint_id
        ∷ scheme
        ∷ host
        ∷ format_int port
        ∷ []
      else bytes "2"
        ∷ p.uuid_string workspace_id
        ∷ bytes "endpoint_target"
        ∷ p.uuid_string endpoint_id
        ∷ scheme
        ∷ host
        ∷ format_int port
        ∷ [])

  unfoldable pub secret_associated_data : ℤ → Bytes → Bytes → Bytes → Bytes → Bytes
  secret_associated_data version workspace_id endpoint_id secret_id key_id = associated_data (
      if eq_ℤ version legacy_format_version
      then bytes "1"
        ∷ p.uuid_string workspace_id
        ∷ p.uuid_string endpoint_id
        ∷ p.uuid_string secret_id
        ∷ key_id
        ∷ []
      else bytes "2"
        ∷ p.uuid_string workspace_id
        ∷ bytes "signing_secret"
        ∷ p.uuid_string endpoint_id
        ∷ p.uuid_string secret_id
        ∷ key_id
        ∷ [])

  unfoldable pub build_url : Bytes → Bytes → ℤ → Bytes → Bytes
  build_url scheme host port path =
      scheme ++ (bytes "://" ++ (authority p.is_ipv6 host port scheme ++ path))

module _ (s : EndpointService) where
  open s use {platform, urls, lookup, profile, allow_http, materials}

  unfoldable pub validate_create_input :
      CreateInput → Result EndpointError (Destination × List Bytes)
  validate_create_input input = do
    d ← map_err (λ _. invalid) (parse urls profile allow_http input.url)
    addresses ← map_err (λ _. invalid) (resolve urls.parse_addr lookup profile d.host)
    types ← validate_event_types input.event_types
    ok (d, types)

  -- `newRecord` with `sealRecord`: the record and the secret in base64.
  unfoldable pub new_endpoint :
      Draws → Bytes → Destination → List Bytes → Result EndpointError (EndpointRecord × Bytes)
  new_endpoint draws workspace_id d types = do
    id ← drawn draws.id
    secret_id ← drawn draws.secret_id
    audit_id ← drawn draws.audit_id
    (secret, key_id) ← new_signing_secret draws.secret draws.key_raw
    target ←
        map_err (λ _. failed)
          (seal platform.aead draws.target_random materials.signing d.path
            (target_associated_data platform format_version workspace_id id d.scheme d.host d.port))
    secret_envelope ←
        map_err (λ _. failed)
          (seal platform.aead draws.secret_random materials.signing secret
            (secret_associated_data platform format_version workspace_id id secret_id key_id))
    ok (
      record {
        id = id;
        workspace_id = workspace_id;
        secret_version_id = secret_id;
        audit_id = audit_id;
        status = bytes "active";
        scheme = d.scheme;
        host = d.host;
        key_id = key_id;
        port = d.port;
        target = target;
        secret = secret_envelope;
        event_types = types;
      },
      base64_encode secret,
    )

  unfoldable pub created_response : EndpointRecord → Destination → Bytes → Created
  created_response r d secret = record {
    endpoint = record {
      id = r.id;
      url = build_url platform d.scheme d.host d.port d.path;
      status = r.status;
      event_types = r.event_types;
    };
    signing_secret = record { key_id = r.key_id; secret = secret };
  }

  -- `CreateAs`. `create_row` is the store's operation on its state.
  unfoldable pub create {ℓ} :
      {Store : Type ℓ}
      → (EndpointRecord → Store → Result EndpointError Store)
      → Draws
      → Bytes
      → CreateInput
      → Store
      → Result EndpointError (Created × Store)
  create create_row draws workspace_id input st = do
    (d, types) ← validate_create_input input
    (r, secret) ← new_endpoint draws workspace_id d types
    after ← create_row r st
    ok (created_response r d secret, after)

  -- `Get`. `get_row` is the store.
  unfoldable pub get :
      (Bytes → Bytes → Result EndpointError StoredRecord)
      → Bytes
      → Bytes
      → Result EndpointError EndpointView
  get get_row workspace_id id = do
    r ← get_row workspace_id id
    path ←
        map_err (λ _. failed)
          (unseal platform.aead materials.signing r.target (
            target_associated_data platform r.target.version workspace_id id r.scheme r.host
              r.port))
    ok (record {
      id = id;
      url = build_url platform r.scheme r.host r.port path;
      status = r.status;
      event_types = r.event_types;
    })
