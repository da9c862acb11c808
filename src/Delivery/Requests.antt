-- ===== src/Delivery/Requests.antt =====
-- internal/delivery/claim_crypto.go and the part of outbound.go that builds the request. The
-- libraries that it calls are the fields of `Platform`.
use go_webhook_delivery.Common.{
  Bool, not, ◌&&◌, Option, none, some, List, [], ◌∷◌, ◌++◌, if◌then◌else◌, Bytes, bytes, bytes_eq,
  ℤ, eq_ℤ, Result, ok, ◌>>=◌, ◌>>◌, require, map_err,
}
use go_webhook_delivery.Golang.Decimal.{format_int}
use go_webhook_delivery.Golang.Time.{unix_seconds}
use go_webhook_delivery.Cryptobox.{
  Envelope, Keyring, Aead, unseal, associated_data, legacy_format_version,
}
use go_webhook_delivery.Cryptobox.Keyrings.{Materials}
use go_webhook_delivery.Signing.{Hmac, sign, header_value}
use go_webhook_delivery.Outboundhttp.{Profile, is_production, authority}
use go_webhook_delivery.Delivery.Results.{Reply}
use go_webhook_delivery.Delivery.Types.{Claim, ClaimSecret}
use go_webhook_delivery.Delivery.Retry.{RetryPolicy}

pub record Request : Type 0 where
  pub url : Bytes
  pub content_type : Bytes
  pub signature_version : Bytes
  pub timestamp : Bytes
  pub event_id : Bytes
  pub delivery_id : Bytes
  pub signature : Bytes
  pub body : Bytes

-- `retiring` is empty where the claim has no retiring key.
pub record OpenedClaim : Type 0 where
  pub path : Bytes
  pub payload : Bytes
  pub secret : Bytes
  pub retiring : Bytes

-- The calls out of the program: AES-GCM, HMAC, the UUID library, the URL and request constructors,
-- the HTTP client, the parser of HTTP dates, and the random source.
pub record Platform : Type 0 where
  pub aead : Aead
  pub hmac : Hmac
  pub uuid_string : Bytes → Bytes
  pub is_ipv6 : Bytes → Bool
  pub valid_uri : Bytes → Bool
  pub can_build : Bytes → Bool
  pub send : Request → Reply
  pub parse_time : Bytes → Option ℤ
  pub random : ℤ → ℤ

pub record Runner : Type 0 where
  pub materials : Materials
  pub profile : Profile
  pub allow_http : Bool
  pub retry_policy : RetryPolicy

-- The readings of the clock during an attempt, in their order.
pub record Times : Type 0 where
  pub started : ℤ
  pub signed : ℤ
  pub received : ℤ
  pub ended : ℤ

-- An empty category lets the claim pass.
unfoldable pub destination_policy : Runner → Claim → Bytes
destination_policy r c =
    if bytes_eq c.scheme (bytes "http") && not r.allow_http
    then bytes "http_destination_disabled"
    else if not (bytes_eq c.scheme (bytes "https")) && not (bytes_eq c.scheme (bytes "http"))
    then bytes "ssrf_policy"
    else if bytes_eq c.scheme (bytes "http") && is_production r.profile
    then bytes "ssrf_policy"
    else []

module _ (p : Platform) where
  open p use {aead, hmac, uuid_string, is_ipv6, valid_uri, can_build, send, parse_time, random}

  unfoldable pub target_parts : Claim → List Bytes
  target_parts c =
      if eq_ℤ c.target.version legacy_format_version
      then bytes "1"
        ∷ uuid_string c.workspace_id
        ∷ uuid_string c.endpoint_id
        ∷ c.scheme
        ∷ c.host
        ∷ format_int c.port
        ∷ []
      else bytes "2"
        ∷ uuid_string c.workspace_id
        ∷ bytes "endpoint_target"
        ∷ uuid_string c.endpoint_id
        ∷ c.scheme
        ∷ c.host
        ∷ format_int c.port
        ∷ []

  unfoldable pub payload_parts : Claim → List Bytes
  payload_parts c =
      if eq_ℤ c.payload.version legacy_format_version
      then bytes "1" ∷ uuid_string c.workspace_id ∷ uuid_string c.event_id ∷ c.event_type ∷ []
      else bytes "2"
        ∷ uuid_string c.workspace_id
        ∷ bytes "event_payload"
        ∷ uuid_string c.event_id
        ∷ c.event_type
        ∷ []

  unfoldable pub secret_parts : ℤ → Bytes → Bytes → Bytes → Bytes → List Bytes
  secret_parts version workspace_id endpoint_id secret_id key_id =
      if eq_ℤ version legacy_format_version
      then bytes "1"
        ∷ uuid_string workspace_id
        ∷ uuid_string endpoint_id
        ∷ uuid_string secret_id
        ∷ key_id
        ∷ []
      else bytes "2"
        ∷ uuid_string workspace_id
        ∷ bytes "signing_secret"
        ∷ uuid_string endpoint_id
        ∷ uuid_string secret_id
        ∷ key_id
        ∷ []

  unfoldable pub open_as : Bytes → Keyring → Envelope → List Bytes → Result Bytes Bytes
  open_as category ring e parts =
      map_err (λ _. category) (unseal aead ring e (associated_data parts))

  unfoldable pub open_retiring : Runner → Claim → Option ClaimSecret → Result Bytes Bytes
  unfolding open_as
  open_retiring r c none = ok []
  open_retiring r c (some s) =
      open_as (bytes "decrypt_secret") r.materials.signing s.envelope
        (secret_parts s.envelope.version c.workspace_id c.endpoint_id s.version_id s.key_id)

  -- `openClaim`: the error is the category of the failure.
  unfoldable pub open_claim : Runner → Claim → Result Bytes OpenedClaim
  unfolding open_as open_retiring
  open_claim r c = do
    path ← open_as (bytes "decrypt_target") r.materials.signing c.target (target_parts c)
    payload ← open_as (bytes "decrypt_payload") r.materials.payload c.payload (payload_parts c)
    secret ←
        open_as (bytes "decrypt_secret") r.materials.signing c.secret
          (secret_parts c.secret.version c.workspace_id c.endpoint_id c.secret_version_id c.key_id)
    retiring ← open_retiring r c c.retiring
    ok (record { path = path; payload = payload; secret = secret; retiring = retiring })

  abbrev pub target_text : Claim → Bytes → Bytes
  target_text c path =
      c.scheme ++ (bytes "://" ++ (authority is_ipv6 c.host c.port c.scheme ++ path))

  unfoldable pub target_url : Claim → Bytes → Result Bytes Bytes
  target_url c path = do
    require (valid_uri (target_text c path)) (bytes "invalid_target")
    ok (target_text c path)

  -- The entry of the header under a key.
  unfoldable pub signed_entry : ℤ → Claim → Bytes → Bytes → Bytes → Bytes
  signed_entry timestamp c secret key_id payload = header_value key_id (
      sign hmac secret timestamp (uuid_string c.event_id) (uuid_string c.delivery_id) key_id
        payload)

  -- The entries, joined by semicolons.
  unfoldable pub signature_header : ℤ → Claim → OpenedClaim → Option ClaimSecret → Bytes
  unfolding signed_entry
  signature_header timestamp c o none = signed_entry timestamp c o.secret c.key_id o.payload
  signature_header timestamp c o (some s) =
      signed_entry timestamp c o.secret c.key_id o.payload
      ++ b';' ∷ signed_entry timestamp c o.retiring s.key_id o.payload

  unfoldable pub build_request : ℤ → Bytes → Claim → OpenedClaim → Result Bytes Request
  unfolding signature_header
  build_request now target c o = do
    require (can_build target) (bytes "request_build")
    ok (record {
      url = target;
      content_type = bytes "application/json";
      signature_version = bytes "v1";
      timestamp = format_int (unix_seconds now);
      event_id = uuid_string c.event_id;
      delivery_id = uuid_string c.delivery_id;
      signature = signature_header (unix_seconds now) c o c.retiring;
      body = o.payload;
    })

  -- What can fail before the request is sent.
  unfoldable pub prepare : Runner → Times → Claim → Result Bytes Request
  prepare r t c = do
    opened ← open_claim r c
    target ← target_url c opened.path
    build_request t.signed target c opened
