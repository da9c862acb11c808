-- ===== src/Endpoint/Rotation.antt =====
-- internal/endpoint/rotation.go: the rotation of a signing secret. The store, the random source and the
-- UUID library are arguments.
pub mod Answered
use go_webhook_delivery.Common.{
  ℕ, ◌*◌, Bool, not, ◌||◌, Option, none, some, List, [], ◌∷◌, ◌++◌, if◌then◌else◌, ltb, Bytes,
  bytes, length, ℤ, pos, eq_ℤ, ltb_ℤ, to_uint64, Result, ok, err, ◌>>=◌, ◌>>◌, require, map_err,
}
use go_webhook_delivery.Golang.Base64.{base64_encode}
use go_webhook_delivery.Golang.BigEndian.{put_uint64}
use go_webhook_delivery.Cryptobox.{Envelope, seal, unseal, format_version}
use go_webhook_delivery.Endpoint.{EndpointError, invalid, failed}
use go_webhook_delivery.Endpoint.Service.{
  SigningSecret, Draws, EndpointService, drawn, new_signing_secret, secret_associated_data,
}

abbrev pub default_rotation_overlap : ℤ
default_rotation_overlap = pos 86400

abbrev pub max_rotation_overlap : ℤ
max_rotation_overlap = pos 604800

-- `RotationRecord` without the actor and the request.
pub record RotationRecord : Type 0 where
  pub command_id : Bytes
  pub audit_id : Bytes
  pub workspace_id : Bytes
  pub endpoint_id : Bytes
  pub secret_version_id : Bytes
  pub key_id : Bytes
  pub idempotency_hash : Bytes
  pub fingerprint : Bytes
  pub overlap_seconds : ℤ
  pub secret : Envelope

pub record RotationStored : Type 0 where
  pub secret_version_id : Bytes
  pub key_id : Bytes
  pub secret : Envelope
  pub duplicate : Bool

pub record RotationResult : Type 0 where
  pub endpoint_id : Bytes
  pub secret : SigningSecret
  pub duplicate : Bool

-- `overlap` where it is not given.
unfoldable pub overlap_of : ℤ → ℤ
overlap_of seconds = if eq_ℤ seconds (pos 0) then default_rotation_overlap else seconds

module _ (s : EndpointService) where
  open s use {platform, materials}

  unfoldable pub rotation_mac : Bytes → Bytes → Bytes
  rotation_mac key value = platform.hmac.mac key value

  unfoldable pub rotation_fingerprint : Bytes → Bytes → ℤ → Bytes
  unfolding rotation_mac
  rotation_fingerprint key endpoint_id overlap =
      rotation_mac key (endpoint_id ++ put_uint64 (to_uint64 overlap))

  -- What `Rotate` hands to the store. The identifiers are drawn in the order of `rotationIDs`.
  unfoldable pub rotation_record :
      Draws → Bytes → Bytes → Bytes → ℤ → Result EndpointError RotationRecord
  rotation_record draws workspace_id endpoint_id key seconds = do
    require (not (ltb (length key) 1 || ltb 128 (length key))) invalid
    require
        (not (
          ltb_ℤ (overlap_of seconds) (pos 3600) || ltb_ℤ max_rotation_overlap (overlap_of seconds)))
        invalid
    command_id ← drawn draws.id
    audit_id ← drawn draws.audit_id
    secret_id ← drawn draws.secret_id
    (secret, key_id) ← new_signing_secret draws.secret draws.key_raw
    envelope ←
        map_err (λ _. failed)
          (seal platform.aead draws.secret_random materials.signing secret (
            secret_associated_data platform format_version workspace_id endpoint_id secret_id
              key_id))
    ok (record {
      command_id = command_id;
      audit_id = audit_id;
      workspace_id = workspace_id;
      endpoint_id = endpoint_id;
      secret_version_id = secret_id;
      key_id = key_id;
      idempotency_hash =
          rotation_mac materials.idempotency_pepper (bytes "secret-rotation:v1" ++ (10 ∷ key));
      fingerprint =
          rotation_fingerprint materials.fingerprint_pepper endpoint_id (overlap_of seconds);
      overlap_seconds = overlap_of seconds;
      secret = envelope;
    })

  unfoldable pub open_stored : Bytes → Bytes → RotationStored → Result EndpointError RotationResult
  open_stored workspace_id endpoint_id stored = do
    plain ←
        map_err (λ _. failed)
          (unseal platform.aead materials.signing stored.secret (
            secret_associated_data platform stored.secret.version workspace_id endpoint_id
              stored.secret_version_id stored.key_id))
    ok (record {
      endpoint_id = endpoint_id;
      secret = record { key_id = stored.key_id; secret = base64_encode plain };
      duplicate = stored.duplicate;
    })

  -- `Rotate`. `rotate_row` is the store.
  unfoldable pub rotate :
      (RotationRecord → Result EndpointError RotationStored)
      → Draws
      → Bytes
      → Bytes
      → Bytes
      → ℤ
      → Result EndpointError RotationResult
  unfolding open_stored
  rotate rotate_row draws workspace_id endpoint_id key seconds = do
    r ← rotation_record draws workspace_id endpoint_id key seconds
    stored ← rotate_row r
    open_stored workspace_id endpoint_id stored
