-- ===== src/Endpoint/Rotation/Answered.antt =====
-- What the answer to a rotation is.
use go_webhook_delivery.Common.{
  ◌≡◌, refl, sym, ap, ◌∙◌, true, false, not, ◌||◌, Bytes, length, ltb, ℤ, pos, ◌≤ℤ◌, ltb_ℤ, eq_ℤ,
  arith, Result, ok, bind-ok, require-then, ok-injective, map_err, map_err-ok,
}
use go_webhook_delivery.Golang.Base64.{base64_encode}
use go_webhook_delivery.Cryptobox.{seal, unseal, format_version, legacy_format_version}
use go_webhook_delivery.Cryptobox.Sealing.{seal-Reopens}
use go_webhook_delivery.Endpoint.{EndpointError, failed}
use go_webhook_delivery.Endpoint.Service.{
  Draws, EndpointService, drawn, new_signing_secret, secret_associated_data,
}
use go_webhook_delivery.Endpoint.Service.Opens.{CanSeal}
use go_webhook_delivery.Endpoint.Rotation.{
  RotationRecord, RotationStored, RotationResult, overlap_of, rotation_fingerprint, rotation_record,
  open_stored, rotate, max_rotation_overlap,
}

-- The secret that was drawn is sealed in the record, whose overlap is in bounds.
pub record Prepared (s : EndpointService) (draws : Draws) (seconds : ℤ) (r : RotationRecord)
    : Type 0 where
  pub raw : Bytes
  pub is_sealed :
      seal s.platform.aead draws.secret_random s.materials.signing raw (
        secret_associated_data s.platform format_version r.workspace_id r.endpoint_id
          r.secret_version_id r.key_id)
      ≡ ok r.secret
  pub overlap : r.overlap_seconds ≡ overlap_of seconds
  pub overlap_least : pos 3600 ≤ℤ r.overlap_seconds
  pub overlap_greatest : r.overlap_seconds ≤ℤ max_rotation_overlap
  pub hashed :
      r.fingerprint
      ≡ rotation_fingerprint s s.materials.fingerprint_pepper r.endpoint_id r.overlap_seconds

in_bounds :
    (z : ℤ)
    → not (ltb_ℤ z (pos 3600) || ltb_ℤ max_rotation_overlap z) ≡ true
    → (pos 3600 ≤ℤ z) × (z ≤ℤ max_rotation_overlap)
in_bounds z h = ground arith

module _ (s : EndpointService) where
  rotation_record-Prepared :
      (draws : Draws) (workspace_id endpoint_id key : Bytes) (seconds : ℤ) (r : RotationRecord)
      → rotation_record s draws workspace_id endpoint_id key seconds ≡ ok r
      → Prepared s draws seconds r × (r.workspace_id ≡ workspace_id) × (r.endpoint_id ≡ endpoint_id)
  unfolding rotation_record
  rotation_record-Prepared draws workspace_id endpoint_id key seconds r h =
      let (_, h1) = require-then (not (ltb (length key) 1 || ltb 128 (length key))) _ _ _ h in
      let (inside, h2) =
        require-then
          (not (
            ltb_ℤ (overlap_of seconds) (pos 3600)
            || ltb_ℤ max_rotation_overlap (overlap_of seconds)))
          _ _ _ h1 in
      let (_, _, h3) = bind-ok (drawn draws.id) _ _ h2 in
      let (_, _, h4) = bind-ok (drawn draws.audit_id) _ _ h3 in
      let (secret_id, _, h5) = bind-ok (drawn draws.secret_id) _ _ h4 in
      let (k, _, h6) = bind-ok (new_signing_secret draws.secret draws.key_raw) _ _ h5 in
      let (envelope, made, h7) =
        bind-ok
          (map_err (λ _. failed)
            (seal s.platform.aead draws.secret_random s.materials.signing k.0 (
              secret_associated_data s.platform format_version workspace_id endpoint_id secret_id
                k.1)))
          _ _ h6 in
      let same = ok-injective _ r h7 in
      let bounds = in_bounds (overlap_of seconds) inside in
      rw (sym same) (
        record {
          raw = k.0;
          is_sealed = map_err-ok _ _ envelope made;
          overlap = refl;
          overlap_least = bounds.0;
          overlap_greatest = bounds.1;
          hashed = refl;
        },
        refl,
        refl,
      )

-- The store keeps the secret of the record that it accepts as new.
abbrev pub Echoes : RotationRecord → RotationStored → Type 0
Echoes r stored =
    (stored.secret_version_id ≡ r.secret_version_id)
    × (stored.key_id ≡ r.key_id)
    × (stored.secret ≡ r.secret)

-- The record that the store has taken, and its secret in the answer.
pub record Rotated (s : EndpointService)
    (rotate_row : RotationRecord → Result EndpointError RotationStored) (draws : Draws)
    (seconds : ℤ) (result : RotationResult) : Type 0 where
  pub rotation : RotationRecord
  pub stored : RotationStored
  pub taken : rotate_row rotation ≡ ok stored
  pub prepared : Prepared s draws seconds rotation
  pub returned :
      result.secret ≡ record { key_id = rotation.key_id; secret = base64_encode prepared.raw }

module _ (s : EndpointService) where
  current_secret :
      (version : ℤ) (workspace_id endpoint_id secret_id key_id : Bytes)
      → eq_ℤ version legacy_format_version ≡ false
      → secret_associated_data s.platform version workspace_id endpoint_id secret_id key_id
        ≡ secret_associated_data s.platform format_version workspace_id endpoint_id secret_id key_id
  unfolding secret_associated_data eq_ℤ
  current_secret version workspace_id endpoint_id secret_id key_id h = rw h refl

  open_stored-echo :
      (r : RotationRecord) (stored : RotationStored) (raw : Bytes)
      → Echoes r stored
      → eq_ℤ r.secret.version legacy_format_version ≡ false
      → unseal s.platform.aead s.materials.signing r.secret (
          secret_associated_data s.platform format_version r.workspace_id r.endpoint_id
            r.secret_version_id r.key_id)
        ≡ ok raw
      → open_stored s r.workspace_id r.endpoint_id stored
        ≡ ok (record {
          endpoint_id = r.endpoint_id;
          secret = record { key_id = r.key_id; secret = base64_encode raw };
          duplicate = stored.duplicate;
        })
  unfolding open_stored
  open_stored-echo r stored raw e version opens =
      rw
        (
          e.0,
          e.1,
          e.2,
          current_secret r.secret.version r.workspace_id r.endpoint_id r.secret_version_id r.key_id
              version,
          opens,
        )
        refl

  duplicate_kept :
      (workspace_id endpoint_id : Bytes) (stored : RotationStored) (result : RotationResult)
      → open_stored s workspace_id endpoint_id stored ≡ ok result
      → stored.duplicate ≡ result.duplicate
  unfolding open_stored
  duplicate_kept workspace_id endpoint_id stored result h =
      let (plain, _, h1) =
        bind-ok
          (map_err (λ _. failed)
            (unseal s.platform.aead s.materials.signing stored.secret (
              secret_associated_data s.platform stored.secret.version workspace_id endpoint_id
                stored.secret_version_id stored.key_id)))
          _ _ h in
      ap (λ r. r.duplicate) (ok-injective _ result h1)

  -- Let the signing keyring have a primary key and the random source give 12 bytes for a nonce, and let
  -- the store keep the secret of a record that it accepts as new. A rotation that succeeds and is no
  -- duplicate has handed a record to the store with the overlap that was asked for, or 24 hours for 0,
  -- between one hour and seven days; it returns the identifier of the record's key and, in base64, the
  -- secret that is sealed in the record.
  pub rotate-Rotated :
      (rotate_row : RotationRecord → Result EndpointError RotationStored) (draws : Draws)
      (workspace_id endpoint_id key kek : Bytes) (seconds : ℤ) (result : RotationResult)
      → CanSeal s draws kek
      → ((r : RotationRecord) (stored : RotationStored)
          → rotate_row r ≡ ok stored
          → stored.duplicate ≡ false
          → Echoes r stored)
      → rotate s rotate_row draws workspace_id endpoint_id key seconds ≡ ok result
      → result.duplicate ≡ false
      → Rotated s rotate_row draws seconds result
  unfolding rotate
  rotate-Rotated rotate_row draws workspace_id endpoint_id key kek seconds result can keeps h new =
      let (r, made, h1) =
        bind-ok (rotation_record s draws workspace_id endpoint_id key seconds) _ _ h in
      let (stored, taken, h2) = bind-ok (rotate_row r) _ _ h1 in
      let (p, same_w, same_e) =
        rotation_record-Prepared s draws workspace_id endpoint_id key seconds r made in
      let (opens, version) =
        seal-Reopens s.platform.aead draws.secret_random s.materials.signing s.materials.signing
          p.raw _ r.secret can.primary can.secret_drawn can.secret_size can.primary.found
          p.is_sealed in
      let fresh : stored.duplicate ≡ false =
        duplicate_kept workspace_id endpoint_id stored result h2 ∙ new in
      let echoed = open_stored-echo r stored p.raw (keeps r stored taken fresh) version opens in
      let answered : open_stored s r.workspace_id r.endpoint_id stored ≡ ok result =
        rw (same_w, same_e) h2 in
      record {
        rotation = r;
        stored = stored;
        taken = taken;
        prepared = p;
        returned = ap (λ x. x.secret) (ok-injective result _ (sym answered ∙ echoed));
      }
