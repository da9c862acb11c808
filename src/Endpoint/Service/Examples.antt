-- ===== src/Endpoint/Service/Examples.antt =====
-- An endpoint that is created, read back, claimed, and given a new secret.
use go_webhook_delivery.Common.{
  ◌≡◌, refl, sym, ap, ◌&&◌, ◌||◌, ◌==◌, ltb, Bool, true, false, some, List, [], ◌∷◌, ◌++◌,
  if◌then◌else◌, Bytes, bytes, bytes_eq, bytes_eq_refl, pos, eq_ℤ, ok-injective, Result, ok, err,
}
use go_webhook_delivery.Golang.Base64.{base64_encode}
use go_webhook_delivery.Golang.Strings.{cut_prefix, has_prefix}
use go_webhook_delivery.Cryptobox.{
  format_version, unseal, validate, lookup_key, decrypted, open_with, new_cipher,
}
use go_webhook_delivery.Cryptobox.Sealing.{sealed, seal_lem}
use go_webhook_delivery.Outboundhttp.{production}
use go_webhook_delivery.Outboundhttp.Examples.{
  urls, destination, parses, resolves_receiver, receiver,
}
use go_webhook_delivery.Delivery.Types.{Claim}
use go_webhook_delivery.Delivery.Outbound.Examples.{
  platform, runner, zeros12, key, ring, claim, has_primary,
}
use go_webhook_delivery.Endpoint.{EndpointError, not_found}
use go_webhook_delivery.Endpoint.Examples.{two_types, accepted}
use go_webhook_delivery.Endpoint.Service.{
  CreateInput, EndpointRecord, StoredRecord, Draws, EndpointService, drawn, new_signing_secret,
  key_id_of, target_associated_data, secret_associated_data, validate_create_input, new_endpoint,
  created_response, create, get,
}
use go_webhook_delivery.Endpoint.Service.Opens.{
  row_of, in_order, CanSeal, get-create, OpensAs, open_as-new_endpoint,
}
use go_webhook_delivery.Endpoint.Rotation.{
  RotationRecord, RotationStored, RotationResult, rotation_record, rotation_mac,
  rotation_fingerprint, overlap_of, open_stored, rotate,
}
use go_webhook_delivery.Endpoint.Rotation.Answered.{Echoes, Rotated, rotate-Rotated}

abbrev service : EndpointService
service = record {
  platform = platform;
  urls = urls;
  lookup = receiver;
  profile = production;
  allow_http = false;
  materials = runner.materials;
}

abbrev draws : Draws
draws = record {
  id = some (bytes "p");
  secret_id = some (bytes "s");
  audit_id = some (bytes "a");
  secret = some key;
  key_raw = some (bytes "01234567");
  target_random = λ n. some zeros12;
  secret_random = λ n. some zeros12;
}

can_seal : CanSeal service draws key
can_seal = record {
  primary = has_primary;
  target_nonce = zeros12;
  target_drawn = refl;
  target_size = refl;
  secret_nonce = zeros12;
  secret_drawn = refl;
  secret_size = refl;
}

abbrev endpoint : EndpointRecord
endpoint = record {
  id = bytes "p";
  workspace_id = bytes "w";
  secret_version_id = bytes "s";
  audit_id = bytes "a";
  status = bytes "active";
  scheme = bytes "https";
  host = bytes "receiver.test";
  key_id = key_id_of (bytes "01234567");
  port = pos 8443;
  target = sealed platform.aead (pos 1) key zeros12 (bytes "/") (
      target_associated_data platform format_version (bytes "w") (bytes "p") (bytes "https")
        (bytes "receiver.test") (pos 8443));
  secret = sealed platform.aead (pos 1) key zeros12 key (
      secret_associated_data platform format_version (bytes "w") (bytes "p") (bytes "s")
        (key_id_of (bytes "01234567")));
  event_types = two_types;
}

endpoint_made :
    new_endpoint service draws (bytes "w") destination two_types ≡ ok (endpoint, base64_encode key)
unfolding new_endpoint drawn new_signing_secret
endpoint_made =
    rw
      (
        seal_lem platform.aead draws.target_random ring (bytes "/")
            (target_associated_data platform format_version (bytes "w") (bytes "p") (bytes "https")
              (bytes "receiver.test") (pos 8443))
            has_primary refl,
        seal_lem platform.aead draws.secret_random ring key
            (secret_associated_data platform format_version (bytes "w") (bytes "p") (bytes "s")
              (key_id_of (bytes "01234567")))
            has_primary refl,
      )
      refl

abbrev input : CreateInput
input = record { url = bytes "https://receiver.test:8443"; event_types = two_types }

input_valid : validate_create_input service input ≡ ok (destination, two_types)
unfolding validate_create_input
input_valid = rw (parses, resolves_receiver, accepted) refl

is_before : Bytes → Bytes → Bool
is_before [] ys = true
is_before (x ∷ xs) [] = false
is_before (x ∷ xs) (y ∷ ys) = ltb x y || (x == y && is_before xs ys)

-- The order of the database, by the bytes of the texts.
place : Bytes → List Bytes → List Bytes
place t [] = t ∷ []
place t (u ∷ us) = let rest = place t us in if is_before t u then t ∷ u ∷ us else u ∷ rest

by_bytes : List Bytes → List Bytes
by_bytes [] = []
by_bytes (t ∷ ts) = place t (by_bytes ts)

-- The store is the list of the records.
add_row : EndpointRecord → List EndpointRecord → Result EndpointError (List EndpointRecord)
add_row r rows = ok (r ∷ rows)

find_row : List EndpointRecord → Bytes → Bytes → Result EndpointError StoredRecord
find_row [] workspace_id id = err not_found
find_row (r ∷ rows) workspace_id id =
    if bytes_eq r.workspace_id workspace_id && bytes_eq r.id id
    then ok (row_of by_bytes r)
    else find_row rows workspace_id id

find_row-add_row :
    (r : EndpointRecord) (rows after : List EndpointRecord)
    → add_row r rows ≡ ok after
    → find_row after r.workspace_id r.id ≡ ok (row_of by_bytes r)
unfolding add_row find_row
find_row-add_row r rows after h =
    let same : r ∷ rows ≡ after = ok-injective (r ∷ rows) after h in rw (sym same) (found r rows)
  where
    found :
        (r : EndpointRecord) (rows : List EndpointRecord)
        → find_row (r ∷ rows) r.workspace_id r.id ≡ ok (row_of by_bytes r)
    found r rows = rw (bytes_eq_refl r.workspace_id, bytes_eq_refl r.id) refl

creates :
    create service add_row draws (bytes "w") input []
    ≡ ok (created_response service endpoint destination (base64_encode key), endpoint ∷ [])
unfolding create add_row
creates = rw (input_valid, endpoint_made) refl

get-create_example :
    get service
      (find_row (endpoint ∷ []))
      (bytes "w")
      (created_response service endpoint destination (base64_encode key)).endpoint.id
    ≡ ok (
        in_order by_bytes
          (created_response service endpoint destination (base64_encode key)).endpoint)
get-create_example =
    get-create service by_bytes add_row find_row draws (bytes "w") key input [] (endpoint ∷ [])
      (created_response service endpoint destination (base64_encode key)) can_seal find_row-add_row
      creates

abbrev endpoint_claim : Claim
endpoint_claim = record claim {
  workspace_id = bytes "w";
  endpoint_id = bytes "p";
  scheme = bytes "https";
  host = bytes "receiver.test";
  port = pos 8443;
  target = endpoint.target;
  secret_version_id = bytes "s";
  key_id = key_id_of (bytes "01234567");
  secret = endpoint.secret;
}

open_as-new_endpoint_example : OpensAs service ring endpoint_claim destination (base64_encode key)
open_as-new_endpoint_example =
    open_as-new_endpoint service draws (bytes "w") key destination two_types endpoint
      (base64_encode key) ring endpoint_claim can_seal has_primary.found endpoint_made
      (record {
        workspace = refl;
        endpoint = refl;
        scheme = refl;
        host = refl;
        port = refl;
        target = refl;
        secret_version = refl;
        key = refl;
        secret = refl;
      })

abbrev rotation : RotationRecord
rotation = record {
  command_id = bytes "p";
  audit_id = bytes "a";
  workspace_id = bytes "w";
  endpoint_id = bytes "p";
  secret_version_id = bytes "s";
  key_id = key_id_of (bytes "01234567");
  idempotency_hash = rotation_mac service key (bytes "secret-rotation:v1" ++ 10 ∷ bytes "k");
  fingerprint = rotation_fingerprint service key (bytes "p") (pos 86400);
  overlap_seconds = pos 86400;
  secret = endpoint.secret;
}

rotation_made :
    rotation_record service draws (bytes "w") (bytes "p") (bytes "k") (pos 0) ≡ ok rotation
unfolding rotation_record drawn new_signing_secret overlap_of eq_ℤ
rotation_made =
    rw
      (seal_lem platform.aead draws.secret_random ring key
        (secret_associated_data platform format_version (bytes "w") (bytes "p") (bytes "s")
          (key_id_of (bytes "01234567")))
        has_primary refl)
      refl

echo : RotationRecord → Result EndpointError RotationStored
echo r = ok (record {
  secret_version_id = r.secret_version_id;
  key_id = r.key_id;
  secret = r.secret;
  duplicate = false;
})

echo-Echoes :
    (r : RotationRecord) (stored : RotationStored)
    → echo r ≡ ok stored
    → stored.duplicate ≡ false
    → Echoes r stored
unfolding echo
echo-Echoes r stored h new =
    let same = ok-injective _ stored h in
    (
      ap (λ x. x.secret_version_id) (sym same),
      ap (λ x. x.key_id) (sym same),
      ap (λ x. x.secret) (sym same),
    )

abbrev answer : RotationResult
answer = record {
  endpoint_id = bytes "p";
  secret = record { key_id = key_id_of (bytes "01234567"); secret = base64_encode key };
  duplicate = false;
}

rotates : rotate service echo draws (bytes "w") (bytes "p") (bytes "k") (pos 0) ≡ ok answer
unfolding rotate echo open_stored unseal validate lookup_key cut_prefix has_prefix decrypted
    open_with new_cipher eq_ℤ platform
rotates = rw rotation_made refl

rotate-Rotated_example : Rotated service echo draws (pos 0) answer
rotate-Rotated_example =
    rotate-Rotated service echo draws (bytes "w") (bytes "p") (bytes "k") key (pos 0) answer
      can_seal echo-Echoes rotates refl
