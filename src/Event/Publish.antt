-- ===== src/Event/Publish.antt =====
-- `Service.Publish` of internal/event/event.go: from the body of a request to the stored event. The
-- JSON tokenizer, the canonicalizer, HMAC, AES-GCM and the UUID library are arguments.
pub mod Accepted
pub mod Idempotent
use go_webhook_delivery.Common.{
  ℕ, ◌+◌, ◌*◌, Bool, true, false, not, ◌&&◌, ◌||◌, Option, none, some, List, [], ◌∷◌, ◌++◌, ltb,
  leb, if◌then◌else◌, Bytes, bytes, bytes_eq, is_empty, length, ℤ, pos, ◌+ℤ◌, Result, ok, err,
  ◌>>=◌, ◌>>◌, require, map_err, ◌==◌,
}
use go_webhook_delivery.Golang.Time.{second}
use go_webhook_delivery.Cryptobox.{Envelope, Aead, Random, seal, associated_data}
use go_webhook_delivery.Cryptobox.Keyrings.{Materials}
use go_webhook_delivery.Signing.{Hmac}
use go_webhook_delivery.Tenanttx.{Connection}
use go_webhook_delivery.Endpoint.{matches_event_type}
use go_webhook_delivery.Event.Json.{
  Atom, text, Token, Json, leaf, object, array, Members, end, member, decode_value,
}
use go_webhook_delivery.Event.Store.{
  PublishError, invalid, conflict, unavailable, NewRecord, StoreResult, Database, Ids, new_id,
  store_publish,
}

abbrev pub max_payload_bytes : ℕ
max_payload_bytes = 1048576

-- `tokens` gives the tokens of a text and tells whether its end was reached without an error.
pub record Parsers : Type 0 where
  pub tokens : Bytes → List Token × Bool
  pub canonicalize : Bytes → Option Bytes

-- The entry of a decoded object.
unfoldable pub find_member : Bytes → Members → Option Json
find_member key end = none
find_member key (member k v ms) = if bytes_eq k key then some v else find_member key ms

unfoldable pub type_of : Option Json → Result PublishError Bytes
type_of (some (leaf (text t))) = do
  require (leb (length t) 128 && matches_event_type t) invalid
  ok t
type_of _ = err invalid

unfoldable pub has_member : Option Json → Bool
has_member none = false
has_member (some v) = true

unfoldable pub members_of : Json → Result PublishError Members
members_of (object ms) = ok ms
members_of _ = err invalid

unfoldable pub canonical_of : Option Bytes → Result PublishError Bytes
canonical_of none = err invalid
canonical_of (some c) = ok c

unfoldable pub end_of_text : List Token × Bool → Bool
end_of_text (ts, clean) = is_empty ts && clean

-- `validateAndCanonicalize`, whose errors all count as invalid.
unfoldable pub validate_and_canonicalize : Parsers → Bytes → Result PublishError (Bytes × Bytes)
validate_and_canonicalize p raw = do
  (v, rest) ← map_err (λ _. invalid) (decode_value (2 * length (p.tokens raw).0) (p.tokens raw).0)
  require (end_of_text (rest, (p.tokens raw).1)) invalid
  ms ← members_of v
  event_type ← type_of (find_member (bytes "type") ms)
  require (has_member (find_member (bytes "data") ms)) invalid
  canonical ← canonical_of (p.canonicalize raw)
  ok (event_type, canonical)

-- `keyed`: an HMAC of 32 bytes.
unfoldable pub key_hash_of : Hmac → Materials → Bytes → Bytes
key_hash_of h m key = h.mac m.idempotency_pepper (bytes "idempotency:v1" ++ (10 ∷ key))

unfoldable pub fingerprint_of : Hmac → Materials → Bytes → Bytes → Bytes
fingerprint_of h m event_type canonical =
    h.mac m.fingerprint_pepper
      (bytes "v1" ++ (10 ∷ (event_type ++ (10 ∷ (bytes "all" ++ (10 ∷ canonical))))))

-- 30 days.
abbrev pub payload_lifetime : ℕ
payload_lifetime = 2592000 * second

-- What a call of `Publish` meets: the identifier it draws, the random bytes, the clock, and the
-- connection and the identifiers of its transaction.
pub record Meets : Type 0 where
  pub new_v7 : Option Bytes
  pub random : Random
  pub now : ℤ
  pub connection : Connection
  pub ids : Ids

pub record Service : Type 0 where
  pub parsers : Parsers
  pub hmac : Hmac
  pub aead : Aead
  pub uuid_string : Bytes → Bytes
  pub materials : Materials

unfoldable pub check_sizes : Bytes → Bytes → Bool
check_sizes key raw = not (
    ltb (length key) 1
    || ltb 128 (length key)
    || is_empty raw
    || ltb max_payload_bytes (length raw))

module _ (s : Service) where
  open s use {parsers, hmac, aead, uuid_string, materials}

  unfoldable pub event_parts : Bytes → Bytes → Bytes → List Bytes
  event_parts workspace_id id event_type =
      bytes "2"
      ∷ uuid_string workspace_id
      ∷ bytes "event_payload"
      ∷ uuid_string id
      ∷ event_type
      ∷ []

  -- The record that `Publish` hands to the store.
  unfoldable pub new_record : Meets → Bytes → Bytes → Bytes → Result PublishError NewRecord
  new_record m workspace_id key raw = do
    require (check_sizes key raw) invalid
    (event_type, canonical) ← validate_and_canonicalize parsers raw
    id ← new_id m.new_v7
    payload ←
        map_err (λ _. unavailable)
          (seal aead m.random materials.payload raw
            (associated_data (event_parts workspace_id id event_type)))
    ok (record {
      id = id;
      workspace_id = workspace_id;
      event_type = event_type;
      key_hash = key_hash_of hmac materials key;
      fingerprint = fingerprint_of hmac materials event_type canonical;
      fingerprint_version = pos 1;
      payload = payload;
      payload_size = length raw;
      payload_expires_at = m.now +ℤ pos payload_lifetime;
    })

  unfoldable pub store_record :
      Meets → Result PublishError NewRecord → Database → Result PublishError StoreResult × Database
  store_record m (err e) db = (err e, db)
  store_record m (ok r) db = store_publish m.ids m.connection r db

  -- `Service.Publish`.
  unfoldable pub publish :
      Meets → Bytes → Bytes → Bytes → Database → Result PublishError StoreResult × Database
  unfolding new_record store_record
  publish m workspace_id key raw db = store_record m (new_record m workspace_id key raw) db
