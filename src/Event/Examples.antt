-- ===== src/Event/Examples.antt =====
-- An event with two subscribers, published twice.
use go_webhook_delivery.Common.{
  ℕ, ◌≡◌, ◌↔◌, ◌⊎◌, refl, ap, Result, true, false, Option, some, List, [], ◌∷◌, ◌+ℤ◌, Bytes, bytes,
  bytes_eq, pos, ok, err, length, eq_ℤ, ◌*◌,
}
use go_webhook_delivery.Cryptobox.{lookup_key, associated_data}
use go_webhook_delivery.Cryptobox.Sealing.{sealed, seal_lem}
use go_webhook_delivery.Delivery.Requests.{payload_parts, open_as}
use go_webhook_delivery.Delivery.Outbound.Examples.{
  platform, runner, zeros12, key, ring, claim, has_primary,
}
use go_webhook_delivery.Endpoint.{matches_event_type, is_alphanumeric, all_type_chars}
use go_webhook_delivery.Golang.Strings.{trim_space}
use go_webhook_delivery.Tenanttx.{within-works}
use go_webhook_delivery.Event.Json.{
  Token, text, atom, open_brace, close_brace, Json, leaf, object, end, member, key_seen,
  decode_value,
}
use go_webhook_delivery.Event.Json.Exact.{Decoded, decode_value_iff}
use go_webhook_delivery.Event.Store.{
  PublishError, conflict, unavailable, store_publish, NewRecord, StoreResult, DeliveryRow, Database,
  Ids, has_id, find_event, event_ids, delivery_keys, subscribers, new_id, new_deliveries, fan_out,
  insert_deliveries, publish_found, publish_tx,
}
use go_webhook_delivery.Event.Store.Inserts.{IsReferenced, Inserted, Found, publish_tx-cases}
use go_webhook_delivery.Event.Store.Republish.{
  repeated, publish_tx-IsReferenced, publish_tx-conflict,
}
use go_webhook_delivery.Event.Publish.{
  Parsers, Meets, find_member, type_of, has_member, members_of, canonical_of, end_of_text,
  check_sizes, key_hash_of, fingerprint_of, validate_and_canonicalize, event_parts,
  payload_lifetime, new_record, store_record, publish,
}
use go_webhook_delivery.Event.Publish.Accepted.{IsEvent, validate_and_canonicalize_iff}
use go_webhook_delivery.Event.Publish.Idempotent.{
  working, service_of, publish-Repeats, open_as-new_record,
}
use go_webhook_delivery.Event.Handler.{Stores, handle_publish, handle_publish-Stores}

abbrev body : Bytes
body = bytes "{\"type\":\"t\",\"data\":{}}"

abbrev body_tokens : List Token
body_tokens =
    open_brace
    ∷ atom (text (bytes "type"))
    ∷ atom (text (bytes "t"))
    ∷ atom (text (bytes "data"))
    ∷ open_brace
    ∷ close_brace
    ∷ close_brace
    ∷ []

abbrev body_value : Json
body_value =
    object
      (member (bytes "type") (leaf (text (bytes "t"))) (member (bytes "data") (object end) end))

abbrev parsers : Parsers
parsers = record { tokens = λ raw. (body_tokens, true); canonicalize = λ raw. some raw }

abbrev next_id : ℕ → Option Bytes
next_id n = some (n ∷ [])

abbrev ids : Ids
ids = record { new_v7 = next_id; sort = λ xs. xs }

abbrev meets : Bytes → Meets
meets id = record {
  new_v7 = some id;
  random = λ n. some zeros12;
  now = pos 0;
  connection = working;
  ids = ids;
}

abbrev tables : Database
tables = record {
  events = [];
  deliveries = [];
  endpoints =
      record {
        endpoint_id = bytes "p";
        endpoint_workspace = bytes "w";
        is_active = true;
        subscriptions = bytes "t" ∷ [];
      }
      ∷ record {
        endpoint_id = bytes "q";
        endpoint_workspace = bytes "w";
        is_active = true;
        subscriptions = bytes "u" ∷ bytes "t" ∷ [];
      }
      ∷ [];
}

abbrev event : Bytes → NewRecord
event id = record {
  id = id;
  workspace_id = bytes "w";
  event_type = bytes "t";
  key_hash = key_hash_of platform.hmac runner.materials (bytes "k");
  fingerprint = fingerprint_of platform.hmac runner.materials (bytes "t") body;
  fingerprint_version = pos 1;
  payload = sealed platform.aead (pos 1) key zeros12 body (
      associated_data
        (event_parts (service_of platform parsers runner.materials) (bytes "w") id (bytes "t")));
  payload_size = length body;
  payload_expires_at = pos 0 +ℤ pos payload_lifetime;
}

abbrev first_result : StoreResult
first_result = record {
  event_id = bytes "e";
  delivery_ids = (0 ∷ []) ∷ (1 ∷ []) ∷ [];
  duplicate = false;
}

decodes : decode_value (2 * length body_tokens) body_tokens ≡ ok (body_value, [])
unfolding decode_value key_seen bytes_eq
decodes = refl

decode_value_iff_example :
    (decode_value (2 * length body_tokens) body_tokens ≡ ok (body_value, []))
    ↔ Decoded body_tokens body_value []
decode_value_iff_example = decode_value_iff body_tokens body_value []

validated : validate_and_canonicalize parsers body ≡ ok (bytes "t", body)
unfolding validate_and_canonicalize members_of type_of find_member has_member canonical_of
    end_of_text bytes_eq matches_event_type is_alphanumeric all_type_chars
validated = rw decodes refl

found_key : lookup_key (pos 1) ring.keys ≡ some key
unfolding lookup_key eq_ℤ
found_key = refl

record_made :
    (id : Bytes)
    → new_record
        (service_of platform parsers runner.materials)
        (meets id)
        (bytes "w")
        (bytes "k")
        body
      ≡ ok (event id)
unfolding new_record check_sizes new_id
record_made id =
    rw
      (
        validated,
        seal_lem platform.aead (meets id).random ring body
            (associated_data (
              event_parts (service_of platform parsers runner.materials) (bytes "w") id
                (bytes "t")))
            has_primary refl,
      )
      refl

abbrev rows : List DeliveryRow
rows =
    record {
      delivery_id = 0 ∷ [];
      delivery_workspace = bytes "w";
      delivery_event = bytes "e";
      delivery_endpoint = bytes "p";
    }
    ∷ record {
      delivery_id = 1 ∷ [];
      delivery_workspace = bytes "w";
      delivery_event = bytes "e";
      delivery_endpoint = bytes "q";
    }
    ∷ []

abbrev after_first : Database
after_first = record tables { events = event (bytes "e") ∷ []; deliveries = rows }

first : publish_tx ids (event (bytes "e")) tables ≡ ok (first_result, after_first)
unfolding publish_tx publish_found find_event event_ids has_id insert_deliveries fan_out subscribers
    new_deliveries new_id delivery_keys bytes_eq
first = refl

publish_tx-cases_example :
    Inserted ids (event (bytes "e")) tables first_result after_first
    ⊎ Found ids (event (bytes "e")) tables first_result after_first
publish_tx-cases_example =
    publish_tx-cases ids (event (bytes "e")) tables first_result after_first first

publish_tx-IsReferenced_example : IsReferenced after_first
publish_tx-IsReferenced_example =
    publish_tx-IsReferenced ids (event (bytes "e")) tables first_result after_first first tt

abbrev other_event : NewRecord
other_event = record (event (bytes "f")) { fingerprint = bytes "another" }

publish_tx-conflict_example : publish_tx ids other_event after_first ≡ err conflict
unfolding fingerprint_of platform bytes_eq
publish_tx-conflict_example =
    publish_tx-conflict ids ids other_event (event (bytes "e")) tables first_result after_first refl
      refl refl first

abbrev first_call : Result PublishError StoreResult × Database
first_call =
    publish (service_of platform parsers runner.materials) (meets (bytes "e")) (bytes "w")
      (bytes "k") body tables

first_works : first_call ≡ (ok first_result, after_first)
unfolding publish store_record store_publish
first_works = rw (record_made (bytes "e")) (
    within-works unavailable first_result after_first (publish_tx ids (event (bytes "e"))) tables
      first)

publish-Repeats_example :
    publish
      (service_of platform parsers runner.materials)
      (meets (bytes "f"))
      (bytes "w")
      (bytes "k")
      body
      first_call.1
    ≡ (ok (repeated ids first_result), first_call.1)
publish-Repeats_example =
    publish-Repeats (service_of platform parsers runner.materials) (meets (bytes "e"))
      (meets (bytes "f")) (bytes "w") (bytes "k") body body (bytes "t") body (event (bytes "f"))
      tables first_result (λ xs. refl) tt validated validated (ap (λ r. r.0) first_works)
      (record_made (bytes "f")) refl

open_as-new_record_example :
    open_as platform
      (bytes "decrypt_payload")
      ring
      (event (bytes "e")).payload
      (payload_parts platform (record claim { payload = (event (bytes "e")).payload }))
    ≡ ok body
open_as-new_record_example =
    open_as-new_record platform parsers runner.materials (meets (bytes "e")) (bytes "w") (bytes "k")
      body (bytes "decrypt_payload") (event (bytes "e"))
      (record claim { payload = (event (bytes "e")).payload }) ring key zeros12
      (record_made (bytes "e")) has_primary refl refl found_key
      (record { workspace = refl; event = refl; event_type = refl; payload = refl })

validate_and_canonicalize_iff_example :
    (validate_and_canonicalize parsers body ≡ ok (bytes "t", body))
    ↔ IsEvent parsers body (bytes "t") body
validate_and_canonicalize_iff_example = validate_and_canonicalize_iff parsers body (bytes "t") body

handle_publish-Stores_example :
    Stores
      (service_of platform parsers runner.materials)
      (meets (bytes "e"))
      (bytes "w")
      (bytes "application/json")
      (trim_space (bytes "k"))
      (some body)
      tables
      (handle_publish
        (service_of platform parsers runner.materials)
        (meets (bytes "e"))
        (bytes "w")
        (bytes "application/json")
        (bytes "k")
        (some body)
        tables)
handle_publish-Stores_example =
    handle_publish-Stores (service_of platform parsers runner.materials) (meets (bytes "e"))
      (bytes "w") (bytes "application/json") (bytes "k") (some body) tables
