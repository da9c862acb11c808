-- ===== src/Event/Publish/Idempotent.antt =====
-- A publication that is repeated, and the payload that the worker opens.
use go_webhook_delivery.Common.{
  ◌≡◌, refl, sym, ◌∙◌, true, some, List, Bytes, length, pos, ◌+ℤ◌, eq_ℤ, Result, ok, err, bind-ok,
  require-then, map_err, map_err-ok,
}
use go_webhook_delivery.Cryptobox.{seal, unseal, associated_data, lookup_key, nonce_size, Keyring}
use go_webhook_delivery.Cryptobox.Sealing.{HasPrimary, seal_lem, sealed, unseal-seal}
use go_webhook_delivery.Cryptobox.Keyrings.{Materials}
use go_webhook_delivery.Tenanttx.{Connection, committed, within-ok, within-works}
use go_webhook_delivery.Delivery.Types.{Claim}
use go_webhook_delivery.Delivery.Requests.{Platform, payload_parts, open_as}
use go_webhook_delivery.Event.Store.{
  PublishError, unavailable, NewRecord, StoreResult, Database, new_id, publish_tx, store_publish,
}
use go_webhook_delivery.Event.Store.Inserts.{IsReferenced}
use go_webhook_delivery.Event.Store.Republish.{Repeats, repeated, publish_tx-Repeats}
use go_webhook_delivery.Event.Publish.{
  Parsers, Service, Meets, check_sizes, validate_and_canonicalize, key_hash_of, fingerprint_of,
  event_parts, new_record, store_record, publish, payload_lifetime,
}

-- A connection on which no call fails.
abbrev pub working : Connection
working = record { begins = true; sets_workspace = true; commits = committed }

module _ (s : Service) where
  -- The record of a request.
  pub record Built (m : Meets) (workspace_id key raw : Bytes) (r : NewRecord) : Type 0 where
    pub event_type : Bytes
    pub canonical : Bytes
    pub validated : validate_and_canonicalize s.parsers raw ≡ ok (event_type, canonical)
    pub has_workspace : r.workspace_id ≡ workspace_id
    pub has_type : r.event_type ≡ event_type
    pub has_key : r.key_hash ≡ key_hash_of s.hmac s.materials key
    pub has_fingerprint : r.fingerprint ≡ fingerprint_of s.hmac s.materials event_type canonical
    pub has_version : r.fingerprint_version ≡ pos 1
    pub is_sealed :
        seal s.aead m.random s.materials.payload raw
          (associated_data (event_parts s r.workspace_id r.id r.event_type))
        ≡ ok r.payload

  pub new_record-Built :
      (m : Meets) (workspace_id key raw : Bytes) (r : NewRecord)
      → new_record s m workspace_id key raw ≡ ok r
      → Built m workspace_id key raw r
  unfolding new_record
  new_record-Built m workspace_id key raw r h =
      let (_, h1) = require-then (check_sizes key raw) _ _ _ h in
      let (v, validated, h2) = bind-ok (validate_and_canonicalize s.parsers raw) _ _ h1 in
      let (id, _, h3) = bind-ok (new_id m.new_v7) _ _ h2 in
      let (payload, made, h4) =
        bind-ok
          (map_err (λ _. unavailable)
            (seal s.aead m.random s.materials.payload raw
              (associated_data (event_parts s workspace_id id v.0))))
          _ _ h3 in
      let filled : NewRecord = record {
        id = id;
        workspace_id = workspace_id;
        event_type = v.0;
        key_hash = key_hash_of s.hmac s.materials key;
        fingerprint = fingerprint_of s.hmac s.materials v.0 v.1;
        fingerprint_version = pos 1;
        payload = payload;
        payload_size = length raw;
        payload_expires_at = m.now +ℤ pos payload_lifetime;
      } in
      let same : filled ≡ r = cc in
      rw (sym same) (record {
        event_type = v.0;
        canonical = v.1;
        validated = validated;
        has_workspace = refl;
        has_type = refl;
        has_key = refl;
        has_fingerprint = refl;
        has_version = refl;
        is_sealed = map_err-ok _ _ payload made;
      })

  store_record-ok :
      (m : Meets) (made : Result PublishError NewRecord) (db : Database) (result : StoreResult)
      → (store_record s m made db).0 ≡ ok result
      → (r : NewRecord) × (made ≡ ok r)
        × (publish_tx m.ids r db ≡ ok (result, (store_record s m made db).1))
  unfolding store_record store_publish
  store_record-ok m (err e) db result h = absurd cc
  store_record-ok m (ok r) db result h =
      (r, refl, within-ok m.connection unavailable result (publish_tx m.ids r) db h)

  -- What a publication that succeeds has done: it has made a record, and run its transaction.
  pub publish-ok :
      (m : Meets) (workspace_id key raw : Bytes) (db : Database) (result : StoreResult)
      → (publish s m workspace_id key raw db).0 ≡ ok result
      → (r : NewRecord) × (new_record s m workspace_id key raw ≡ ok r)
        × (publish_tx m.ids r db ≡ ok (result, (publish s m workspace_id key raw db).1))
  unfolding publish
  publish-ok m workspace_id key raw db result h =
      store_record-ok m (new_record s m workspace_id key raw) db result h

  Built-Repeats :
      (m m' : Meets) (workspace_id key raw raw' event_type canonical : Bytes) (again r : NewRecord)
      → validate_and_canonicalize s.parsers raw ≡ ok (event_type, canonical)
      → validate_and_canonicalize s.parsers raw' ≡ ok (event_type, canonical)
      → Built m workspace_id key raw r
      → Built m' workspace_id key raw' again
      → Repeats again r
  Built-Repeats m m' workspace_id key raw raw' event_type canonical again r v v' b b' =
      let types : b'.event_type ≡ b.event_type = cc in
      let texts : b'.canonical ≡ b.canonical = cc in
      record {
        workspace = b'.has_workspace ∙ sym b.has_workspace;
        key = b'.has_key ∙ sym b.has_key;
        fingerprint = b'.has_fingerprint ∙ rw (types, texts) (sym b.has_fingerprint);
        version = b'.has_version ∙ sym b.has_version;
      }

  -- Let every delivery of the tables refer to an event of theirs, and let it not matter whether the
  -- database puts identifiers in order once or twice. After a publication that succeeds, another of
  -- the workspace under the same key, whose body has the same type and the same canonical form, and
  -- for which a record can be made, succeeds on a connection that works: it changes nothing, and
  -- returns the identifier of the first event and its deliveries in order, marked as a duplicate.
  pub publish-Repeats :
      (m m' : Meets) (workspace_id key raw raw' event_type canonical : Bytes) (again : NewRecord)
      (db : Database) (result : StoreResult)
      → ((xs : List Bytes) → m'.ids.sort (m.ids.sort xs) ≡ m'.ids.sort xs)
      → IsReferenced db
      → validate_and_canonicalize s.parsers raw ≡ ok (event_type, canonical)
      → validate_and_canonicalize s.parsers raw' ≡ ok (event_type, canonical)
      → (publish s m workspace_id key raw db).0 ≡ ok result
      → new_record s m' workspace_id key raw' ≡ ok again
      → m'.connection ≡ working
      → publish s m' workspace_id key raw' (publish s m workspace_id key raw db).1
        ≡ (ok (repeated m'.ids result), (publish s m workspace_id key raw db).1)
  unfolding publish store_record store_publish
  publish-Repeats m m' workspace_id key raw raw' event_type canonical again db result twice
        referenced v v' h made works =
      let (r, made_first, ran) = publish-ok m workspace_id key raw db result h in
      let repeats =
        Built-Repeats m m' workspace_id key raw raw' event_type canonical again r v v'
          (new_record-Built m workspace_id key raw r made_first)
          (new_record-Built m' workspace_id key raw' again made) in
      let second =
        publish_tx-Repeats m.ids m'.ids twice again r db result _ referenced repeats ran in
      rw (made, works) (within-works unavailable _ _ (publish_tx m'.ids again) _ second)

-- The service of a program with the platform's cipher and UUID library.
abbrev pub service_of : Platform → Parsers → Materials → Service
service_of p parsers materials = record {
  parsers = parsers;
  hmac = p.hmac;
  aead = p.aead;
  uuid_string = p.uuid_string;
  materials = materials;
}

-- A claim that carries the columns of an event.
pub record ClaimsEvent (c : Claim) (r : NewRecord) : Type 0 where
  pub workspace : c.workspace_id ≡ r.workspace_id
  pub event : c.event_id ≡ r.id
  pub event_type : c.event_type ≡ r.event_type
  pub payload : c.payload ≡ r.payload

-- Let a keyring of payload keys have a primary key, and the random source give 12 bytes. The payload
-- of a record that `Publish` makes, in a claim with the columns of that record, is opened by the
-- delivery worker under every keyring that still has the key, and is the body of the request.
pub open_as-new_record :
    (p : Platform) (parsers : Parsers) (materials : Materials) (m : Meets)
    (workspace_id key raw category : Bytes) (r : NewRecord) (c : Claim) (later : Keyring)
    (kek nonce : Bytes)
    → new_record (service_of p parsers materials) m workspace_id key raw ≡ ok r
    → HasPrimary materials.payload kek
    → m.random nonce_size ≡ some nonce
    → length nonce ≡ 12
    → lookup_key materials.payload.primary later.keys ≡ some kek
    → ClaimsEvent c r
    → open_as p category later c.payload (payload_parts p c) ≡ ok raw
unfolding open_as payload_parts event_parts eq_ℤ
open_as-new_record p parsers materials m workspace_id key raw category r c later kek nonce made
      primary random size kept claims =
    let b = new_record-Built (service_of p parsers materials) m workspace_id key raw r made in
    let parts = event_parts (service_of p parsers materials) r.workspace_id r.id r.event_type in
    let (e, made_e, opened) =
      unseal-seal p.aead m.random materials.payload later raw (associated_data parts) primary random
        size kept in
    let envelope = sealed p.aead materials.payload.primary kek nonce raw (associated_data parts) in
    let made_envelope =
      seal_lem p.aead m.random materials.payload raw (associated_data parts) primary random in
    let same : r.payload ≡ envelope = cc in
    let same_e : e ≡ envelope = cc in
    let opens : unseal p.aead later envelope (associated_data parts) ≡ ok raw =
      rw (sym same_e) opened in
    rw (claims.workspace, claims.event, claims.event_type, claims.payload, same, opens) refl
