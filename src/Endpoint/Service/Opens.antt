-- ===== src/Endpoint/Service/Opens.antt =====
-- A created endpoint is read back, and the worker opens what was sealed for it.
use go_webhook_delivery.Common.{
  ◌≡◌, refl, sym, ap, ◌∙◌, false, some, List, Bytes, bytes, length, ℤ, eq_ℤ, Result, ok, bind-ok,
  ok-injective, map_err, map_err-ok,
}
use go_webhook_delivery.Golang.Base64.{base64_encode}
use go_webhook_delivery.Cryptobox.{
  Keyring, seal, unseal, lookup_key, nonce_size, format_version, legacy_format_version,
}
use go_webhook_delivery.Cryptobox.Sealing.{HasPrimary, seal-Reopens}
use go_webhook_delivery.Outboundhttp.Destination.{Destination}
use go_webhook_delivery.Delivery.Types.{Claim}
use go_webhook_delivery.Delivery.Requests.{Platform, target_parts, secret_parts, open_as}
use go_webhook_delivery.Endpoint.{EndpointError, failed}
use go_webhook_delivery.Endpoint.Service.{
  CreateInput, EndpointView, Created, EndpointRecord, StoredRecord, Draws, EndpointService, drawn,
  new_signing_secret, target_associated_data, secret_associated_data, build_url,
  validate_create_input, new_endpoint, created_response, create, get,
}

-- The row that `Get` reads of a record that was created; `order` is the database's order of texts, in
-- which `Get` reads the event types.
abbrev pub row_of : (List Bytes → List Bytes) → EndpointRecord → StoredRecord
row_of order r = record {
  status = r.status;
  scheme = r.scheme;
  host = r.host;
  port = r.port;
  target = r.target;
  event_types = order r.event_types;
}

-- A view of an endpoint, with its event types in that order.
abbrev pub in_order : (List Bytes → List Bytes) → EndpointView → EndpointView
in_order order e = record e { event_types = order e.event_types }

module _ (s : EndpointService) where
  -- What a record is made of.
  pub record Built (draws : Draws) (workspace_id : Bytes) (d : Destination) (types : List Bytes)
      (r : EndpointRecord) (text : Bytes) : Type 0 where
    pub raw : Bytes
    pub has_workspace : r.workspace_id ≡ workspace_id
    pub has_scheme : r.scheme ≡ d.scheme
    pub has_host : r.host ≡ d.host
    pub has_port : r.port ≡ d.port
    pub returned : text ≡ base64_encode raw
    pub target_sealed :
        seal s.platform.aead draws.target_random s.materials.signing d.path (
          target_associated_data s.platform format_version r.workspace_id r.id r.scheme r.host
            r.port)
        ≡ ok r.target
    pub secret_sealed :
        seal s.platform.aead draws.secret_random s.materials.signing raw (
          secret_associated_data s.platform format_version r.workspace_id r.id r.secret_version_id
            r.key_id)
        ≡ ok r.secret

  new_endpoint-Built :
      (draws : Draws) (workspace_id : Bytes) (d : Destination) (types : List Bytes)
      (r : EndpointRecord) (text : Bytes)
      → new_endpoint s draws workspace_id d types ≡ ok (r, text)
      → Built draws workspace_id d types r text
  unfolding new_endpoint
  new_endpoint-Built draws workspace_id d types r text h =
      let (id, _, h1) = bind-ok (drawn draws.id) _ _ h in
      let (secret_id, _, h2) = bind-ok (drawn draws.secret_id) _ _ h1 in
      let (audit_id, _, h3) = bind-ok (drawn draws.audit_id) _ _ h2 in
      let (k, _, h4) = bind-ok (new_signing_secret draws.secret draws.key_raw) _ _ h3 in
      let (target, target_made, h5) =
        bind-ok
          (map_err (λ _. failed)
            (seal s.platform.aead draws.target_random s.materials.signing d.path (
              target_associated_data s.platform format_version workspace_id id d.scheme d.host
                d.port)))
          _ _ h4 in
      let (secret, secret_made, h6) =
        bind-ok
          (map_err (λ _. failed)
            (seal s.platform.aead draws.secret_random s.materials.signing k.0
              (secret_associated_data s.platform format_version workspace_id id secret_id k.1)))
          _ _ h5 in
      let filled : EndpointRecord = record {
        id = id;
        workspace_id = workspace_id;
        secret_version_id = secret_id;
        audit_id = audit_id;
        status = bytes "active";
        scheme = d.scheme;
        host = d.host;
        key_id = k.1;
        port = d.port;
        target = target;
        secret = secret;
        event_types = types;
      } in
      let pair = ok-injective (filled, base64_encode k.0) (r, text) h6 in
      let same : filled ≡ r = ap (λ q. q.0) pair in
      let same_text : base64_encode k.0 ≡ text = ap (λ q. q.1) pair in
      rw (sym same) (record {
        raw = k.0;
        has_workspace = refl;
        has_scheme = refl;
        has_host = refl;
        has_port = refl;
        returned = sym same_text;
        target_sealed = map_err-ok _ _ target target_made;
        secret_sealed = map_err-ok _ _ secret secret_made;
      })

current_target :
    (p : Platform) (version : ℤ) (workspace_id id scheme host : Bytes) (port : ℤ)
    → eq_ℤ version legacy_format_version ≡ false
    → target_associated_data p version workspace_id id scheme host port
      ≡ target_associated_data p format_version workspace_id id scheme host port
unfolding target_associated_data eq_ℤ
current_target p version workspace_id id scheme host port h = rw h refl

-- The keyring has a primary key, and the random sources give 12 bytes each.
pub record CanSeal (s : EndpointService) (draws : Draws) (kek : Bytes) : Type 0 where
  pub primary : HasPrimary s.materials.signing kek
  pub target_nonce : Bytes
  pub target_drawn : draws.target_random nonce_size ≡ some target_nonce
  pub target_size : length target_nonce ≡ 12
  pub secret_nonce : Bytes
  pub secret_drawn : draws.secret_random nonce_size ≡ some secret_nonce
  pub secret_size : length secret_nonce ≡ 12

module _ (s : EndpointService) where
  get_opened :
      (order : List Bytes → List Bytes)
      (get_row : Bytes → Bytes → Result EndpointError StoredRecord) (r : EndpointRecord)
      (path : Bytes)
      → get_row r.workspace_id r.id ≡ ok (row_of order r)
      → eq_ℤ r.target.version legacy_format_version ≡ false
      → unseal s.platform.aead s.materials.signing r.target (
          target_associated_data s.platform format_version r.workspace_id r.id r.scheme r.host
            r.port)
        ≡ ok path
      → get s get_row r.workspace_id r.id
        ≡ ok (record {
          id = r.id;
          url = build_url s.platform r.scheme r.host r.port path;
          status = r.status;
          event_types = order r.event_types;
        })
  unfolding get
  get_opened order get_row r path read version opens =
      rw
        (
          read,
          current_target s.platform r.target.version r.workspace_id r.id r.scheme r.host r.port
              version,
          opens,
        )
        refl

  get-Built :
      (order : List Bytes → List Bytes)
      (get_row : Bytes → Bytes → Result EndpointError StoredRecord) (draws : Draws)
      (workspace_id kek : Bytes) (d : Destination) (types : List Bytes) (r : EndpointRecord)
      (text : Bytes)
      → CanSeal s draws kek
      → Built s draws workspace_id d types r text
      → get_row r.workspace_id r.id ≡ ok (row_of order r)
      → get s get_row workspace_id r.id ≡ ok (in_order order (created_response s r d text).endpoint)
  unfolding created_response
  get-Built order get_row draws workspace_id kek d types r text can b read =
      let (opens, version) =
        seal-Reopens s.platform.aead draws.target_random s.materials.signing s.materials.signing
          d.path _ r.target can.primary can.target_drawn can.target_size can.primary.found
          b.target_sealed in
      rw (sym b.has_workspace) (
        get_opened order get_row r d.path read version opens ∙ λ i. ok (record {
          id = r.id;
          url = build_url s.platform (b.has_scheme i) (b.has_host i) (b.has_port i) d.path;
          status = r.status;
          event_types = order r.event_types;
        }))

  get_same {ℓ} :
      {Store : Type ℓ} (order : List Bytes → List Bytes)
      (get_row : Store → Bytes → Bytes → Result EndpointError StoredRecord) (workspace_id : Bytes)
      {c c' : Created} {st st' : Store}
      → c ≡ c'
      → st ≡ st'
      → get s (get_row st) workspace_id c.endpoint.id ≡ ok (in_order order c.endpoint)
      → get s (get_row st') workspace_id c'.endpoint.id ≡ ok (in_order order c'.endpoint)
  get_same order get_row workspace_id same last h = rw (sym same, sym last) h

  -- Let the signing keyring have a primary key and the random source give 12 bytes for a nonce, and let
  -- the store, once it has accepted a record, give back its row, with the event types in the order of
  -- the database. An endpoint that was created is returned by `Get` with the URL and the status of the
  -- response to its creation, and with the event types of that response in the order of the database.
  pub get-create {ℓ} :
      {Store : Type ℓ} (order : List Bytes → List Bytes)
      (create_row : EndpointRecord → Store → Result EndpointError Store)
      (get_row : Store → Bytes → Bytes → Result EndpointError StoredRecord) (draws : Draws)
      (workspace_id kek : Bytes) (input : CreateInput) (before after : Store) (created : Created)
      → CanSeal s draws kek
      → ((r : EndpointRecord) (st st' : Store)
          → create_row r st ≡ ok st'
          → get_row st' r.workspace_id r.id ≡ ok (row_of order r))
      → create s create_row draws workspace_id input before ≡ ok (created, after)
      → get s (get_row after) workspace_id created.endpoint.id
        ≡ ok (in_order order created.endpoint)
  unfolding create created_response
  get-create order create_row get_row draws workspace_id kek input before after created can keeps
        h =
      let (v, _, h1) = bind-ok (validate_create_input s input) _ _ h in
      let (q, made, h2) = bind-ok (new_endpoint s draws workspace_id v.0 v.1) _ _ h1 in
      let (st, stored, h3) = bind-ok (create_row q.0 before) _ _ h2 in
      let pair = ok-injective (created_response s q.0 v.0 q.1, st) (created, after) h3 in
      let same : created_response s q.0 v.0 q.1 ≡ created = ap (λ x. x.0) pair in
      let last : st ≡ after = ap (λ x. x.1) pair in
      let b = new_endpoint-Built s draws workspace_id v.0 v.1 q.0 q.1 made in
      get_same order get_row workspace_id same last (
        get-Built order (get_row st) draws workspace_id kek v.0 v.1 q.0 q.1 can b
          (keeps q.0 before st stored))

-- A claim that carries the columns of an endpoint and of its signing secret.
pub record ClaimsEndpoint (c : Claim) (r : EndpointRecord) : Type 0 where
  pub workspace : c.workspace_id ≡ r.workspace_id
  pub endpoint : c.endpoint_id ≡ r.id
  pub scheme : c.scheme ≡ r.scheme
  pub host : c.host ≡ r.host
  pub port : c.port ≡ r.port
  pub target : c.target ≡ r.target
  pub secret_version : c.secret_version_id ≡ r.secret_version_id
  pub key : c.key_id ≡ r.key_id
  pub secret : c.secret ≡ r.secret

module _ (s : EndpointService) where
  -- The worker finds the path and the secret of the record.
  abbrev pub OpensAs : Keyring → Claim → Destination → Bytes → Type 0
  OpensAs later c d text =
      (open_as s.platform (bytes "decrypt_target") later c.target (target_parts s.platform c)
        ≡ ok d.path)
      × ((raw : Bytes) × (text ≡ base64_encode raw)
          × (open_as s.platform (bytes "decrypt_secret") later c.secret (
                secret_parts s.platform c.secret.version c.workspace_id c.endpoint_id
                  c.secret_version_id c.key_id)
              ≡ ok raw))

  -- Let the signing keyring have a primary key and the random source give 12 bytes for a nonce. From a
  -- claim with the columns of an endpoint that `newRecord` has made, the delivery worker opens, under
  -- every keyring that still has the key, the path of the destination, and the secret whose base64
  -- text was returned to the client.
  pub open_as-new_endpoint :
      (draws : Draws) (workspace_id kek : Bytes) (d : Destination) (types : List Bytes)
      (r : EndpointRecord) (text : Bytes) (later : Keyring) (c : Claim)
      → CanSeal s draws kek
      → lookup_key s.materials.signing.primary later.keys ≡ some kek
      → new_endpoint s draws workspace_id d types ≡ ok (r, text)
      → ClaimsEndpoint c r
      → OpensAs later c d text
  unfolding open_as target_parts secret_parts target_associated_data secret_associated_data eq_ℤ
  open_as-new_endpoint draws workspace_id kek d types r text later c can kept made k =
      let b = new_endpoint-Built s draws workspace_id d types r text made in
      let (target, current) =
        seal-Reopens s.platform.aead draws.target_random s.materials.signing later d.path _ r.target
          can.primary can.target_drawn can.target_size kept b.target_sealed in
      let (secret, current') =
        seal-Reopens s.platform.aead draws.secret_random s.materials.signing later b.raw _ r.secret
          can.primary can.secret_drawn can.secret_size kept b.secret_sealed in
      (
        rw (k.workspace, k.endpoint, k.scheme, k.host, k.port, k.target, current, target) refl,
        (
          b.raw,
          b.returned,
          rw (k.workspace, k.endpoint, k.secret_version, k.key, k.secret, current', secret) refl,
        ),
      )
