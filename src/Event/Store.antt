-- ===== src/Event/Store.antt =====
-- internal/event/postgres.go: an event and its deliveries are inserted in one transaction. The tables
-- are lists; `sort` is the database's order of UUIDs.
pub mod Inserts
pub mod Republish
use go_webhook_delivery.Common.{
  ℕ, suc, ◌+◌, Bool, true, false, not, ◌&&◌, ◌||◌, Option, none, some, List, [], ◌∷◌, ◌++◌, map,
  ltb, if◌then◌else◌, Bytes, bytes_eq, length, take, ℤ, pos, eq_ℤ, Result, ok, err, ◌>>=◌, ◌>>◌,
  require, ◌==◌,
}
use go_webhook_delivery.Cryptobox.{Envelope}
use go_webhook_delivery.Tenanttx.{Connection, within}

-- `ErrInvalid`, `ErrConflict`, and an error of a call.
pub data PublishError : Type 0 where
  invalid conflict unavailable : PublishError

pub record NewRecord : Type 0 where
  pub id : Bytes
  pub workspace_id : Bytes
  pub event_type : Bytes
  pub key_hash : Bytes
  pub fingerprint : Bytes
  pub fingerprint_version : ℤ
  pub payload : Envelope
  pub payload_size : ℕ
  pub payload_expires_at : ℤ

pub record StoreResult : Type 0 where
  pub event_id : Bytes
  pub delivery_ids : List Bytes
  pub duplicate : Bool

pub record DeliveryRow : Type 0 where
  pub delivery_id : Bytes
  pub delivery_workspace : Bytes
  pub delivery_event : Bytes
  pub delivery_endpoint : Bytes

pub record EndpointRow : Type 0 where
  pub endpoint_id : Bytes
  pub endpoint_workspace : Bytes
  pub is_active : Bool
  pub subscriptions : List Bytes

-- The tables `wde.events`, `wde.deliveries`, and `wde.endpoints` with its subscriptions.
pub record Database : Type 0 where
  pub events : List NewRecord
  pub deliveries : List DeliveryRow
  pub endpoints : List EndpointRow

unfoldable pub has_id : Bytes → List Bytes → Bool
has_id i [] = false
has_id i (j ∷ js) = bytes_eq j i || has_id i js

-- The row of the unique index on the workspace and the hash of the idempotency key.
unfoldable pub find_event : Bytes → Bytes → List NewRecord → Option NewRecord
find_event workspace key_hash [] = none
find_event workspace key_hash (e ∷ es) =
    if bytes_eq e.workspace_id workspace && bytes_eq e.key_hash key_hash
    then some e
    else find_event workspace key_hash es

unfoldable pub event_ids : List NewRecord → List Bytes
event_ids [] = []
event_ids (e ∷ es) = e.id ∷ event_ids es

unfoldable pub delivery_keys : List DeliveryRow → List Bytes
delivery_keys [] = []
delivery_keys (d ∷ ds) = d.delivery_id ∷ delivery_keys ds

-- The query for the deliveries of an event, before it is put in order.
unfoldable pub deliveries_of : Bytes → Bytes → List DeliveryRow → List Bytes
deliveries_of workspace event [] = []
deliveries_of workspace event (d ∷ ds) =
    let rest = deliveries_of workspace event ds in
    if bytes_eq d.delivery_workspace workspace && bytes_eq d.delivery_event event
    then d.delivery_id ∷ rest
    else rest

-- The query for the active endpoints of the workspace that subscribe to the type.
unfoldable pub subscribers : Bytes → Bytes → List EndpointRow → List Bytes
subscribers workspace event_type [] = []
subscribers workspace event_type (e ∷ es) =
    let rest = subscribers workspace event_type es in
    if bytes_eq e.endpoint_workspace workspace && e.is_active && has_id event_type e.subscriptions
    then e.endpoint_id ∷ rest
    else rest

-- The calls of `uuid.NewV7` in the loop, and the order of the database.
pub record Ids : Type 0 where
  pub new_v7 : ℕ → Option Bytes
  pub sort : List Bytes → List Bytes

unfoldable pub new_id : Option Bytes → Result PublishError Bytes
new_id none = err unavailable
new_id (some i) = ok i

unfoldable pub same_request : NewRecord → NewRecord → Bool
same_request e r =
    eq_ℤ e.fingerprint_version r.fingerprint_version
    && (length e.fingerprint == length r.fingerprint)
    && bytes_eq e.fingerprint r.fingerprint

module _ (ids : Ids) where
  -- The loop over the endpoints: the rows it inserts. An identifier that is taken is an error.
  unfoldable pub new_deliveries :
      ℕ → NewRecord → List Bytes → List Bytes → Result PublishError (List DeliveryRow)
  new_deliveries n r taken [] = ok []
  new_deliveries n r taken (endpoint ∷ more) = do
    i ← new_id (ids.new_v7 n)
    require (not (has_id i taken)) unavailable
    rows ← new_deliveries (suc n) r (i ∷ taken) more
    ok (
        record {
          delivery_id = i;
          delivery_workspace = r.workspace_id;
          delivery_event = r.id;
          delivery_endpoint = endpoint;
        }
        ∷ rows)

  unfoldable pub fan_out :
      NewRecord → List Bytes → Database → Result PublishError (StoreResult × Database)
  fan_out r endpoints db = do
    require (not (ltb 100 (length endpoints))) invalid
    rows ← new_deliveries 0 r (delivery_keys db.deliveries) endpoints
    ok (
      record { event_id = r.id; delivery_ids = delivery_keys rows; duplicate = false },
      record db { events = r ∷ db.events; deliveries = db.deliveries ++ rows },
    )

  unfoldable pub insert_deliveries :
      NewRecord → Database → Result PublishError (StoreResult × Database)
  unfolding fan_out
  insert_deliveries r db =
      fan_out r (take 101 (ids.sort (subscribers r.workspace_id r.event_type db.endpoints))) db

  unfoldable pub publish_found :
      NewRecord → Option NewRecord → Database → Result PublishError (StoreResult × Database)
  publish_found r none db = do
    require (not (has_id r.id (event_ids db.events))) unavailable
    insert_deliveries r db
  publish_found r (some e) db = do
    require (same_request e r) conflict
    ok (
      record {
        event_id = e.id;
        delivery_ids = ids.sort (deliveries_of r.workspace_id e.id db.deliveries);
        duplicate = true;
      },
      db,
    )

  -- The function that `Publish` runs in its transaction.
  unfoldable pub publish_tx : NewRecord → Database → Result PublishError (StoreResult × Database)
  publish_tx r db = publish_found r (find_event r.workspace_id r.key_hash db.events) db

  -- `PostgresStore.Publish`.
  unfoldable pub store_publish :
      Connection → NewRecord → Database → Result PublishError StoreResult × Database
  store_publish c r db = within c unavailable (publish_tx r) db
