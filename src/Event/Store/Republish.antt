-- ===== src/Event/Store/Republish.antt =====
-- The transaction keeps the tables' references, and is idempotent.
use go_webhook_delivery.Common.{
  ◌≡◌, refl, sym, ap, ◌∙◌, arith, true, false, some, List, [], ◌∷◌, inl, inr, Bytes, bytes_eq,
  bytes_eq_iff, bytes_eq_refl, length, All, All-append, eq_ℤ_iff, ok, err, ==_self,
}
use go_webhook_delivery.Event.Store.{
  conflict, NewRecord, StoreResult, DeliveryRow, Database, has_id, find_event, event_ids,
  deliveries_of, Ids, same_request, publish_found, publish_tx,
}
use go_webhook_delivery.Event.Store.Inserts.{
  IsReferenced, Inserted, publish_tx-cases, deliveries_of-BelongsTo, deliveries_of-append,
  deliveries_of-unknown,
}

All-map :
    (P Q : DeliveryRow → Type 0) (ds : List DeliveryRow)
    → ((d : DeliveryRow) → P d → Q d)
    → All P ds
    → All Q ds
All-map P Q [] f h = tt
All-map P Q (d ∷ ds) f h = (f d h.0, All-map P Q ds f h.1)

has_id-cons : (i j : Bytes) (js : List Bytes) → has_id i js ≡ true → has_id i (j ∷ js) ≡ true
unfolding has_id
has_id-cons i j js h = ground arith

has_id_self : (i j : Bytes) (js : List Bytes) → i ≡ j → has_id i (j ∷ js) ≡ true
unfolding has_id
has_id_self i j js h = rw (h, bytes_eq_refl j) refl

Inserted-IsReferenced :
    (ids : Ids) (r : NewRecord) (db : Database) (result : StoreResult) (after : Database)
    → Inserted ids r db result after
    → IsReferenced db
    → IsReferenced after
unfolding event_ids
Inserted-IsReferenced ids r db result after i h =
    rw (i.events, i.deliveries)
      (All-append _ db.deliveries i.rows
        (All-map _ _ db.deliveries
          (λ d k. has_id-cons d.delivery_event r.id (event_ids db.events) k) h)
        (All-map _ _ i.rows (λ d k. has_id_self d.delivery_event r.id (event_ids db.events) k.1)
          i.belong))

-- The transaction keeps it true that every delivery refers to an event of the table.
pub publish_tx-IsReferenced :
    (ids : Ids) (r : NewRecord) (db : Database) (result : StoreResult) (after : Database)
    → publish_tx ids r db ≡ ok (result, after)
    → IsReferenced db
    → IsReferenced after
publish_tx-IsReferenced ids r db result after h referenced =
    elim (publish_tx-cases ids r db result after h) [
      | inl i ↦ Inserted-IsReferenced ids r db result after i referenced
      | inr f ↦ rw f.unchanged referenced
    ]

-- A request with the key, the fingerprint and the workspace of another.
pub record Repeats (again r : NewRecord) : Type 0 where
  pub workspace : again.workspace_id ≡ r.workspace_id
  pub key : again.key_hash ≡ r.key_hash
  pub fingerprint : again.fingerprint ≡ r.fingerprint
  pub version : again.fingerprint_version ≡ r.fingerprint_version

abbrev pub repeated : Ids → StoreResult → StoreResult
repeated ids result = record {
  event_id = result.event_id;
  delivery_ids = ids.sort result.delivery_ids;
  duplicate = true;
}

same_request-Repeats :
    (again r e : NewRecord)
    → Repeats again r
    → same_request e r ≡ true
    → same_request e again ≡ true
unfolding same_request
same_request-Repeats again r e p h = rw (p.fingerprint, p.version) h

same_request_self : (r : NewRecord) → same_request r r ≡ true
unfolding same_request
same_request_self r =
    rw
      (
        (eq_ℤ_iff r.fingerprint_version r.fingerprint_version).1 refl,
        ==_self (length r.fingerprint),
        bytes_eq_refl r.fingerprint,
      )
      refl

find_event_self :
    (r : NewRecord) (es : List NewRecord) → find_event r.workspace_id r.key_hash (r ∷ es) ≡ some r
unfolding find_event
find_event_self r es = rw (bytes_eq_refl r.workspace_id, bytes_eq_refl r.key_hash) refl

-- The second transaction, once it has found the event of the first.
publish_tx_found :
    (ids : Ids) (again r e : NewRecord) (db : Database)
    → Repeats again r
    → find_event r.workspace_id r.key_hash db.events ≡ some e
    → same_request e r ≡ true
    → publish_tx ids again db
      ≡ ok (
        record {
          event_id = e.id;
          delivery_ids = ids.sort (deliveries_of r.workspace_id e.id db.deliveries);
          duplicate = true;
        },
        db,
      )
unfolding publish_tx publish_found same_request deliveries_of
publish_tx_found ids again r e db p found same =
    rw (p.workspace, p.key, found, same_request-Repeats again r e p same) refl

-- The deliveries of an event that was inserted are those that were returned.
Inserted-deliveries :
    (ids : Ids) (r : NewRecord) (db : Database) (result : StoreResult) (after : Database)
    → Inserted ids r db result after
    → IsReferenced db
    → deliveries_of r.workspace_id r.id after.deliveries ≡ result.delivery_ids
Inserted-deliveries ids r db result after i referenced =
    rw (i.deliveries, i.returned)
      (deliveries_of-append r.workspace_id r.id db.deliveries i.rows (
          deliveries_of-unknown r.workspace_id r.id (event_ids db.events) db.deliveries i.new_event
            referenced)
        ∙ deliveries_of-BelongsTo r i.rows i.belong)

-- Let every delivery of the tables refer to an event of theirs, and let it not matter whether the
-- database puts identifiers in order once or twice. After a transaction that succeeds, one with the
-- same workspace, key and fingerprint succeeds as well: it changes nothing, and returns the event of
-- the first and its deliveries in order, marked as a duplicate.
pub publish_tx-Repeats :
    (ids ids' : Ids)
    → ((xs : List Bytes) → ids'.sort (ids.sort xs) ≡ ids'.sort xs)
    → (again r : NewRecord) (db : Database) (result : StoreResult) (after : Database)
    → IsReferenced db
    → Repeats again r
    → publish_tx ids r db ≡ ok (result, after)
    → publish_tx ids' again after ≡ ok (repeated ids' result, after)
publish_tx-Repeats ids ids' twice again r db result after referenced p h =
    elim (publish_tx-cases ids r db result after h) [
      | inl i ↦
          let found : find_event r.workspace_id r.key_hash after.events ≡ some r =
            rw i.events (find_event_self r db.events) in
          let same : result.event_id ≡ r.id = ap (λ x. x.event_id) i.returned in
          publish_tx_found ids' again r r after p found (same_request_self r)
          ∙ rw (Inserted-deliveries ids r db result after i referenced, same) refl
      | inr f ↦
          let same : result.event_id ≡ f.event.id = ap (λ x. x.event_id) f.returned in
          let read = ap (λ x. x.delivery_ids) f.returned in
          rw f.unchanged (
            publish_tx_found ids' again r f.event db p f.found f.matches
            ∙ rw (same, read, twice (deliveries_of r.workspace_id f.event.id db.deliveries)) refl)
    ]

-- After a transaction that succeeds, the event under its workspace and key has its fingerprint.
pub publish_tx-kept :
    (ids : Ids) (r : NewRecord) (db : Database) (result : StoreResult) (after : Database)
    → publish_tx ids r db ≡ ok (result, after)
    → (e : NewRecord) × (find_event r.workspace_id r.key_hash after.events ≡ some e)
      × (same_request e r ≡ true)
      × (e.id ≡ result.event_id)
publish_tx-kept ids r db result after h = elim (publish_tx-cases ids r db result after h) [
  | inl i ↦ (
    r,
    rw i.events (find_event_self r db.events),
    same_request_self r,
    ap (λ x. x.event_id) (sym i.returned),
  )
  | inr f ↦ (f.event, rw f.unchanged f.found, f.matches, ap (λ x. x.event_id) (sym f.returned))
]

other_request :
    (e r other : NewRecord)
    → same_request e r ≡ true
    → bytes_eq other.fingerprint r.fingerprint ≡ false
    → same_request e other ≡ false
unfolding same_request
other_request e r other same differ = ground (
  arith,
  bytes_eq_iff e.fingerprint r.fingerprint,
  bytes_eq_iff e.fingerprint other.fingerprint,
  bytes_eq_iff other.fingerprint r.fingerprint,
)

-- After a transaction that succeeds, one with the same workspace and key and another fingerprint fails
-- with a conflict.
pub publish_tx-conflict :
    (ids ids' : Ids) (other r : NewRecord) (db : Database) (result : StoreResult) (after : Database)
    → other.workspace_id ≡ r.workspace_id
    → other.key_hash ≡ r.key_hash
    → bytes_eq other.fingerprint r.fingerprint ≡ false
    → publish_tx ids r db ≡ ok (result, after)
    → publish_tx ids' other after ≡ err conflict
unfolding publish_tx publish_found
publish_tx-conflict ids ids' other r db result after workspace key differ h =
    let (e, found, same, _) = publish_tx-kept ids r db result after h in
    let found' : find_event other.workspace_id other.key_hash after.events ≡ some e =
      rw (workspace, key) found in
    let no_match : same_request e other ≡ false = other_request e r other same differ in
    rw found' (rw no_match refl)
