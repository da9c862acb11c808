-- ===== src/Event/Store/Inserts.antt =====
-- What a transaction that inserts an event does to the tables.
use go_webhook_delivery.Common.{
  ℕ, zero, suc, ◌≡◌, ◌≤◌, ◌⊎◌, refl, sym, ap, ◌∙◌, arith, Bool, true, false, not, ◌&&◌, Option,
  none, some, List, [], ◌∷◌, ◌++◌, ltb, take, Bool-cases, inl, inr, Bytes, bytes_eq, bytes_eq_iff,
  bytes_eq_refl, length, All, ok, bind-ok, require-then, require-ok,
}
use go_webhook_delivery.Event.Store.{
  NewRecord, StoreResult, DeliveryRow, Database, has_id, find_event, event_ids, delivery_keys,
  deliveries_of, subscribers, Ids, new_id, new_deliveries, fan_out, insert_deliveries, same_request,
  publish_found, publish_tx,
}

-- A delivery of the record's event.
abbrev pub BelongsTo : NewRecord → DeliveryRow → Type 0
BelongsTo r d = (d.delivery_workspace ≡ r.workspace_id) × (d.delivery_event ≡ r.id)

-- Every delivery refers to an event of the table.
abbrev pub IsReferenced : Database → Type 0
IsReferenced db = All (λ d. has_id d.delivery_event (event_ids db.events) ≡ true) db.deliveries

unfoldable pub endpoints_of : List DeliveryRow → List Bytes
endpoints_of [] = []
endpoints_of (d ∷ ds) = d.delivery_endpoint ∷ endpoints_of ds

new_deliveries-BelongsTo :
    (ids : Ids) (n : ℕ) (r : NewRecord) (taken endpoints : List Bytes) (rows : List DeliveryRow)
    → new_deliveries ids n r taken endpoints ≡ ok rows
    → All (BelongsTo r) rows × (endpoints_of rows ≡ endpoints)
unfolding new_deliveries endpoints_of
new_deliveries-BelongsTo ids n r taken [] rows h =
    let same : [] ≡ rows = cc in rw (sym same) (tt, refl)
new_deliveries-BelongsTo ids n r taken (endpoint ∷ more) rows h =
    let (i, _, h1) = bind-ok (new_id (ids.new_v7 n)) _ _ h in
    let (_, h2) = require-then (not (has_id i taken)) _ _ _ h1 in
    let (rest, e, h3) = bind-ok (new_deliveries ids (suc n) r (i ∷ taken) more) _ _ h2 in
    let (belong, same_endpoints) = new_deliveries-BelongsTo ids (suc n) r (i ∷ taken) more rest e in
    let same : record {
      delivery_id = i;
      delivery_workspace = r.workspace_id;
      delivery_event = r.id;
      delivery_endpoint = endpoint;
    }
          ∷ rest
        ≡ rows =
      cc in
    rw (sym same) (((refl, refl), belong), ap (◌∷◌ endpoint) same_endpoints)

pub deliveries_of-BelongsTo :
    (r : NewRecord) (rows : List DeliveryRow)
    → All (BelongsTo r) rows
    → deliveries_of r.workspace_id r.id rows ≡ delivery_keys rows
unfolding deliveries_of delivery_keys
deliveries_of-BelongsTo r [] h = refl
deliveries_of-BelongsTo r (d ∷ ds) h =
    rw
      (
        h.0.0,
        h.0.1,
        bytes_eq_refl r.workspace_id,
        bytes_eq_refl r.id,
        deliveries_of-BelongsTo r ds h.1,
      )
      refl

pub deliveries_of-append :
    (workspace event : Bytes) (ds rows : List DeliveryRow)
    → deliveries_of workspace event ds ≡ []
    → deliveries_of workspace event (ds ++ rows) ≡ deliveries_of workspace event rows
unfolding deliveries_of
deliveries_of-append workspace event [] rows h = refl
deliveries_of-append workspace event (d ∷ ds) rows h =
    elim (Bool-cases (bytes_eq d.delivery_workspace workspace && bytes_eq d.delivery_event event)) [
      | inl found ↦ absurd (ground arith)
      | inr other ↦ rw other (deliveries_of-append workspace event ds rows (ground arith))
    ]

pub deliveries_of-unknown :
    (workspace event : Bytes) (known : List Bytes) (ds : List DeliveryRow)
    → has_id event known ≡ false
    → All (λ d. has_id d.delivery_event known ≡ true) ds
    → deliveries_of workspace event ds ≡ []
unfolding deliveries_of
deliveries_of-unknown workspace event known [] new h = refl
deliveries_of-unknown workspace event known (d ∷ ds) new h =
    elim (Bool-cases (bytes_eq d.delivery_event event)) [
      | inl same ↦
          let e = (bytes_eq_iff d.delivery_event event).0 same in
          let known' : has_id event known ≡ true = rw (sym e) h.0 in absurd cc
      | inr other ↦
          rw (other, deliveries_of-unknown workspace event known ds new h.1) (ground arith)
    ]

-- What a transaction that inserts the event does, for a key under which there was none.
pub record Inserted (ids : Ids) (r : NewRecord) (db : Database) (result : StoreResult)
    (after : Database) : Type 0 where
  pub unseen : find_event r.workspace_id r.key_hash db.events ≡ none
  pub new_event : has_id r.id (event_ids db.events) ≡ false
  pub events : after.events ≡ r ∷ db.events
  pub endpoints : after.endpoints ≡ db.endpoints
  pub rows : List DeliveryRow
  pub deliveries : after.deliveries ≡ db.deliveries ++ rows
  pub belong : All (BelongsTo r) rows
  pub fan_out : endpoints_of rows ≡ ids.sort (subscribers r.workspace_id r.event_type db.endpoints)
  pub few : length (ids.sort (subscribers r.workspace_id r.event_type db.endpoints)) ≤ 100
  pub returned :
      result ≡ record { event_id = r.id; delivery_ids = delivery_keys rows; duplicate = false }

take_few : (n : ℕ) (xs : List Bytes) → length (take (suc n) xs) ≤ n → take (suc n) xs ≡ xs
take_few n [] h = refl
take_few zero (x ∷ xs) h = absurd (omega arith)
take_few (suc n) (x ∷ xs) h = ap (◌∷◌ x) (take_few n xs (omega arith))

not_above : (n : ℕ) → not (ltb 100 n) ≡ true → n ≤ 100
not_above n h = ground arith

not-true : (b : Bool) → not b ≡ true → b ≡ false
not-true b h = ground arith

publish_found-Inserted :
    (ids : Ids) (r : NewRecord) (db : Database) (result : StoreResult) (after : Database)
    → find_event r.workspace_id r.key_hash db.events ≡ none
    → publish_found ids r none db ≡ ok (result, after)
    → Inserted ids r db result after
unfolding publish_found insert_deliveries fan_out
publish_found-Inserted ids r db result after unseen h =
    let all = ids.sort (subscribers r.workspace_id r.event_type db.endpoints) in
    let (new, h1) = require-then (not (has_id r.id (event_ids db.events))) _ _ _ h in
    let (few, h2) = require-then (not (ltb 100 (length (take 101 all)))) _ _ _ h1 in
    let (rows, e, h3) =
      bind-ok (new_deliveries ids 0 r (delivery_keys db.deliveries) (take 101 all)) _ _ h2 in
    let (belong, same) =
      new_deliveries-BelongsTo ids 0 r (delivery_keys db.deliveries) (take 101 all) rows e in
    let whole = take_few 100 all (not_above (length (take 101 all)) few) in
    let few' : length (take 101 all) ≤ 100 = not_above (length (take 101 all)) few in
    let db' : Database = record db { events = r ∷ db.events; deliveries = db.deliveries ++ rows } in
    let after_same : db' ≡ after = cc in
    record {
      unseen = unseen;
      new_event = not-true _ new;
      events = ap (λ d. d.events) (sym after_same);
      endpoints = ap (λ d. d.endpoints) (sym after_same);
      rows = rows;
      deliveries = ap (λ d. d.deliveries) (sym after_same);
      belong = belong;
      fan_out = same ∙ whole;
      few = rw (sym whole) few';
      returned = cc;
    }

-- What a transaction that finds the event does: it reads its deliveries.
pub record Found (ids : Ids) (r : NewRecord) (db : Database) (result : StoreResult)
    (after : Database) : Type 0 where
  pub event : NewRecord
  pub found : find_event r.workspace_id r.key_hash db.events ≡ some event
  pub matches : same_request event r ≡ true
  pub unchanged : after ≡ db
  pub returned : result ≡ record {
    event_id = event.id;
    delivery_ids = ids.sort (deliveries_of r.workspace_id event.id db.deliveries);
    duplicate = true;
  }

publish_found-cases :
    (ids : Ids) (r : NewRecord) (o : Option NewRecord) (db : Database) (result : StoreResult)
    (after : Database)
    → find_event r.workspace_id r.key_hash db.events ≡ o
    → publish_found ids r o db ≡ ok (result, after)
    → Inserted ids r db result after ⊎ Found ids r db result after
publish_found-cases ids r none db result after e h =
    inl (publish_found-Inserted ids r db result after e h)
publish_found-cases ids r (some event) db result after e h =
    unfold publish_found in
    let (matches, same) = require-ok (same_request event r) _ _ _ h in
    inr (record { event = event; found = e; matches = matches; unchanged = cc; returned = cc })

-- A transaction that succeeds has one of two outcomes. Either the workspace has no event under the key,
-- and the event is inserted with one delivery for each subscriber, of which there are at most 100; or
-- it has one, which has the same fingerprint, and nothing is changed, and that event and its
-- deliveries are returned.
pub publish_tx-cases :
    (ids : Ids) (r : NewRecord) (db : Database) (result : StoreResult) (after : Database)
    → publish_tx ids r db ≡ ok (result, after)
    → Inserted ids r db result after ⊎ Found ids r db result after
unfolding publish_tx
publish_tx-cases ids r db result after h =
    publish_found-cases ids r (find_event r.workspace_id r.key_hash db.events) db result after refl
      h
