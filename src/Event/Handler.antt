-- ===== src/Event/Handler.antt =====
-- internal/event/http.go: the handler of a publication. The body of a request is absent where it does
-- not arrive whole.
use go_webhook_delivery.Common.{
  ◌≡◌, ◌≤◌, ◌<◌, ◌⊎◌, refl, ap, arith, true, false, not, Option, none, some, if◌then◌else◌, ltb,
  length, Bytes, bytes, bytes_eq, is_empty, ℤ, pos, Bool-cases, inl, inr, Result, ok, err,
}
use go_webhook_delivery.Golang.Strings.{trim_space}
use go_webhook_delivery.Tenanttx.{lost, within-err}
use go_webhook_delivery.Event.Store.{
  PublishError, invalid, conflict, unavailable, NewRecord, StoreResult, Database, publish_tx,
  store_publish,
}
use go_webhook_delivery.Event.Publish.{
  Service, Meets, max_payload_bytes, new_record, store_record, publish,
}

-- A problem with its status and code, or the result with status 202.
pub data Response : Type 0 where
  problem : ℤ → Bytes → Response
  accepted : StoreResult → Response

unfoldable pub response_of : Result PublishError StoreResult → Response
response_of (ok result) = accepted result
response_of (err invalid) = problem (pos 422) (bytes "invalid_event")
response_of (err conflict) = problem (pos 409) (bytes "idempotency_conflict")
response_of (err unavailable) = problem (pos 500) (bytes "internal_error")

-- `io.ReadAll` of `http.MaxBytesReader`: a body above the limit is an error.
unfoldable pub read_body : Option Bytes → Option Bytes
read_body none = none
read_body (some raw) = if ltb max_payload_bytes (length raw) then none else some raw

unfoldable pub publish_body :
    Service → Meets → Bytes → Bytes → Option Bytes → Database → Response × Database
unfolding response_of
publish_body s m workspace_id key none db = (problem (pos 413) (bytes "payload_too_large"), db)
publish_body s m workspace_id key (some raw) db =
    let r = publish s m workspace_id key raw db in (response_of r.0, r.1)

-- `Handler.Publish`, with the workspace of the principal.
unfoldable pub handle_publish :
    Service → Meets → Bytes → Bytes → Bytes → Option Bytes → Database → Response × Database
unfolding read_body publish_body
handle_publish s m workspace_id content_type key_header body db =
    if not (bytes_eq content_type (bytes "application/json"))
    then (problem (pos 415) (bytes "unsupported_media_type"), db)
    else if is_empty (trim_space key_header)
    then (problem (pos 400) (bytes "idempotency_key_required"), db)
    else publish_body s m workspace_id (trim_space key_header) (read_body body) db

-- The record of the request has been published, and its transaction kept, although the commit answered
-- with an error.
pub record PublishedUnseen (s : Service) (m : Meets) (workspace_id key raw : Bytes)
    (db after : Database) : Type 0 where
  pub commit_lost : m.connection.commits ≡ lost
  pub made : NewRecord
  pub is_made : new_record s m workspace_id key raw ≡ ok made
  pub result : StoreResult
  pub ran : publish_tx m.ids made db ≡ ok (result, after)

store_record-err :
    (s : Service) (m : Meets) (workspace_id key raw : Bytes) (made : Result PublishError NewRecord)
    (db : Database) (e : PublishError)
    → new_record s m workspace_id key raw ≡ made
    → (store_record s m made db).0 ≡ err e
    → ((store_record s m made db).1 ≡ db)
      ⊎ ((e ≡ unavailable)
          × PublishedUnseen s m workspace_id key raw db (store_record s m made db).1)
unfolding store_record store_publish
store_record-err s m workspace_id key raw (err x) db e is_made h = inl refl
store_record-err s m workspace_id key raw (ok r) db e is_made h =
    elim (within-err m.connection unavailable e (publish_tx m.ids r) db h) [
      | inl same ↦ inl same
      | inr k ↦ inr (
        k.is_unavailable,
        record {
          commit_lost = k.commit_lost;
          made = r;
          is_made = is_made;
          result = k.value;
          ran = k.ran;
        },
      )
    ]

publish-err :
    (s : Service) (m : Meets) (workspace_id key raw : Bytes) (db : Database) (e : PublishError)
    → (publish s m workspace_id key raw db).0 ≡ err e
    → ((publish s m workspace_id key raw db).1 ≡ db)
      ⊎ ((e ≡ unavailable)
          × PublishedUnseen s m workspace_id key raw db (publish s m workspace_id key raw db).1)
unfolding publish
publish-err s m workspace_id key raw db e h =
    store_record-err s m workspace_id key raw (new_record s m workspace_id key raw) db e refl h

-- A body that does not arrive whole, or is longer than the limit.
abbrev pub IsUnreadable : Option Bytes → Type 0
IsUnreadable none = Unit
IsUnreadable (some raw) = max_payload_bytes < length raw

-- A request that is handed to the service, with its body.
pub record IsHanded (content_type key : Bytes) (body : Option Bytes) (raw : Bytes) : Type 0 where
  pub is_json : bytes_eq content_type (bytes "application/json") ≡ true
  pub has_key : is_empty key ≡ false
  pub arrived : body ≡ some raw
  pub within_limit : length raw ≤ max_payload_bytes

-- Why a request is refused before the service sees it.
abbrev pub Refused : Bytes → Bytes → Option Bytes → ℤ → Type 0
Refused content_type key body status =
    ((status ≡ pos 415) × (bytes_eq content_type (bytes "application/json") ≡ false))
    ⊎ (((status ≡ pos 400) × (is_empty key ≡ true)) ⊎ ((status ≡ pos 413) × IsUnreadable body))

-- The status of each error of the service.
abbrev pub StatusOf : PublishError → ℤ → Type 0
StatusOf invalid status = status ≡ pos 422
StatusOf conflict status = status ≡ pos 409
StatusOf unavailable status = status ≡ pos 500

-- What the tables hold after the service has failed.
abbrev pub Failed : Service → Meets → Bytes → Bytes → Bytes → Database → ℤ → Database → Type 0
Failed s m workspace_id key raw db status after =
    (e : PublishError) × ((publish s m workspace_id key raw db).0 ≡ err e)
    × StatusOf e status
    × ((after ≡ db) ⊎ ((e ≡ unavailable) × PublishedUnseen s m workspace_id key raw db after))

-- What a response says of the request and of the tables after it.
abbrev pub Stores :
    Service → Meets → Bytes → Bytes → Bytes → Option Bytes → Database → Response × Database → Type 0
Stores s m workspace_id content_type key body db (problem status code, after) =
    ((after ≡ db) × Refused content_type key body status)
    ⊎ ((raw : Bytes) × IsHanded content_type key body raw
        × Failed s m workspace_id key raw db status after)
Stores s m workspace_id content_type key body db (accepted result, after) =
    (raw : Bytes) × IsHanded content_type key body raw
    × (publish s m workspace_id key raw db ≡ (ok result, after))

read_body-cases :
    (body : Option Bytes)
    → ((read_body body ≡ none) × IsUnreadable body)
      ⊎ ((raw : Bytes) × (read_body body ≡ some raw)
          × (body ≡ some raw)
          × (length raw ≤ max_payload_bytes))
unfolding read_body
read_body-cases none = inl (refl, tt)
read_body-cases (some raw) = elim (Bool-cases (ltb max_payload_bytes (length raw))) [
  | inl long ↦ inl (rw long refl, ground arith)
  | inr short ↦ inr (raw, rw short refl, refl, ground arith)
]

response_of-Stores :
    (s : Service) (m : Meets) (workspace_id content_type key : Bytes) (body : Option Bytes)
    (raw : Bytes) (db : Database) (r : Result PublishError StoreResult × Database)
    → IsHanded content_type key body raw
    → publish s m workspace_id key raw db ≡ r
    → ((e : PublishError)
        → r.0 ≡ err e
        → (r.1 ≡ db) ⊎ ((e ≡ unavailable) × PublishedUnseen s m workspace_id key raw db r.1))
    → Stores s m workspace_id content_type key body db (response_of r.0, r.1)
unfolding response_of
response_of-Stores s m workspace_id content_type key body raw db (ok result, after) q h fails =
    (raw, q, h)
response_of-Stores s m workspace_id content_type key body raw db (err invalid, after) q h fails =
    inr (raw, q, (invalid, ap (λ x. x.0) h, refl, fails invalid refl))
response_of-Stores s m workspace_id content_type key body raw db (err conflict, after) q h fails =
    inr (raw, q, (conflict, ap (λ x. x.0) h, refl, fails conflict refl))
response_of-Stores s m workspace_id content_type key body raw db (err unavailable, after) q h
      fails =
    inr (raw, q, (unavailable, ap (λ x. x.0) h, refl, fails unavailable refl))

publish_body-Stores :
    (s : Service) (m : Meets) (workspace_id content_type key : Bytes) (body : Option Bytes)
    (db : Database)
    → bytes_eq content_type (bytes "application/json") ≡ true
    → is_empty key ≡ false
    → Stores s m workspace_id content_type key body db
        (publish_body s m workspace_id key (read_body body) db)
unfolding publish_body
publish_body-Stores s m workspace_id content_type key body db json given =
    elim (read_body-cases body) [
      | inl (unread, why) ↦ rw unread (inl (refl, inr (inr (refl, why))))
      | inr (raw, read, arrived, fits) ↦ rw read (
          response_of-Stores s m workspace_id content_type key body raw db
            (publish s m workspace_id key raw db)
            (record { is_json = json; has_key = given; arrived = arrived; within_limit = fits })
            refl (publish-err s m workspace_id key raw db))
    ]

-- A publication is answered with 415, 400 or 413 only for another content type, a key of white space, or
-- a body that does not arrive or is longer than 1 MiB, and then leaves the tables as they were. Any
-- other is a JSON request with a key and a body within that limit, which `Publish` is called with under
-- the trimmed key: the answer is 202 with the result of `Publish`; or 422, 409 or 500 for its error, and
-- the tables are as they were, unless the commit was kept by the database and yet answered with an
-- error: then the status is 500, and the transaction of the request's record has been run.
pub handle_publish-Stores :
    (s : Service) (m : Meets) (workspace_id content_type key_header : Bytes) (body : Option Bytes)
    (db : Database)
    → Stores s m workspace_id content_type
        (trim_space key_header)
        body
        db
        (handle_publish s m workspace_id content_type key_header body db)
unfolding handle_publish
handle_publish-Stores s m workspace_id content_type key_header body db =
    elim (Bool-cases (bytes_eq content_type (bytes "application/json"))) [
      | inr other ↦ rw other (inl (refl, inl (refl, other)))
      | inl json ↦ elim (Bool-cases (is_empty (trim_space key_header))) [
        | inl missing ↦ rw (json, missing) (inl (refl, inr (inl (refl, missing))))
        | inr given ↦
            rw (json, given)
              (publish_body-Stores s m workspace_id content_type (trim_space key_header) body db
                json given)
      ]
    ]
