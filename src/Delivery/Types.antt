-- ===== src/Delivery/Types.antt =====
-- internal/delivery/types.go: claims, results and the request for a batch.
use go_webhook_delivery.Common.{
  ◌*◌, ◌||◌, Option, [], ◌∷◌, if◌then◌else◌, Bytes, bytes_eq, ℤ, pos, ltb_ℤ, Result, ok, err,
}
use go_webhook_delivery.Cryptobox.{Envelope}
use go_webhook_delivery.Delivery.Retry.{second}

-- A UUID is its sixteen bytes.
abbrev pub nil_uuid : Bytes
nil_uuid = 0 ∷ 0 ∷ 0 ∷ 0 ∷ 0 ∷ 0 ∷ 0 ∷ 0 ∷ 0 ∷ 0 ∷ 0 ∷ 0 ∷ 0 ∷ 0 ∷ 0 ∷ 0 ∷ []

pub record ClaimSecret : Type 0 where
  pub key_id : Bytes
  pub version_id : Bytes
  pub envelope : Envelope

pub record Claim : Type 0 where
  pub workspace_id : Bytes
  pub delivery_id : Bytes
  pub event_id : Bytes
  pub endpoint_id : Bytes
  pub attempt_id : Bytes
  pub fencing_token : ℤ
  pub attempt_number : ℤ
  pub max_attempts : ℤ
  pub scheme : Bytes
  pub host : Bytes
  pub port : ℤ
  pub target : Envelope
  pub event_type : Bytes
  pub payload : Envelope
  pub key_id : Bytes
  pub secret_version_id : Bytes
  pub secret : Envelope
  pub retiring : Option ClaimSecret

pub data Disposition : Type 0 where
  success retry permanent_failure : Disposition

-- `Result`: an empty category stands for none.
pub record Outcome : Type 0 where
  pub disposition : Disposition
  pub http_status : Option ℤ
  pub duration_ms : ℤ
  pub category : Bytes
  pub retry_after : ℤ

pub record ClaimRequest : Type 0 where
  pub worker_id : Bytes
  pub lease_ttl : ℤ
  pub limit : ℤ
  pub workspace_limit : ℤ
  pub endpoint_limit : ℤ

pub data ClaimError : Type 0 where
  invalid_claim_request : ClaimError

unfoldable pub validate_request : ClaimRequest → Result ClaimError (Unit {0})
validate_request r =
    if bytes_eq r.worker_id nil_uuid
      || ltb_ℤ r.lease_ttl (pos (20 * second))
      || ltb_ℤ (pos (120 * second)) r.lease_ttl
      || ltb_ℤ r.limit (pos 1)
      || ltb_ℤ (pos 100) r.limit
      || ltb_ℤ r.workspace_limit (pos 1)
      || ltb_ℤ r.limit r.workspace_limit
      || ltb_ℤ r.endpoint_limit (pos 1)
      || ltb_ℤ r.limit r.endpoint_limit
    then err invalid_claim_request
    else ok tt
