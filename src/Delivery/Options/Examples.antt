-- ===== src/Delivery/Options/Examples.antt =====
-- Two accepted configurations, one with a lease that no claim may have.
use go_webhook_delivery.Common.{
  ◌*◌, ◌≡◌, ◌≢◌, refl, arith, true, none, Bytes, bytes, pos, int64, ◌+ℤ◌, to_uint64, of_uint64, ok,
  err,
}
use go_webhook_delivery.Delivery.Types.{nil_uuid, invalid_claim_request, validate_request}
use go_webhook_delivery.Delivery.Retry.{RetryPolicy, second}
use go_webhook_delivery.Delivery.Options.{WorkerConfig, validate_worker}
use go_webhook_delivery.Delivery.Options.Claims.{
  request_of, validate_request-claim_request, validate_request-short_lease,
}

abbrev retries : RetryPolicy
retries = record { base = pos second; cap = pos (900 * second); jitter = none }

abbrev config : WorkerConfig
config = record {
  concurrency = pos 8;
  claim_batch_size = pos 8;
  workspace_limit = pos 2;
  endpoint_limit = pos 2;
  poll_interval = pos 250000000;
  claim_timeout = pos 200000000;
  request_timeout = pos (10 * second);
  lease_ttl = pos (30 * second);
  retry_base = pos second;
  retry_cap = pos (900 * second);
  shutdown_timeout = pos (30 * second);
}

abbrev short_lease : WorkerConfig
short_lease = record config { request_timeout = pos (2 * second); lease_ttl = pos (15 * second) }

config-valid : validate_worker config ≡ true
unfolding validate_worker int64 ◌+ℤ◌ to_uint64 of_uint64
config-valid = refl

short_lease-valid : validate_worker short_lease ≡ true
unfolding validate_worker int64 ◌+ℤ◌ to_uint64 of_uint64
short_lease-valid = refl

abbrev worker : Bytes
worker = bytes "worker number 01"

worker-ne-nil : worker ≢ nil_uuid
worker-ne-nil e = ground arith

validate_request-claim_request_example :
    validate_request (request_of retries worker config (pos 8)) ≡ ok tt
validate_request-claim_request_example =
    validate_request-claim_request retries worker config (pos 8) config-valid (omega arith)
      worker-ne-nil (omega arith) (omega arith)

validate_request-short_lease_example :
    validate_request (request_of retries worker short_lease (pos 8)) ≡ err invalid_claim_request
validate_request-short_lease_example =
    validate_request-short_lease retries worker short_lease (pos 8) short_lease-valid (omega arith)
