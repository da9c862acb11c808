-- ===== src/Delivery/Options/Claims.antt =====
-- Whether a configured worker can claim.
use go_webhook_delivery.Common.{
  ◌*◌, ◌≡◌, ◌≢◌, refl, arith, true, Bytes, bytes_eq_iff, ℤ, pos, ◌≤ℤ◌, ◌<ℤ◌, min_ℤ, ok, err,
}
use go_webhook_delivery.Delivery.Types.{
  nil_uuid, ClaimRequest, invalid_claim_request, validate_request,
}
use go_webhook_delivery.Delivery.Retry.{RetryPolicy, second}
use go_webhook_delivery.Delivery.Options.{
  WorkerConfig, validate_worker, positive_or, merge_options, new_runner, worker_options,
  claim_request,
}

-- The request of a worker that is started with the configuration.
abbrev pub request_of : RetryPolicy → Bytes → WorkerConfig → ℤ → ClaimRequest
request_of retry worker_id c limit =
    claim_request worker_id (new_runner retry (worker_options c retry)) limit

-- What an accepted configuration gives here.
record Limits (c : WorkerConfig) : Type 0 where
  workspaces : pos 1 ≤ℤ c.workspace_limit
  endpoints : pos 1 ≤ℤ c.endpoint_limit
  lease : pos 0 <ℤ c.lease_ttl
  lease_cap : c.lease_ttl ≤ℤ pos (120 * second)

validate_worker-Limits : (c : WorkerConfig) → validate_worker c ≡ true → Limits c
unfolding validate_worker
validate_worker-Limits c valid = record {
  workspaces = ground arith;
  endpoints = ground arith;
  lease = ground arith;
  lease_cap = ground arith;
}

positive_or_lem : (z d : ℤ) → pos 0 <ℤ z → positive_or z d ≡ z
unfolding positive_or
positive_or_lem z d h = ground arith

-- The fields of the request, once the options are merged.
request_of_lem :
    (retry : RetryPolicy) (worker_id : Bytes) (c : WorkerConfig) (limit : ℤ)
    → Limits c
    → request_of retry worker_id c limit ≡ record {
      worker_id = worker_id;
      lease_ttl = c.lease_ttl;
      limit = limit;
      workspace_limit = min_ℤ c.workspace_limit limit;
      endpoint_limit = min_ℤ c.endpoint_limit limit;
    }
unfolding claim_request new_runner merge_options
request_of_lem retry worker_id c limit l =
    rw
      (
        positive_or_lem c.lease_ttl (pos (30 * second)) l.lease,
        positive_or_lem c.workspace_limit (pos 2) (ground (arith, l.workspaces)),
        positive_or_lem c.endpoint_limit (pos 2) (ground (arith, l.endpoints)),
      )
      refl

-- Under an accepted configuration with a lease of at least 20 seconds, every claim of 1 to 100
-- deliveries that a worker with an identifier makes is a valid request.
pub validate_request-claim_request :
    (retry : RetryPolicy) (worker_id : Bytes) (c : WorkerConfig) (limit : ℤ)
    → validate_worker c ≡ true
    → pos (20 * second) ≤ℤ c.lease_ttl
    → worker_id ≢ nil_uuid
    → pos 1 ≤ℤ limit
    → limit ≤ℤ pos 100
    → validate_request (request_of retry worker_id c limit) ≡ ok tt
unfolding validate_request
validate_request-claim_request retry worker_id c limit valid lease named low high =
    let l = validate_worker-Limits c valid in
    rw (request_of_lem retry worker_id c limit l)
      (ground (arith, bytes_eq_iff worker_id nil_uuid, l.workspaces, l.endpoints, l.lease_cap))

-- Under an accepted configuration with a lease of less than 20 seconds, every claim that the worker
-- makes is refused.
pub validate_request-short_lease :
    (retry : RetryPolicy) (worker_id : Bytes) (c : WorkerConfig) (limit : ℤ)
    → validate_worker c ≡ true
    → c.lease_ttl <ℤ pos (20 * second)
    → validate_request (request_of retry worker_id c limit) ≡ err invalid_claim_request
unfolding validate_request
validate_request-short_lease retry worker_id c limit valid lease =
    rw (request_of_lem retry worker_id c limit (validate_worker-Limits c valid)) (ground arith)
