-- ===== src/Delivery/Options.antt =====
-- How a worker is configured: `validateWorker` of internal/platform/config/validation.go, the options
-- that cmd/worker/main.go passes, `NewRunnerWithOptions` and `claim` of internal/delivery/delivery.go.
pub mod Claims
mod Examples
use go_webhook_delivery.Common.{
  ◌*◌, Bool, not, ◌||◌, none, if◌then◌else◌, Bytes, ℤ, pos, ◌+ℤ◌, ltb_ℤ, leb_ℤ, min_ℤ, int64,
}
use go_webhook_delivery.Delivery.Types.{ClaimRequest}
use go_webhook_delivery.Delivery.Retry.{RetryPolicy, second}

-- The worker's part of `Config`.
pub record WorkerConfig : Type 0 where
  pub concurrency : ℤ
  pub claim_batch_size : ℤ
  pub workspace_limit : ℤ
  pub endpoint_limit : ℤ
  pub poll_interval : ℤ
  pub claim_timeout : ℤ
  pub request_timeout : ℤ
  pub lease_ttl : ℤ
  pub retry_base : ℤ
  pub retry_cap : ℤ
  pub shutdown_timeout : ℤ

-- In nanoseconds.
abbrev pub millisecond : ℤ
millisecond = pos 1000000

unfoldable pub validate_worker : WorkerConfig → Bool
validate_worker c = not (
    ltb_ℤ c.concurrency (pos 1)
    || ltb_ℤ (pos 100) c.concurrency
    || ltb_ℤ c.claim_batch_size (pos 1)
    || ltb_ℤ c.concurrency c.claim_batch_size
    || ltb_ℤ c.workspace_limit (pos 1)
    || ltb_ℤ c.claim_batch_size c.workspace_limit
    || ltb_ℤ c.endpoint_limit (pos 1)
    || ltb_ℤ c.claim_batch_size c.endpoint_limit
    || ltb_ℤ c.poll_interval (pos 10000000)
    || ltb_ℤ (pos (10 * second)) c.poll_interval
    || ltb_ℤ c.claim_timeout (pos 10000000)
    || ltb_ℤ (pos (2 * second)) c.claim_timeout
    || ltb_ℤ c.poll_interval c.claim_timeout
    || ltb_ℤ c.lease_ttl c.claim_timeout
    || ltb_ℤ c.request_timeout (pos 100000000)
    || ltb_ℤ (pos (20 * second)) c.request_timeout
    || ltb_ℤ c.lease_ttl (int64 (c.request_timeout +ℤ pos (10 * second)))
    || ltb_ℤ (pos (120 * second)) c.lease_ttl
    || leb_ℤ c.retry_base (pos 0)
    || ltb_ℤ c.retry_cap c.retry_base
    || ltb_ℤ (pos (900 * second)) c.retry_cap
    || ltb_ℤ (pos (30 * second)) c.shutdown_timeout)

-- `RunnerOptions`, without the client, the jitter and the observer.
pub record RunnerOptions : Type 0 where
  pub poll : ℤ
  pub claim_timeout : ℤ
  pub request_timeout : ℤ
  pub lease_ttl : ℤ
  pub shutdown : ℤ
  pub concurrency : ℤ
  pub batch_size : ℤ
  pub workspace_limit : ℤ
  pub endpoint_limit : ℤ
  pub retry : RetryPolicy

abbrev pub default_options : RetryPolicy → RunnerOptions
default_options retry = record {
  poll = pos 250000000;
  claim_timeout = pos 200000000;
  request_timeout = pos (10 * second);
  lease_ttl = pos (30 * second);
  shutdown = pos (30 * second);
  concurrency = pos 8;
  batch_size = pos 8;
  workspace_limit = pos 2;
  endpoint_limit = pos 2;
  retry = retry;
}

-- The override where it is positive.
positive_or : ℤ → ℤ → ℤ
positive_or override target = if ltb_ℤ (pos 0) override then override else target

-- `mergeRunnerOptions`: the target afterwards.
unfoldable pub merge_options : RunnerOptions → RunnerOptions → RunnerOptions
unfolding positive_or
merge_options target override = record {
  poll = positive_or override.poll target.poll;
  claim_timeout = positive_or override.claim_timeout target.claim_timeout;
  request_timeout = positive_or override.request_timeout target.request_timeout;
  lease_ttl = positive_or override.lease_ttl target.lease_ttl;
  shutdown = positive_or override.shutdown target.shutdown;
  concurrency = positive_or override.concurrency target.concurrency;
  batch_size = positive_or override.batch_size target.batch_size;
  workspace_limit = positive_or override.workspace_limit target.workspace_limit;
  endpoint_limit = positive_or override.endpoint_limit target.endpoint_limit;
  retry = if ltb_ℤ (pos 0) override.retry.base then override.retry else target.retry;
}

-- The settings of the new runner: the merged options, with a shutdown of at most 30 seconds.
unfoldable pub new_runner : RetryPolicy → RunnerOptions → RunnerOptions
unfolding merge_options
new_runner retry opts =
    let o = merge_options (default_options retry) opts in
    record o {
      shutdown = if ltb_ℤ (pos (30 * second)) o.shutdown then pos (30 * second) else o.shutdown;
    }

-- The options of cmd/worker.
abbrev pub worker_options : WorkerConfig → RetryPolicy → RunnerOptions
worker_options c retry = record {
  poll = c.poll_interval;
  claim_timeout = c.claim_timeout;
  request_timeout = c.request_timeout;
  lease_ttl = c.lease_ttl;
  shutdown = c.shutdown_timeout;
  concurrency = c.concurrency;
  batch_size = c.claim_batch_size;
  workspace_limit = c.workspace_limit;
  endpoint_limit = c.endpoint_limit;
  retry = record { base = c.retry_base; cap = c.retry_cap; jitter = retry.jitter };
}

-- The request that `claim` makes of the store.
unfoldable pub claim_request : Bytes → RunnerOptions → ℤ → ClaimRequest
claim_request worker_id o limit = record {
  worker_id = worker_id;
  lease_ttl = o.lease_ttl;
  limit = limit;
  workspace_limit = min_ℤ o.workspace_limit limit;
  endpoint_limit = min_ℤ o.endpoint_limit limit;
}
