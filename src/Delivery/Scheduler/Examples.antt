-- ===== src/Delivery/Scheduler/Examples.antt =====
-- A worker with two slots whose store offers one claim at a time.
use go_webhook_delivery.Common.{
  ℕ, zero, suc, ◌-◌, ◌*◌, ◌≡◌, refl, true, false, none, some, [], ◌∷◌, ◌++◌, arith, bytes, length,
  pos, ◌≤ℤ◌, ◌<ℤ◌,
}
use go_webhook_delivery.Cryptobox.{Envelope}
use go_webhook_delivery.Delivery.Types.{Claim, nil_uuid}
use go_webhook_delivery.Delivery.Retry.{second}
use go_webhook_delivery.Delivery.Scheduler.{
  JobError, job_panic, other, ClaimResult, claimed, Settings, Worker, start, finish_job, received,
  polled, drained, drain, force_after, Reach, here, next, poll, job_ends, stop,
}
use go_webhook_delivery.Delivery.Scheduler.Invariant.{
  IsCounted, Fits, reachable-IsCounted, no_end_is_dropped,
}
use go_webhook_delivery.Delivery.Scheduler.Shutdown.{Awake, reachable-Awake, drained-leaves_nothing}
use go_webhook_delivery.Delivery.Scheduler.Panics.{Doomed, panic_is_final, force_after_bounds}

abbrev empty_envelope : Envelope
empty_envelope = record { version = pos 2; kek_version = pos 1; nonce = []; ciphertext = [] }

abbrev claim : Claim
claim = record {
  workspace_id = nil_uuid;
  delivery_id = nil_uuid;
  event_id = nil_uuid;
  endpoint_id = nil_uuid;
  attempt_id = nil_uuid;
  fencing_token = pos 1;
  attempt_number = pos 1;
  max_attempts = pos 5;
  scheme = bytes "https";
  host = bytes "example.com";
  port = pos 443;
  target = empty_envelope;
  event_type = bytes "order.paid";
  payload = empty_envelope;
  key_id = bytes "key_1";
  secret_version_id = nil_uuid;
  secret = empty_envelope;
  retiring = none;
}

abbrev settings : Settings
settings = record {
  concurrency = 2;
  batch_size = 2;
  shutdown = pos (30 * second);
  poll = record { base = pos second; cap = pos (10 * second); jitter = λ span. span };
}

abbrev one_claim : ℕ → ℕ → ClaimResult
one_claim nth limit = elim limit [ zero ↦ claimed [] | suc n ↦ claimed (claim ∷ []) ]

one_claim-Fits : (nth limit : ℕ) → Fits limit (one_claim nth limit)
one_claim-Fits nth limit = go limit
  where
    go : (n : ℕ) → Fits n (one_claim nth n)
    go zero = omega arith
    go (suc n) = omega arith

abbrev busy : Worker
busy = polled settings (one_claim 0) false start

busy_reached : Reach settings one_claim start busy
unfolding start
busy_reached = next here (poll start 0 false (pos 0) refl refl)

reachable-IsCounted_example : IsCounted settings busy
reachable-IsCounted_example = reachable-IsCounted settings one_claim one_claim-Fits busy_reached

no_end_is_dropped_example :
    finish_job settings (some job_panic) busy
    ≡ record busy { running = busy.running - 1; done = busy.done ++ some job_panic ∷ [] }
unfolding polled start
no_end_is_dropped_example =
    no_end_is_dropped settings one_claim one_claim-Fits (some job_panic) busy_reached (omega arith)

reachable-Awake_example : Awake busy
reachable-Awake_example = reachable-Awake settings one_claim busy_reached

abbrev stopping : Worker
stopping = drain [] (finish_job settings (some (other 7)) busy)

stopping_reached : Reach settings one_claim start stopping
unfolding polled finish_job start
stopping_reached =
    next (next busy_reached (job_ends busy (some (other 7)) (omega arith)))
      (stop (finish_job settings (some (other 7)) busy) refl)

drained-leaves_nothing_example :
    (stopping.running ≡ 0) × (length {A = JobError} [] ≡ 0) × ((other 7 ∷ []) ≡ (other 7 ∷ []))
unfolding polled finish_job start drain drained
drained-leaves_nothing_example =
    drained-leaves_nothing settings one_claim [] (other 7 ∷ []) true (some (other 7)) []
      one_claim-Fits stopping_reached refl refl refl

abbrev broken : Worker
broken = received settings (some job_panic) [] busy

panic_is_final_example : Doomed broken
panic_is_final_example = panic_is_final settings one_claim busy [] here

force_after_bounds_run :
    (pos 0 ≤ℤ force_after (pos (30 * second)))
    × (force_after (pos (30 * second)) <ℤ pos (30 * second))
force_after_bounds_run = force_after_bounds (30 * second) (omega arith)
