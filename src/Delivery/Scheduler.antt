-- ===== src/Delivery/Scheduler.antt =====
-- internal/delivery/scheduler.go: the worker's loop, as steps of the loop itself and of the jobs that
-- it starts. The channel `done` is a buffer; the errors joined by a shutdown are a list, in order.
pub mod Invariant
pub mod Shutdown
pub mod Panics
mod Examples
use go_webhook_delivery.Common.{
  ℕ, zero, suc, ◌+◌, ◌-◌, ◌*◌, ◌≤◌, ◌<◌, min, Bool, true, false, Option, none, some, List, [], ◌∷◌,
  ◌++◌, ◌≡◌, ltb, leb, ◌==◌, if◌then◌else◌, ℤ, pos, ◌-ℤ◌, leb_ℤ, quot, length,
}
use go_webhook_delivery.Delivery.Types.{Claim}
use go_webhook_delivery.Delivery.Retry.{PollPolicy, poll_delay, second}

-- What a job or a claim may end with: a panic, a cancelled context, or another error.
pub data JobError : Type 0 where
  job_panic canceled : JobError
  other : ℕ → JobError

-- What `claimResponsive` returns.
pub data ClaimResult : Type 0 where
  claimed : List Claim → ClaimResult
  failed : JobError → ClaimResult

pub record Settings : Type 0 where
  pub concurrency : ℕ
  pub batch_size : ℕ
  pub shutdown : ℤ
  pub poll : PollPolicy

-- `draining` holds what `drain` will return so far, and whether its force timer is still armed.
pub data Phase : Type 0 where
  polling : Phase
  draining : List JobError → Bool → Phase
  returned : List JobError → Phase

-- `running` counts the jobs that have not ended, `done` holds the ends that were not received yet;
-- `timer` is the delay of the poll timer while it is armed.
pub record Worker : Type 0 where
  pub phase : Phase
  pub active : ℕ
  pub empty_polls : ℕ
  pub failure_backoff : ℕ
  pub timer : Option ℤ
  pub cancelled : Bool
  pub running : ℕ
  pub done : List (Option JobError)

pub start : Worker
start = record {
  phase = polling;
  active = 0;
  empty_polls = 0;
  failure_backoff = 0;
  timer = some (pos 0);
  cancelled = false;
  running = 0;
  done = [];
}

unfoldable pub next_backoff_step : ℕ → ℕ
next_backoff_step current = if ltb current 32767 then current + 1 else current

-- How long `drain` waits before it cancels the jobs.
unfoldable pub force_after : ℤ → ℤ
force_after shutdown =
    if leb_ℤ (shutdown -ℤ pos (5 * second)) (pos 0)
    then quot shutdown 2
    else shutdown -ℤ pos (5 * second)

-- The entry of `drain`.
pub drain : List JobError → Worker → Worker
drain result w =
    if w.active == 0
    then record w { phase = returned result }
    else record w { phase = draining result true }

-- A job ends: its goroutine sends to `done`, or drops the message where the buffer is full.
unfoldable pub finish_job : Settings → Option JobError → Worker → Worker
finish_job s e w =
    if ltb (length w.done) s.concurrency
    then record w { running = w.running - 1; done = w.done ++ e ∷ [] }
    else record w { running = w.running - 1 }

backoff : Settings → Worker → Worker
backoff s w =
    let step = next_backoff_step w.failure_backoff in
    record w { failure_backoff = step; timer = some (poll_delay s.poll (pos step)) }

-- `case err := <-done` of `Run`, with `rest` what stays in the buffer.
pub received : Settings → Option JobError → List (Option JobError) → Worker → Worker
unfolding drain backoff next_backoff_step
received s none rest w = record w { active = w.active - 1; done = rest; failure_backoff = 0 }
received s (some job_panic) rest w =
    drain (job_panic ∷ []) (record w { active = w.active - 1; done = rest; cancelled = true })
received s (some e) rest w = backoff s (record w { active = w.active - 1; done = rest })

-- `startJob` for each claim of the batch.
pub start_jobs : List Claim → Worker → Worker
start_jobs [] w = w
start_jobs (c ∷ cs) w = start_jobs cs (record w { active = w.active + 1; running = w.running + 1 })

-- After a batch: the next poll.
reschedule : Settings → List Claim → Worker → Worker
unfolding next_backoff_step
reschedule s [] w =
    let step = next_backoff_step w.empty_polls in
    record w {
      failure_backoff = 0;
      empty_polls = step;
      timer = some (poll_delay s.poll (pos step));
    }
reschedule s (c ∷ cs) w =
    if leb s.concurrency w.active
    then record w { empty_polls = 0; timer = some (poll_delay s.poll (pos 0)) }
    else record w { empty_polls = 0; timer = some (pos 0) }

-- The claim failed; `over` is whether the loop's own context has ended.
claim_failed : Settings → Bool → JobError → Worker → Worker
unfolding drain backoff next_backoff_step
claim_failed s true e w = drain [] w
claim_failed s false job_panic w = drain (job_panic ∷ []) (record w { cancelled = true })
claim_failed s false e w = backoff s w

with_claims : Settings → Bool → ClaimResult → Worker → Worker
unfolding start_jobs reschedule claim_failed
with_claims s over (claimed claims) w = reschedule s claims (start_jobs claims w)
with_claims s over (failed e) w = claim_failed s over e w

-- `min(slots, r.batchSize)`, which the batch is asked for; there are slots where this is called.
abbrev pub batch_limit : Settings → Worker → ℕ
batch_limit s w = min (s.concurrency - w.active) s.batch_size

-- What follows the receive of the timer's tick; `claim` is the call of `claimResponsive`.
pub after_tick : Settings → (ℕ → ClaimResult) → Bool → Worker → Worker
unfolding with_claims
after_tick s claim over w =
    if leb s.concurrency w.active
    then record w { timer = some (poll_delay s.poll (pos 0)) }
    else with_claims s over (claim (batch_limit s w)) w

-- `case <-timer.C` of `Run`: the receive disarms the timer.
unfoldable pub polled : Settings → (ℕ → ClaimResult) → Bool → Worker → Worker
unfolding after_tick
polled s claim over w = after_tick s claim over (record w { timer = none })

-- `errors.Join(result, err)`, but for an error that is a cancelled context.
abbrev join : List JobError → Option JobError → List JobError
join result none = result
join result (some canceled) = result
join result (some e) = result ++ e ∷ []

-- `case err := <-done` of `drain`.
pub drained : List JobError → Bool → Option JobError → List (Option JobError) → Worker → Worker
drained result armed e rest w =
    if w.active - 1 == 0
    then record w { active = w.active - 1; done = rest; phase = returned (join result e) }
    else record w { active = w.active - 1; done = rest; phase = draining (join result e) armed }

-- One receive, poll, timer or end of a job. The store's answers are the environment's choice: the
-- claims of a poll are `claims` of any number and the limit that was asked for.
pub data Step (s : Settings) (claims : ℕ → ℕ → ClaimResult) : Worker → Worker → Type 0 where
  job_ends : (w : Worker) (e : Option JobError) → 0 < w.running → Step s claims w (finish_job s e w)
  stop : (w : Worker) → w.phase ≡ polling → Step s claims w (drain [] w)
  receive :
      (w : Worker) (e : Option JobError) (rest : List (Option JobError))
      → w.phase ≡ polling
      → w.done ≡ e ∷ rest
      → Step s claims w (received s e rest w)
  poll :
      (w : Worker) (nth : ℕ) (over : Bool) (delay : ℤ)
      → w.phase ≡ polling
      → w.timer ≡ some delay
      → Step s claims w (polled s (claims nth) over w)
  drain_receive :
      (w : Worker) (result : List JobError) (armed : Bool) (e : Option JobError)
      (rest : List (Option JobError))
      → w.phase ≡ draining result armed
      → w.done ≡ e ∷ rest
      → Step s claims w (drained result armed e rest w)
  force :
      (w : Worker) (result : List JobError)
      → w.phase ≡ draining result true
      → Step s claims w (record w { phase = draining result false; cancelled = true })
  deadline :
      (w : Worker) (result : List JobError) (armed : Bool)
      → w.phase ≡ draining result armed
      → Step s claims w (record w { phase = returned result; cancelled = true })

pub data Reach (s : Settings) (claims : ℕ → ℕ → ClaimResult) (w : Worker) : Worker → Type 0 where
  here : Reach s claims w w
  next : {t u : Worker} → Reach s claims w t → Step s claims t u → Reach s claims w u
