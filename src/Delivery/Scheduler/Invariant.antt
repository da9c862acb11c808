-- ===== src/Delivery/Scheduler/Invariant.antt =====
-- What holds of the worker between two steps.
use go_webhook_delivery.Common.{
  ℕ, ◌+◌, ◌-◌, ◌≤◌, ◌<◌, ◌≡◌, ap, Bool, true, false, Option, some, List, [], ◌∷◌, ◌++◌, arith,
  length, length-append, leb, Bool-cases, inl, inr, none,
}
use go_webhook_delivery.Delivery.Types.{Claim}
use go_webhook_delivery.Delivery.Scheduler.{
  JobError, job_panic, canceled, other, ClaimResult, claimed, failed, Settings, Worker, start,
  next_backoff_step, drain, finish_job, backoff, received, start_jobs, reschedule, claim_failed,
  with_claims, batch_limit, after_tick, polled, drained, Step, job_ends, stop, receive, poll,
  drain_receive, force, deadline, Reach, here, next,
}

-- Every job in flight is counted once, running or waiting to be received; there are at most
-- `concurrency`; and the counters of the back-off stay in int16.
pub record IsCounted (s : Settings) (w : Worker) : Type 0 where
  pub counted : w.active ≡ w.running + length w.done
  pub bounded : w.active ≤ s.concurrency
  pub polls_in_int16 : w.empty_polls ≤ 32767
  pub failures_in_int16 : w.failure_backoff ≤ 32767

-- A batch holds at most as many claims as it was asked for.
abbrev pub Fits : ℕ → ClaimResult → Type 0
Fits limit (claimed cs) = length cs ≤ limit
Fits limit (failed e) = Unit

start-IsCounted : (s : Settings) → IsCounted s start
unfolding start
start-IsCounted s = omega arith

next_backoff_step-le : (n : ℕ) → n ≤ 32767 → next_backoff_step n ≤ 32767
unfolding next_backoff_step
next_backoff_step-le n h = ground arith

-- The jobs of a batch are counted and running.
pub start_jobs_lem :
    (cs : List Claim) (w : Worker)
    → start_jobs cs w ≡ record w { active = w.active + length cs; running = w.running + length cs }
unfolding start_jobs
start_jobs_lem [] w = ground arith
start_jobs_lem (c ∷ cs) w =
    rw (start_jobs_lem cs (record w { active = w.active + 1; running = w.running + 1 }))
      (ground arith)

module _ (s : Settings) where
  drain-IsCounted :
      (result : List JobError) (w : Worker) → IsCounted s w → IsCounted s (drain result w)
  unfolding drain
  drain-IsCounted result w h = ground arith

  finish_job-IsCounted :
      (e : Option JobError) (w : Worker)
      → 0 < w.running
      → IsCounted s w
      → IsCounted s (finish_job s e w)
  unfolding finish_job
  finish_job-IsCounted e w r h = ground (arith, length-append w.done (e ∷ []))

  backoff-IsCounted : (w : Worker) → IsCounted s w → IsCounted s (backoff s w)
  unfolding backoff
  backoff-IsCounted w h = ground (arith, next_backoff_step-le w.failure_backoff)

  -- The message that is received was counted.
  pub taken-IsCounted :
      (w : Worker) (e : Option JobError) (rest : List (Option JobError))
      → w.done ≡ e ∷ rest
      → IsCounted s w
      → IsCounted s (record w { active = w.active - 1; done = rest })
  taken-IsCounted w e rest d h = ground (arith, ap length d)

  received-IsCounted :
      (w : Worker) (e : Option JobError) (rest : List (Option JobError))
      → w.done ≡ e ∷ rest
      → IsCounted s w
      → IsCounted s (received s e rest w)
  unfolding received
  received-IsCounted w none rest d h = ground (arith, taken-IsCounted w none rest d h)
  received-IsCounted w (some job_panic) rest d h =
      drain-IsCounted (job_panic ∷ [])
        (record w { active = w.active - 1; done = rest; cancelled = true })
        (ground (arith, taken-IsCounted w (some job_panic) rest d h))
  received-IsCounted w (some canceled) rest d h =
      backoff-IsCounted _ (taken-IsCounted w (some canceled) rest d h)
  received-IsCounted w (some (other n)) rest d h =
      backoff-IsCounted _ (taken-IsCounted w (some (other n)) rest d h)

  reschedule-IsCounted :
      (cs : List Claim) (w : Worker) → IsCounted s w → IsCounted s (reschedule s cs w)
  unfolding reschedule
  reschedule-IsCounted [] w h = ground (arith, next_backoff_step-le w.empty_polls)
  reschedule-IsCounted (c ∷ cs) w h = ground arith

  claim_failed-IsCounted :
      (over : Bool) (e : JobError) (w : Worker)
      → IsCounted s w
      → IsCounted s (claim_failed s over e w)
  unfolding claim_failed
  claim_failed-IsCounted true e w h = drain-IsCounted [] w h
  claim_failed-IsCounted false job_panic w h =
      drain-IsCounted (job_panic ∷ []) (record w { cancelled = true }) (ground arith)
  claim_failed-IsCounted false canceled w h = backoff-IsCounted w h
  claim_failed-IsCounted false (other n) w h = backoff-IsCounted w h

  with_claims-IsCounted :
      (over : Bool) (r : ClaimResult) (w : Worker)
      → Fits (s.concurrency - w.active) r
      → IsCounted s w
      → IsCounted s (with_claims s over r w)
  unfolding with_claims
  with_claims-IsCounted over (claimed cs) w fits h =
      reschedule-IsCounted cs _ (rw (start_jobs_lem cs w) (ground arith))
  with_claims-IsCounted over (failed e) w fits h = claim_failed-IsCounted over e w h

  Fits-le : (m n : ℕ) (r : ClaimResult) → m ≤ n → Fits m r → Fits n r
  Fits-le m n (claimed cs) le h = omega arith
  Fits-le m n (failed e) le h = tt

  after_tick-IsCounted :
      (claim : ℕ → ClaimResult) (over : Bool) (w : Worker)
      → ((limit : ℕ) → Fits limit (claim limit))
      → IsCounted s w
      → IsCounted s (after_tick s claim over w)
  unfolding after_tick
  after_tick-IsCounted claim over w fits h = elim (Bool-cases (leb s.concurrency w.active)) [
    | inl full ↦ rw full (ground arith)
    | inr room ↦ rw room (
        with_claims-IsCounted over (claim (batch_limit s w)) w
          (Fits-le (batch_limit s w) (s.concurrency - w.active) (claim (batch_limit s w))
            (omega arith) (fits (batch_limit s w)))
          h)
  ]

  polled-IsCounted :
      (claim : ℕ → ClaimResult) (over : Bool) (w : Worker)
      → ((limit : ℕ) → Fits limit (claim limit))
      → IsCounted s w
      → IsCounted s (polled s claim over w)
  unfolding polled
  polled-IsCounted claim over w fits h =
      after_tick-IsCounted claim over (record w { timer = none }) fits (ground arith)

  drained-IsCounted :
      (result : List JobError) (armed : Bool) (e : Option JobError) (rest : List (Option JobError))
      (w : Worker)
      → w.done ≡ e ∷ rest
      → IsCounted s w
      → IsCounted s (drained result armed e rest w)
  unfolding drained
  drained-IsCounted result armed e rest w d h = ground (arith, taken-IsCounted w e rest d h)

  module _ (claims : ℕ → ℕ → ClaimResult)
      (fits : (nth limit : ℕ) → Fits limit (claims nth limit)) where
    Step-IsCounted : {t u : Worker} → Step s claims t u → IsCounted s t → IsCounted s u
    Step-IsCounted (job_ends w e r) h = finish_job-IsCounted e w r h
    Step-IsCounted (stop w p) h = drain-IsCounted [] w h
    Step-IsCounted (receive w e rest p d) h = received-IsCounted w e rest d h
    Step-IsCounted (poll w nth over d p t) h = polled-IsCounted (claims nth) over w (fits nth) h
    Step-IsCounted (drain_receive w result armed e rest p d) h =
        drained-IsCounted result armed e rest w d h
    Step-IsCounted (force w result p) h = ground arith
    Step-IsCounted (deadline w result armed p) h = ground arith

    Reach-IsCounted : {t u : Worker} → Reach s claims t u → IsCounted s t → IsCounted s u
    Reach-IsCounted here h = h
    Reach-IsCounted (next r st) h = Step-IsCounted st (Reach-IsCounted r h)

    -- Suppose that the store never returns more claims than it was asked for. Then in every state
    -- that the worker reaches, the jobs that run and the ends that wait in the channel add up to
    -- `active`, which is at most the concurrency; and the back-off counters stay in int16.
    pub reachable-IsCounted : {w : Worker} → Reach s claims start w → IsCounted s w
    reachable-IsCounted r = Reach-IsCounted r (start-IsCounted s)

    -- Under the same supposition no end of a job is dropped: whenever a reachable worker has a
    -- running job, its end finds room in the channel and is appended there.
    pub no_end_is_dropped :
        {w : Worker} (e : Option JobError)
        → Reach s claims start w
        → 0 < w.running
        → finish_job s e w ≡ record w { running = w.running - 1; done = w.done ++ e ∷ [] }
    unfolding finish_job
    no_end_is_dropped {w} e r h = let c = reachable-IsCounted r in ground arith
