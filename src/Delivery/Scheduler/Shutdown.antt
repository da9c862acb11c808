-- ===== src/Delivery/Scheduler/Shutdown.antt =====
-- How the loop goes on and how it ends: the poll timer, a job's panic, and the drain.
use go_webhook_delivery.Common.{
  ℕ, ◌-◌, ◌<◌, ◌≡◌, ap, ltb, Bool, true, false, Option, none, some, List, [], ◌∷◌, arith, length, ℤ,
  leb, ◌==◌, Bool-cases, inl, inr,
}
use go_webhook_delivery.Delivery.Types.{Claim}
use go_webhook_delivery.Delivery.Scheduler.{
  JobError, job_panic, canceled, other, ClaimResult, claimed, failed, Settings, Worker, Phase,
  polling, draining, returned, start, drain, finish_job, backoff, received, start_jobs, reschedule,
  claim_failed, with_claims, batch_limit, after_tick, polled, drained, join, Step, job_ends, stop,
  receive, poll, drain_receive, force, deadline, Reach, here, next,
}
use go_webhook_delivery.Delivery.Scheduler.Invariant.{Fits, reachable-IsCounted, start_jobs_lem}

-- While the loop polls, its timer is armed; while it drains, there is a job to wait for.
abbrev pub IsAwake : Phase → ℕ → Option ℤ → Type 0
IsAwake polling active none = ⊥
IsAwake polling active (some d) = Unit
IsAwake (draining r a) active timer = 0 < active
IsAwake (returned r) active timer = Unit

abbrev pub Awake : Worker → Type 0
Awake w = IsAwake w.phase w.active w.timer

polling_keeps : (p : Phase) (m n : ℕ) (t : Option ℤ) → p ≡ polling → IsAwake p m t → IsAwake p n t
polling_keeps polling m n none e h = h
polling_keeps polling m n (some d) e h = h
polling_keeps (draining r a) m n t e h = cc
polling_keeps (returned r) m n t e h = cc

polling_armed : (p : Phase) (n : ℕ) (d : ℤ) → p ≡ polling → IsAwake p n (some d)
polling_armed p n d e = rw e tt

draining_waits :
    (p : Phase) (n : ℕ) (t : Option ℤ) {r : List JobError} {a : Bool}
    → p ≡ draining r a
    → IsAwake p n t
    → 0 < n
draining_waits polling n t e h = cc
draining_waits (draining r a) n t e h = h
draining_waits (returned r) n t e h = cc

module _ (s : Settings) where
  drain-Awake : (result : List JobError) (w : Worker) → Awake (drain result w)
  unfolding drain
  drain-Awake result w = elim (Bool-cases (w.active == 0)) [
    | inl e ↦ rw e tt
    | inr e ↦ rw e (ground arith)
  ]

  finish_job-Awake : (e : Option JobError) (w : Worker) → Awake w → Awake (finish_job s e w)
  unfolding finish_job
  finish_job-Awake e w h = elim (Bool-cases (ltb (length w.done) s.concurrency)) [
    | inl t ↦ rw t h
    | inr t ↦ rw t h
  ]

  backoff-Awake : (w : Worker) → w.phase ≡ polling → Awake (backoff s w)
  unfolding backoff
  backoff-Awake w p = polling_armed w.phase w.active _ p

  received-Awake :
      (e : Option JobError) (rest : List (Option JobError)) (w : Worker)
      → w.phase ≡ polling
      → Awake w
      → Awake (received s e rest w)
  unfolding received
  received-Awake none rest w p h = polling_keeps w.phase w.active (w.active - 1) w.timer p h
  received-Awake (some job_panic) rest w p h =
      drain-Awake (job_panic ∷ [])
        (record w { active = w.active - 1; done = rest; cancelled = true })
  received-Awake (some canceled) rest w p h =
      backoff-Awake (record w { active = w.active - 1; done = rest }) p
  received-Awake (some (other n)) rest w p h =
      backoff-Awake (record w { active = w.active - 1; done = rest }) p

  reschedule-Awake : (cs : List Claim) (w : Worker) → w.phase ≡ polling → Awake (reschedule s cs w)
  unfolding reschedule
  reschedule-Awake [] w p = polling_armed w.phase w.active _ p
  reschedule-Awake (c ∷ cs) w p = elim (Bool-cases (leb s.concurrency w.active)) [
    | inl t ↦ rw t (polling_armed w.phase w.active _ p)
    | inr t ↦ rw t (polling_armed w.phase w.active _ p)
  ]

  claim_failed-Awake :
      (over : Bool) (e : JobError) (w : Worker)
      → w.phase ≡ polling
      → Awake (claim_failed s over e w)
  unfolding claim_failed
  claim_failed-Awake true e w p = drain-Awake [] w
  claim_failed-Awake false job_panic w p =
      drain-Awake (job_panic ∷ []) (record w { cancelled = true })
  claim_failed-Awake false canceled w p = backoff-Awake w p
  claim_failed-Awake false (other n) w p = backoff-Awake w p

  with_claims-Awake :
      (over : Bool) (r : ClaimResult) (w : Worker)
      → w.phase ≡ polling
      → Awake (with_claims s over r w)
  unfolding with_claims
  with_claims-Awake over (claimed cs) w p =
      reschedule-Awake cs (start_jobs cs w) (rw (start_jobs_lem cs w) p)
  with_claims-Awake over (failed e) w p = claim_failed-Awake over e w p

  after_tick-Awake :
      (claim : ℕ → ClaimResult) (over : Bool) (w : Worker)
      → w.phase ≡ polling
      → Awake (after_tick s claim over w)
  unfolding after_tick
  after_tick-Awake claim over w p = elim (Bool-cases (leb s.concurrency w.active)) [
    | inl full ↦ rw full (polling_armed w.phase w.active _ p)
    | inr room ↦ rw room (with_claims-Awake over (claim (batch_limit s w)) w p)
  ]

  polled-Awake :
      (claim : ℕ → ClaimResult) (over : Bool) (w : Worker)
      → w.phase ≡ polling
      → Awake (polled s claim over w)
  unfolding polled
  polled-Awake claim over w p = after_tick-Awake claim over (record w { timer = none }) p

  drained-Awake :
      (result : List JobError) (armed : Bool) (e : Option JobError) (rest : List (Option JobError))
      (w : Worker)
      → Awake (drained result armed e rest w)
  unfolding drained
  drained-Awake result armed e rest w = elim (Bool-cases (w.active - 1 == 0)) [
    | inl last ↦ rw last tt
    | inr others ↦ rw others (ground arith)
  ]

  module _ (claims : ℕ → ℕ → ClaimResult) where
    Step-Awake : {t u : Worker} → Step s claims t u → Awake t → Awake u
    Step-Awake (job_ends w e r) h = finish_job-Awake e w h
    Step-Awake (stop w p) h = drain-Awake [] w
    Step-Awake (receive w e rest p d) h = received-Awake e rest w p h
    Step-Awake (poll w nth over d p t) h = polled-Awake (claims nth) over w p
    Step-Awake (drain_receive w result armed e rest p d) h = drained-Awake result armed e rest w
    Step-Awake (force w result p) h = draining_waits w.phase w.active w.timer p h
    Step-Awake (deadline w result armed p) h = tt

    -- Although the receive of a tick disarms the poll timer, it is armed between two steps as long as
    -- the loop polls, in every reachable state, so the worker never stops asking for work by itself;
    -- and a drain always waits for at least one job.
    pub reachable-Awake : {w : Worker} → Reach s claims start w → Awake w
    unfolding start
    reachable-Awake here = tt
    reachable-Awake (next r st) = Step-Awake st (reachable-Awake r)

    -- Suppose that the store never returns more claims than it was asked for. Then a drain that
    -- returns because a job was received has left no job behind: none runs, and none waits in the
    -- channel.
    pub drained-leaves_nothing :
        {w : Worker} (result joined : List JobError) (armed : Bool) (e : Option JobError)
        (rest : List (Option JobError))
        → ((nth limit : ℕ) → Fits limit (claims nth limit))
        → Reach s claims start w
        → w.phase ≡ draining result armed
        → w.done ≡ e ∷ rest
        → (drained result armed e rest w).phase ≡ returned joined
        → (w.running ≡ 0) × (length rest ≡ 0) × (joined ≡ join result e)
    unfolding drained
    drained-leaves_nothing {w} result joined armed e rest fits r p d back =
        let c = reachable-IsCounted s claims fits r in
        let waits = draining_waits w.phase w.active w.timer p (reachable-Awake r) in
        ground (arith, ap length d)
