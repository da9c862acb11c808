-- ===== src/Delivery/Scheduler/Panics.antt =====
-- A panic in a job ends the worker: the work context is cancelled, nothing more is claimed, and `Run`
-- returns the error.
use go_webhook_delivery.Common.{
  ℕ, ◌-◌, ◌<◌, ◌≡◌, refl, Bool, true, false, Option, none, some, List, [], ◌∷◌, ◌++◌, arith, length,
  pos, ◌≤ℤ◌, ◌<ℤ◌, ◌-ℤ◌, quot, ltb, ◌==◌, Bool-cases, inl, inr,
}
use go_webhook_delivery.Delivery.Scheduler.{
  JobError, job_panic, canceled, other, ClaimResult, Settings, Worker, Phase, polling, draining,
  returned, drain, finish_job, received, drained, join, force_after, Step, job_ends, stop, receive,
  poll, drain_receive, force, deadline, Reach, here, next,
}

abbrev pub has_panic : List JobError → Bool
has_panic [] = false
has_panic (job_panic ∷ es) = true
has_panic (canceled ∷ es) = has_panic es
has_panic (other n ∷ es) = has_panic es

-- The loop drains or has returned, with a panic among its errors.
abbrev pub IsFatal : Phase → Type 0
IsFatal polling = ⊥
IsFatal (draining r a) = has_panic r ≡ true
IsFatal (returned r) = has_panic r ≡ true

pub record Doomed (w : Worker) : Type 0 where
  pub fatal : IsFatal w.phase
  pub stopped : w.cancelled ≡ true

has_panic-append : (es fs : List JobError) → has_panic es ≡ true → has_panic (es ++ fs) ≡ true
has_panic-append [] fs h = cc
has_panic-append (job_panic ∷ es) fs h = refl
has_panic-append (canceled ∷ es) fs h = has_panic-append es fs h
has_panic-append (other n ∷ es) fs h = has_panic-append es fs h

has_panic-join :
    (es : List JobError) (e : Option JobError) → has_panic es ≡ true → has_panic (join es e) ≡ true
has_panic-join es none h = h
has_panic-join es (some canceled) h = h
has_panic-join es (some job_panic) h = has_panic-append es (job_panic ∷ []) h
has_panic-join es (some (other n)) h = has_panic-append es (other n ∷ []) h

fatal_draining :
    (p : Phase) {r : List JobError} {a : Bool} → p ≡ draining r a → IsFatal p → has_panic r ≡ true
fatal_draining polling e h = absurd h
fatal_draining (draining r a) e h = cc
fatal_draining (returned r) e h = cc

not_polling : (p : Phase) → p ≡ polling → IsFatal p → ⊥
not_polling p e h = rw e at h

module _ (s : Settings) where
  -- Receiving the end of a job that panicked dooms the worker, whatever state it was in.
  pub received_panic-Doomed :
      (w : Worker) (rest : List (Option JobError)) → Doomed (received s (some job_panic) rest w)
  unfolding received drain
  received_panic-Doomed w rest = elim (Bool-cases (w.active - 1 == 0)) [
    | inl e ↦ rw e (record { fatal = refl; stopped = refl })
    | inr e ↦ rw e (record { fatal = refl; stopped = refl })
  ]

  finish_job-Doomed : (e : Option JobError) (w : Worker) → Doomed w → Doomed (finish_job s e w)
  unfolding finish_job
  finish_job-Doomed e w h = elim (Bool-cases (ltb (length w.done) s.concurrency)) [
    | inl t ↦ rw t (record { fatal = h.fatal; stopped = h.stopped })
    | inr t ↦ rw t (record { fatal = h.fatal; stopped = h.stopped })
  ]

  drained-Doomed :
      (result : List JobError) (armed : Bool) (e : Option JobError) (rest : List (Option JobError))
      (w : Worker)
      → w.phase ≡ draining result armed
      → Doomed w
      → Doomed (drained result armed e rest w)
  unfolding drained
  drained-Doomed result armed e rest w p h =
      let panic = has_panic-join result e (fatal_draining w.phase p h.fatal) in
      elim (Bool-cases (w.active - 1 == 0)) [
        | inl t ↦ rw t (record { fatal = panic; stopped = h.stopped })
        | inr t ↦ rw t (record { fatal = panic; stopped = h.stopped })
      ]

  module _ (claims : ℕ → ℕ → ClaimResult) where
    Step-Doomed : {t u : Worker} → Step s claims t u → Doomed t → Doomed u
    Step-Doomed (job_ends w e r) h = finish_job-Doomed e w h
    Step-Doomed (stop w p) h = absurd (not_polling w.phase p h.fatal)
    Step-Doomed (receive w e rest p d) h = absurd (not_polling w.phase p h.fatal)
    Step-Doomed (poll w nth over d p t) h = absurd (not_polling w.phase p h.fatal)
    Step-Doomed (drain_receive w result armed e rest p d) h =
        drained-Doomed result armed e rest w p h
    Step-Doomed (force w result p) h = record {
      fatal = fatal_draining w.phase p h.fatal;
      stopped = refl;
    }
    Step-Doomed (deadline w result armed p) h = record {
      fatal = fatal_draining w.phase p h.fatal;
      stopped = refl;
    }

    Reach-Doomed : {t u : Worker} → Reach s claims t u → Doomed t → Doomed u
    Reach-Doomed here h = h
    Reach-Doomed (next r st) h = Step-Doomed st (Reach-Doomed r h)

    -- Once the end of a job that panicked has been received, whatever happens next, the worker never
    -- polls again, its work context stays cancelled, and the panic stays among the errors that
    -- `drain` holds or has returned.
    pub panic_is_final :
        (w : Worker) (rest : List (Option JobError)) {u : Worker}
        → Reach s claims (received s (some job_panic) rest w) u
        → Doomed u
    panic_is_final w rest r = Reach-Doomed r (received_panic-Doomed w rest)

-- With a positive shutdown timeout, a drain cancels the jobs before its deadline, and not before
-- the drain has begun.
pub force_after_bounds :
    (t : ℕ) → 0 < t → (pos 0 ≤ℤ force_after (pos t)) × (force_after (pos t) <ℤ pos t)
unfolding force_after ◌-ℤ◌ quot
force_after_bounds t h = ground arith
