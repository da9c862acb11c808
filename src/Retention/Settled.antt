-- ===== src/Retention/Settled.antt =====
-- A run ends, and says whether it is up to date.
use go_webhook_delivery.Common.{
  ℕ, zero, suc, ◌*◌, ◌<◌, ◌≡◌, ◌≢◌, ◌↔◌, refl, arith, Bool, true, false, Bool-cases, inl, inr,
  Option, none, some, ℤ, pos, ◌<ℤ◌, ◌≤ℤ◌, eq_ℤ, eq_ℤ_iff,
}
use go_webhook_delivery.Golang.Time.{second, time_sub, zero_time}
use go_webhook_delivery.Retention.{
  progress, Backlog, Report, empty_report, RunError, Store, Times, Outcome, check_backlog,
  after_purge, purge_loop, is_error, finish_run, run_once, ready,
}

-- A clean run has found no backlog and has set `LastOK`; any other has left it unset.
abbrev pub Ended : Times → Option RunError → Report → Type 0
Ended t none r = (r.backlog ≡ pos 0) × (r.last_ok ≡ t.checked)
Ended t (some e) r = r.last_ok ≡ zero_time

abbrev IsEnded : Times → Outcome → Type 0
IsEnded t o = Ended t o.last_err o.report

abbrev Ends : Times → Option Outcome → Type 0
Ends t none = ⊥
Ends t (some o) = IsEnded t o

check_backlog-IsEnded :
    (t : Times) (r : Report) (b : Option Backlog)
    → r.last_ok ≡ zero_time
    → IsEnded t (check_backlog t r b)
unfolding check_backlog
check_backlog-IsEnded t r none h = h
check_backlog-IsEnded t r (some b) h = elim (Bool-cases (eq_ℤ b.total (pos 0))) [
  | inl e ↦ rw e ((eq_ℤ_iff b.total (pos 0)).0 e, refl)
  | inr e ↦ rw e h
]

after_purge-Ends :
    (t : Times) (fails progressed : Bool) (failure checked : Outcome) (rest : Option Outcome)
    → IsEnded t failure
    → IsEnded t checked
    → (fails ≡ false → progressed ≡ true → Ends t rest)
    → Ends t (after_purge fails progressed failure checked rest)
unfolding after_purge
after_purge-Ends t true progressed failure checked rest hf hc hr = hf
after_purge-Ends t false true failure checked rest hf hc hr = hr refl refl
after_purge-Ends t false false failure checked rest hf hc hr = hc

-- A purge that makes progress removes something: `size` is a bound on what there is to remove.
abbrev pub Shrinks : {D : Type 0} → Store D → (D → ℕ) → Type 0
Shrinks {D} s size =
    (d : D)
    → (s.purge d).fails ≡ false
    → pos 0 <ℤ progress (s.purge d).counts
    → size (s.purge d).database < size d

module _ {D : Type 0} (s : Store D) (size : D → ℕ) (shrinks : Shrinks s size) where
  purge_loop-Ends :
      (fuel : ℕ) (t : Times) (r : Report) (d : D)
      → size d < fuel
      → r.last_ok ≡ zero_time
      → Ends t (purge_loop s fuel t r d)
  unfolding purge_loop
  purge_loop-Ends zero t r d enough h = absurd (omega arith)
  purge_loop-Ends (suc fuel) t r d enough h =
      after_purge-Ends t _ _ _ _ _ h (check_backlog-IsEnded t _ (s.backlog (s.purge d).database) h)
        (λ no_failure progressed.
          purge_loop-Ends fuel t _ (s.purge d).database
            (omega (arith, shrinks d no_failure (ground arith))) h)

-- What a run leaves: `degraded` says whether there was an error; a run without one has found no
-- backlog and has set `LastOK`, and any other has left it unset.
pub record Settled (t : Times) (o : Outcome) : Type 0 where
  pub flagged : o.report.is_degraded ≡ is_error o.last_err
  pub ended : Ended t o.last_err o.report
  pub duration : o.report.duration ≡ time_sub t.ended t.started

Ended-finished :
    (t : Times) (e : Option RunError) (r : Report) (duration : ℤ) (flag : Bool)
    → Ended t e r
    → Ended t e (record r { duration = duration; is_degraded = flag })
Ended-finished t none r duration flag h = h
Ended-finished t (some e) r duration flag h = h

finish_run-Settled :
    (t : Times) (o : Option Outcome)
    → Ends t o
    → (o' : Outcome) × (finish_run t o ≡ some o') × Settled t o'
unfolding finish_run
finish_run-Settled t none h = absurd h
finish_run-Settled t (some o) h = (
  _,
  refl,
  record { flagged = refl; ended = Ended-finished t o.last_err o.report _ _ h; duration = refl },
)

-- Suppose that a purge which makes progress lowers `size`. Then more fuel than `size` is enough: the
-- run ends. It is degraded exactly if there was an error; without one it has found no backlog and
-- set `LastOK`, with one it has left it unset.
pub run_once-Settled :
    {D : Type 0} (s : Store D) (size : D → ℕ) (fuel : ℕ) (t : Times) (d : D)
    → Shrinks s size
    → size d < fuel
    → (o : Outcome) × (run_once s fuel t d ≡ some o) × Settled t o
unfolding run_once
run_once-Settled s size fuel t d shrinks enough =
    finish_run-Settled t (purge_loop s fuel t empty_report d)
      (purge_loop-Ends s size shrinks fuel t empty_report d enough refl)

ready_cases :
    (now : ℤ) (t : Times) (o : Outcome) (e : Option RunError)
    → o.last_err ≡ e
    → Ended t e o.report
    → t.checked ≢ zero_time
    → (ready now o ≡ true)
      ↔ ((is_error e ≡ false) × (time_sub now t.checked ≤ℤ pos (25 * 3600 * second)))
unfolding ready is_error
ready_cases now t o none f ended set =
    rw (f, ended.1) (ground (arith, eq_ℤ_iff t.checked zero_time))
ready_cases now t o (some e) f ended set = rw f (ground arith)

-- Under the same supposition, and with a clock that does not read the zero time, the process is
-- ready after the run exactly if the run was not degraded and ended at most 25 hours ago.
pub ready-run_once :
    {D : Type 0} (s : Store D) (size : D → ℕ) (fuel : ℕ) (t : Times) (d : D) (now : ℤ)
    → Shrinks s size
    → size d < fuel
    → t.checked ≢ zero_time
    → (o : Outcome) × (run_once s fuel t d ≡ some o)
      × ((ready now o ≡ true)
          ↔ ((o.report.is_degraded ≡ false) × (time_sub now t.checked ≤ℤ pos (25 * 3600 * second))))
ready-run_once s size fuel t d now shrinks enough set =
    let (o, ran, settled) = run_once-Settled s size fuel t d shrinks enough in
    (o, ran, rw settled.flagged (ready_cases now t o o.last_err refl settled.ended set))
