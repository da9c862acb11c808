-- ===== src/Retention.antt =====
-- internal/retention/retention.go: the maintenance runs. The store is an argument, with its database
-- as a state that a purge changes; the clock's readings are `Times`. The loop of `RunOnce` has fuel.
pub mod Settled
mod Examples
use go_webhook_delivery.Common.{
  ℕ, zero, suc, ◌+◌, ◌*◌, Bool, true, false, ◌&&◌, ◌||◌, Option, none, some, if◌then◌else◌, ℤ, pos,
  ◌+ℤ◌, ltb_ℤ, leb_ℤ, eq_ℤ, max_ℤ, int64, Result, ok, err,
}
use go_webhook_delivery.Golang.Time.{second, time_sub, zero_time}

pub record Counts : Type 0 where
  pub payloads : ℤ
  pub secrets : ℤ
  pub attempts : ℤ
  pub replays : ℤ
  pub rotations : ℤ
  pub deliveries : ℤ
  pub events : ℤ
  pub audits : ℤ
  pub buckets : ℤ
  pub sessions : ℤ
  pub workspace_rows : ℤ
  pub workspace_steps : ℤ

abbrev pub no_counts : Counts
no_counts = record {
  payloads = pos 0;
  secrets = pos 0;
  attempts = pos 0;
  replays = pos 0;
  rotations = pos 0;
  deliveries = pos 0;
  events = pos 0;
  audits = pos 0;
  buckets = pos 0;
  sessions = pos 0;
  workspace_rows = pos 0;
  workspace_steps = pos 0;
}

unfoldable pub progress : Counts → ℤ
progress c = int64 (
    c.payloads +ℤ c.secrets +ℤ c.attempts +ℤ c.replays +ℤ c.rotations +ℤ c.deliveries +ℤ c.events
    +ℤ c.audits +ℤ c.buckets +ℤ c.sessions +ℤ c.workspace_rows +ℤ c.workspace_steps)

-- `Add`.
unfoldable pub add_counts : Counts → Counts → Counts
add_counts c o = record {
  payloads = int64 (c.payloads +ℤ o.payloads);
  secrets = int64 (c.secrets +ℤ o.secrets);
  attempts = int64 (c.attempts +ℤ o.attempts);
  replays = int64 (c.replays +ℤ o.replays);
  rotations = int64 (c.rotations +ℤ o.rotations);
  deliveries = int64 (c.deliveries +ℤ o.deliveries);
  events = int64 (c.events +ℤ o.events);
  audits = int64 (c.audits +ℤ o.audits);
  buckets = int64 (c.buckets +ℤ o.buckets);
  sessions = int64 (c.sessions +ℤ o.sessions);
  workspace_rows = int64 (c.workspace_rows +ℤ o.workspace_rows);
  workspace_steps = int64 (c.workspace_steps +ℤ o.workspace_steps);
}

pub record Backlog : Type 0 where
  pub total : ℤ
  pub oldest_expired_at : Option ℤ

pub record Report : Type 0 where
  pub counts : Counts
  pub backlog : ℤ
  pub oldest_age : ℤ
  pub duration : ℤ
  pub batches : ℕ
  pub last_ok : ℤ
  pub is_degraded : Bool

abbrev pub empty_report : Report
empty_report = record {
  counts = no_counts;
  backlog = pos 0;
  oldest_age = pos 0;
  duration = pos 0;
  batches = 0;
  last_ok = zero_time;
  is_degraded = false;
}

pub data RunError : Type 0 where
  store_failed degraded : RunError

-- The counts of a purge count even where it fails.
pub record Purged (D : Type 0) : Type 0 where
  pub database : D
  pub counts : Counts
  pub fails : Bool

-- `Store`: a purge of at most a hundred rows of each kind, and the backlog.
pub record Store (D : Type 0) : Type 0 where
  pub purge : D → Purged D
  pub backlog : D → Option Backlog

-- The readings of the clock: at the start, for the age, for `LastOK`, and at the end.
pub record Times : Type 0 where
  pub started : ℤ
  pub aged : ℤ
  pub checked : ℤ
  pub ended : ℤ

-- `report` and `lastErr` of the runner, once a run is over.
pub record Outcome : Type 0 where
  pub report : Report
  pub last_err : Option RunError

oldest_age_of : ℤ → Backlog → ℤ
oldest_age_of now b = age (ltb_ℤ (pos 0) b.total) b.oldest_expired_at
  where
    age : Bool → Option ℤ → ℤ
    age true (some at) = max_ℤ (time_sub now at) (pos 0)
    age _ _ = pos 0

check_backlog : Times → Report → Option Backlog → Outcome
unfolding oldest_age_of
check_backlog t r none = record { report = r; last_err = some store_failed }
check_backlog t r (some b) =
    let counted = record r { backlog = b.total; oldest_age = oldest_age_of t.aged b } in
    if eq_ℤ b.total (pos 0)
    then (record { report = record counted { last_ok = t.checked }; last_err = none })
    else (record { report = counted; last_err = some degraded })

-- What follows a purge; `rest` is the next round of the loop.
after_purge : Bool → Bool → Outcome → Outcome → Option Outcome → Option Outcome
after_purge true progressed failure checked rest = some failure
after_purge false true failure checked rest = rest
after_purge false false failure checked rest = some checked

module _ {D : Type 0} (s : Store D) where
  pub purge_loop : ℕ → Times → Report → D → Option Outcome
  unfolding check_backlog after_purge progress add_counts
  purge_loop zero t r d = none
  purge_loop (suc fuel) t r d =
      let q = s.purge d in
      let r' = record r { batches = r.batches + 1; counts = add_counts r.counts q.counts } in
      let rest = purge_loop fuel t r' q.database in
      after_purge q.fails (ltb_ℤ (pos 0) (progress q.counts))
        (record { report = r'; last_err = some store_failed })
        (check_backlog t r' (s.backlog q.database)) rest

pub is_error : Option RunError → Bool
is_error none = false
is_error (some e) = true

finish_run : Times → Option Outcome → Option Outcome
unfolding is_error
finish_run t none = none
finish_run t (some o) = some (record {
  report = record o.report {
    duration = time_sub t.ended t.started;
    is_degraded = is_error o.last_err;
  };
  last_err = o.last_err;
})

unfoldable pub run_once : {D : Type 0} → Store D → ℕ → Times → D → Option Outcome
unfolding finish_run purge_loop
run_once s fuel t d = finish_run t (purge_loop s fuel t empty_report d)

-- `Ready`: whether it returns no error.
unfoldable pub ready : ℤ → Outcome → Bool
unfolding is_error
ready now o =
    if is_error o.last_err
      || eq_ℤ o.report.last_ok zero_time
      || ltb_ℤ (pos (25 * 3600 * second)) (time_sub now o.report.last_ok)
    then false
    else true
