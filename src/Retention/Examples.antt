-- ===== src/Retention/Examples.antt =====
-- A store that still has to purge a few secrets, one at a time.
use go_webhook_delivery.Common.{
  ℕ, zero, suc, ◌*◌, ◌≡◌, ◌≢◌, ◌↔◌, ◌<◌, refl, arith, true, false, none, some, ℤ, pos, ◌+ℤ◌, int64,
  to_uint64, of_uint64, ◌<ℤ◌, ◌≤ℤ◌,
}
use go_webhook_delivery.Golang.Time.{second, zero_time, time_sub}
use go_webhook_delivery.Retention.{
  no_counts, Counts, progress, Purged, Store, Times, Outcome, run_once, ready,
}
use go_webhook_delivery.Retention.Settled.{Shrinks, Settled, run_once-Settled, ready-run_once}

abbrev one_secret : Counts
one_secret = record no_counts { secrets = pos 1 }

abbrev purge_one : ℕ → Purged ℕ
purge_one zero = record { database = zero; counts = no_counts; fails = false }
purge_one (suc n) = record { database = n; counts = one_secret; fails = false }

abbrev store : Store ℕ
store = record {
  purge = purge_one;
  backlog = λ n. some (record { total = pos 0; oldest_expired_at = none });
}

progress_none : progress no_counts ≡ pos 0
unfolding progress int64 ◌+ℤ◌ to_uint64 of_uint64
progress_none = refl

not_positive : (z : ℤ) → z ≡ pos 0 → pos 0 <ℤ z → zero < zero
not_positive z e h = ground arith

purge_one-Shrinks : Shrinks store (λ n. n)
purge_one-Shrinks zero no_failure progressed =
    not_positive (progress no_counts) progress_none progressed
purge_one-Shrinks (suc n) no_failure progressed = omega arith

abbrev times : Times
times = record {
  started = pos (1000 * second);
  aged = pos (1001 * second);
  checked = pos (1002 * second);
  ended = pos (1003 * second);
}

checked-is_set : pos (1002 * second) ≢ zero_time
checked-is_set e = absurd (ground arith)

run_once-Settled_example : (o : Outcome) × (run_once store 4 times 3 ≡ some o) × Settled times o
run_once-Settled_example = run_once-Settled store (λ n. n) 4 times 3 purge_one-Shrinks (omega arith)

ready-run_once_run :
    (o : Outcome) × (run_once store 4 times 3 ≡ some o)
    × ((ready (pos (2000 * second)) o ≡ true) ↔ (
        (o.report.is_degraded ≡ false)
        × (time_sub (pos (2000 * second)) (pos (1002 * second)) ≤ℤ pos (25 * 3600 * second))))
ready-run_once_run =
    ready-run_once store (λ n. n) 4 times 3 (pos (2000 * second)) purge_one-Shrinks (omega arith)
      checked-is_set
