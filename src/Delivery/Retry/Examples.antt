-- ===== src/Delivery/Retry/Examples.antt =====
-- The delays of retry.go on concrete values.
use go_webhook_delivery.Common.{
  ℕ, ◌*◌, ◌/◌, ◌≤◌, ◌≡◌, refl, Option, none, some, arith, bytes, Bytes, ℤ, pos, ◌≤ℤ◌, ◌<ℤ◌, quot,
  int64, ◌*ℤ◌, ◌+ℤ◌, ◌-ℤ◌,
}
use go_webhook_delivery.Golang.Decimal.{format_int}
use go_webhook_delivery.Delivery.Retry.{
  RetryPolicy, second, jitter_or_default, retry_delay, retry_after, poll_delay, default_poll_policy,
  default_retry_policy,
}
use go_webhook_delivery.Delivery.Retry.Bounds.{retry_delay_lem, retry_delay_bounds}
use go_webhook_delivery.Delivery.Retry.Polls.{poll_delay_half, default_poll_delay_bounds}
use go_webhook_delivery.Delivery.Retry.ServerDelay.{
  IsHonoured, retry_after-IsHonoured, retry_after-format_int,
}

-- A jitter that draws everything it may.
abbrev all_of_it : ℤ → ℤ
all_of_it span = span

abbrev no_date : Bytes → Option ℤ
no_date value = none

abbrev policy : RetryPolicy
policy = record { base = pos second; cap = pos (900 * second); jitter = some all_of_it }

retry_delay_lem_run : retry_delay all_of_it policy (pos 4) (pos 0) ≡ pos (8 * second)
unfolding jitter_or_default
retry_delay_lem_run =
    retry_delay_lem all_of_it second (900 * second) 4 (some all_of_it) (pos 0) (omega arith)
      (omega arith) (omega arith)

retry_delay_bounds_example :
    (pos 0 ≤ℤ retry_delay all_of_it policy (pos 40) (pos 0))
    × (pos 0 <ℤ policy.cap → retry_delay all_of_it policy (pos 40) (pos 0) ≤ℤ policy.cap)
    × (policy.base ≤ℤ pos 0 → retry_delay all_of_it policy (pos 40) (pos 0) ≡ pos 0)
    × (policy.cap ≤ℤ pos 0 → retry_delay all_of_it policy (pos 40) (pos 0) ≡ pos 0)
retry_delay_bounds_example = retry_delay_bounds all_of_it policy (pos 40) (pos 0) (omega arith)

poll_delay_half_example :
    (d : ℕ) × (poll_delay (record { base = pos 10; cap = pos 160; jitter = all_of_it }) (pos 3)
      ≡ pos d)
    × (20 ≤ d)
    × (d ≤ 40)
poll_delay_half_example = poll_delay_half 10 160 3 all_of_it (omega arith) (omega arith)

default_poll_delay_bounds_run :
    (d : ℕ) × (poll_delay (default_poll_policy all_of_it (pos 250_000_000) none) (pos 9) ≡ pos d)
    × (250_000_000 / 2 ≤ d)
    × (d ≤ 10 * second)
default_poll_delay_bounds_run =
    default_poll_delay_bounds all_of_it 250_000_000 9 none (omega arith) (omega arith)

retry_after-IsHonoured_run :
    IsHonoured
      (pos (900 * second))
      (retry_after no_date (bytes " 30 ") (pos 0) (pos (900 * second)))
retry_after-IsHonoured_run =
    retry_after-IsHonoured no_date (bytes " 30 ") (pos 0) (pos (900 * second)) (omega arith)

retry_after-format_int_run :
    retry_after no_date (bytes "30") (pos 0) (pos (900 * second)) ≡ pos (30 * second)
unfolding format_int
retry_after-format_int_run =
    retry_after-format_int no_date 30 (900 * second) (pos 0) (omega arith) (omega arith)

trimmed : retry_after no_date (bytes " 30 ") (pos 0) (pos (900 * second)) ≡ pos (30 * second)
unfolding retry_after quot int64 ◌*ℤ◌
trimmed = refl

past_the_cap : retry_after no_date (bytes "901") (pos 0) (pos (900 * second)) ≡ pos 0
unfolding retry_after quot
past_the_cap = refl

default_third :
    retry_delay all_of_it (default_retry_policy all_of_it) (pos 3) (pos 0) ≡ pos (4 * second)
unfolding retry_delay default_retry_policy quot int64 ◌*ℤ◌ ◌+ℤ◌ ◌-ℤ◌
default_third = refl
