-- ===== src/Delivery/Retry.antt =====
-- internal/delivery/retry.go: the delays between attempts and between polls. A duration is an int64
-- number of nanoseconds, a time an integer number of nanoseconds since the epoch; an operation that
-- can leave the range of int64 is wrapped by `int64`. The random source is an argument.
pub mod Ceiling
pub mod Bounds
pub mod Polls
pub mod ServerDelay
mod Examples
use go_webhook_delivery.Common.{
  ℕ, zero, suc, ◌+◌, ◌-◌, ◌*◌, Bool, true, false, ◌&&◌, ◌||◌, Option, none, some, if◌then◌else◌,
  Bytes, is_empty, ℤ, pos, negsuc, ◌+ℤ◌, ◌-ℤ◌, ◌*ℤ◌, pos_part, ltb_ℤ, leb_ℤ, int64, quot,
}
use go_webhook_delivery.Golang.Decimal.{parse_int, int32_bound}
pub use go_webhook_delivery.Golang.Time.{second}
use go_webhook_delivery.Golang.Time.{time_sub}
use go_webhook_delivery.Golang.Strings.{trim_space}

pub record RetryPolicy : Type 0 where
  pub base : ℤ
  pub cap : ℤ
  pub jitter : Option (ℤ → ℤ)

-- `random n` is `rand.Int64N(n)`.
pub default_jitter : (ℤ → ℤ) → ℤ → ℤ
default_jitter random max = if leb_ℤ max (pos 0) then pos 0 else random (int64 (max +ℤ pos 1))

pub default_retry_policy : (ℤ → ℤ) → RetryPolicy
default_retry_policy random = record {
  base = pos second;
  cap = pos (15 * 60 * second);
  jitter = some (default_jitter random);
}

-- The loop of `Delay`, over the rounds that `current < attempt` still allows.
grow : ℕ → ℤ → ℤ → ℤ
grow zero cap ceiling = ceiling
grow (suc rounds) cap ceiling =
    let rest = grow rounds cap (int64 (ceiling *ℤ pos 2)) in
    if ltb_ℤ ceiling cap then (if ltb_ℤ (quot cap 2) ceiling then cap else rest) else ceiling

abbrev pub at_most : ℤ → ℤ → ℤ
at_most limit x = if ltb_ℤ limit x then limit else x

abbrev pub at_least : ℤ → ℤ → ℤ
at_least limit x = if ltb_ℤ x limit then limit else x

-- `current` runs from 1 up to `attempt`, so there are `attempt - 1` rounds.
pub backoff_ceiling : ℤ → ℤ → ℤ → ℤ
unfolding grow
backoff_ceiling base cap attempt = at_most cap (grow (pos_part (attempt -ℤ pos 1)) cap base)

pub jitter_or_default : (ℤ → ℤ) → Option (ℤ → ℤ) → ℤ → ℤ
unfolding default_jitter
jitter_or_default random none = default_jitter random
jitter_or_default random (some jitter) = jitter

-- From the jitter on; `delay` is what the jitter drew.
finish_delay : ℤ → ℤ → ℤ → ℤ → ℤ
finish_delay cap ceiling server_delay drawn =
    let delay = at_most ceiling (at_least (pos 0) drawn) in
    if ltb_ℤ delay server_delay && leb_ℤ server_delay cap then server_delay else delay

unfoldable pub retry_delay : (ℤ → ℤ) → RetryPolicy → ℤ → ℤ → ℤ
unfolding backoff_ceiling jitter_or_default finish_delay
retry_delay random p attempt server_delay =
    if leb_ℤ p.base (pos 0) || leb_ℤ p.cap (pos 0)
    then pos 0
    else (let ceiling = backoff_ceiling p.base p.cap attempt in
        finish_delay p.cap ceiling server_delay (jitter_or_default random p.jitter ceiling))

after_seconds : ℤ → ℤ → ℤ
after_seconds cap seconds =
    if leb_ℤ seconds (pos 0) || leb_ℤ cap (pos 0) || ltb_ℤ (quot cap second) seconds
    then pos 0
    else int64 (seconds *ℤ pos second)

after_date : ℤ → ℤ → Option ℤ → ℤ
unfolding time_sub
after_date cap now none = pos 0
after_date cap now (some when) =
    if leb_ℤ when now
    then pos 0
    else let delay = time_sub when now in if ltb_ℤ cap delay then pos 0 else delay

-- `parse_time` is `http.ParseTime`, which the model takes as an argument.
retry_after_value : (Bytes → Option ℤ) → Bytes → ℤ → ℤ → Option ℤ → ℤ
unfolding after_seconds after_date
retry_after_value parse_time value now cap none = after_date cap now (parse_time value)
retry_after_value parse_time value now cap (some seconds) = after_seconds cap seconds

unfoldable pub retry_after : (Bytes → Option ℤ) → Bytes → ℤ → ℤ → ℤ
unfolding retry_after_value trim_space parse_int
retry_after parse_time raw now cap =
    let value = trim_space raw in
    if is_empty value
    then pos 0
    else retry_after_value parse_time value now cap (parse_int int32_bound value)

pub record PollPolicy : Type 0 where
  pub base : ℤ
  pub cap : ℤ
  pub jitter : ℤ → ℤ

unfoldable pub default_poll_policy : (ℤ → ℤ) → ℤ → Option (ℤ → ℤ) → PollPolicy
unfolding jitter_or_default
default_poll_policy random base jitter = record {
  base = base;
  cap = at_most (pos (10 * second)) (int64 (base *ℤ pos 16));
  jitter = jitter_or_default random jitter;
}

-- From the ceiling on: half of it, and a jitter over the rest.
finish_poll : (ℤ → ℤ) → ℤ → ℤ
finish_poll draw ceiling =
    let floor = quot ceiling 2 in
    let span = int64 (ceiling -ℤ floor) in
    int64 (floor +ℤ at_most span (at_least (pos 0) (draw span)))

-- The loop is that of `RetryPolicy.Delay`, written once more in the source.
unfoldable pub poll_delay : PollPolicy → ℤ → ℤ
unfolding backoff_ceiling finish_poll
poll_delay p empty_polls = finish_poll p.jitter (backoff_ceiling p.base p.cap empty_polls)
