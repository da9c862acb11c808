-- ===== src/Delivery/Retry/Bounds.antt =====
-- `RetryPolicy.Delay` against its description: a draw below the exponential ceiling, raised to what
-- the server asked for where that does not pass the cap.
use go_webhook_delivery.Common.{
  ℕ, ◌-◌, ◌*◌, ◌^◌, ◌<◌, min, ◌≡◌, Option, arith, ℤ, pos, ◌≤ℤ◌, ◌<ℤ◌, InInt64, max_ℤ, leb_ℤ,
  if◌then◌else◌,
}
use go_webhook_delivery.Delivery.Retry.{
  RetryPolicy, retry_delay, jitter_or_default, at_most, at_least,
}
use go_webhook_delivery.Delivery.Retry.Ceiling.{backoff_ceiling_lem, backoff_ceiling_bounds}

abbrev pub Jitter : Type 0
Jitter = Option (ℤ → ℤ)

-- What the jitter draws, held between 0 and the ceiling.
abbrev pub drawn_below : (ℤ → ℤ) → Jitter → ℤ → ℤ
drawn_below random jitter ceiling =
    at_most ceiling (at_least (pos 0) (jitter_or_default random jitter ceiling))

-- With a positive base and a positive cap in the range of int64, the delay before attempt n + 1 is
-- what the jitter draws, held between 0 and the ceiling min(cap, base * 2 ^ (n - 1)); a delay that
-- the server asks for replaces a smaller draw exactly if it does not pass the cap.
pub retry_delay_lem :
    (random : ℤ → ℤ) (b c n : ℕ) (jitter : Jitter) (server_delay : ℤ)
    → 0 < b
    → 0 < c
    → c < 9223372036854775808
    → retry_delay random
        (record { base = pos b; cap = pos c; jitter = jitter })
        (pos n)
        server_delay
      ≡ (if leb_ℤ server_delay (pos c)
          then max_ℤ (drawn_below random jitter (pos (min c (b * 2 ^ (n - 1))))) server_delay
          else drawn_below random jitter (pos (min c (b * 2 ^ (n - 1)))))
unfolding retry_delay
retry_delay_lem random b c n jitter server_delay hb hc h =
    rw (backoff_ceiling_lem b c n hb h) (ground arith)

-- The delay is never negative. It does not pass a positive cap in the range of int64, whatever the
-- jitter draws and the server asks for, and it is 0 where the base or the cap is not positive.
pub retry_delay_bounds :
    (random : ℤ → ℤ) (p : RetryPolicy) (attempt server_delay : ℤ)
    → InInt64 p.cap
    → (pos 0 ≤ℤ retry_delay random p attempt server_delay)
      × (pos 0 <ℤ p.cap → retry_delay random p attempt server_delay ≤ℤ p.cap)
      × (p.base ≤ℤ pos 0 → retry_delay random p attempt server_delay ≡ pos 0)
      × (p.cap ≤ℤ pos 0 → retry_delay random p attempt server_delay ≡ pos 0)
unfolding retry_delay
retry_delay_bounds random p attempt server_delay h = (
  ground (arith, backoff_ceiling_bounds p.base p.cap attempt),
  ground (arith, backoff_ceiling_bounds p.base p.cap attempt),
  ground arith,
  ground arith,
)
