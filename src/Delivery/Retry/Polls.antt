-- ===== src/Delivery/Retry/Polls.antt =====
-- The pause between two polls.
use go_webhook_delivery.Common.{
  ℕ, ◌+◌, ◌-◌, ◌*◌, ◌/◌, ◌^◌, ◌≤◌, ◌<◌, min, ◌≡◌, refl, arith, ℤ, pos, negsuc, quot, int64_pos,
  sub_pos, add_pos, mul_pos,
}
use go_webhook_delivery.Delivery.Retry.{
  finish_poll, jitter_or_default, poll_delay, default_poll_policy, second, at_most, at_least,
}
use go_webhook_delivery.Delivery.Retry.Ceiling.{backoff_ceiling_lem, le-mul-pow}
use go_webhook_delivery.Delivery.Retry.Bounds.{Jitter}

clamp_cases :
    (limit : ℕ) (x : ℤ) → (d : ℕ) × (at_most (pos limit) (at_least (pos 0) x) ≡ pos d) × (d ≤ limit)
clamp_cases limit (pos n) = (min n limit, ground arith, omega arith)
clamp_cases limit (negsuc n) = (0, ground arith, omega arith)

at_most_pos : (x y : ℕ) → at_most (pos x) (pos y) ≡ pos (min x y)
at_most_pos x y = ground arith

finish_poll_lem :
    (draw : ℤ → ℤ) (m : ℕ)
    → m < 9223372036854775808
    → (d : ℕ) × (finish_poll draw (pos m) ≡ pos d) × (m / 2 ≤ d) × (d ≤ m)
unfolding finish_poll quot
finish_poll_lem draw m h =
    rw (sub_pos m (m / 2) (omega arith), int64_pos (m - m / 2) (omega arith))
      (let (d, e, le) = clamp_cases (m - m / 2) (draw (pos (m - m / 2))) in
        rw (e, add_pos (m / 2) d, int64_pos (m / 2 + d) (omega arith))
          (m / 2 + d, refl, omega arith, omega arith))

-- With a positive base and a cap in the range of int64, the pause after n empty polls lies in the
-- upper half of the exponential ceiling min(cap, base * 2 ^ (n - 1)), whatever the jitter draws.
pub poll_delay_half :
    (b c n : ℕ) (jitter : ℤ → ℤ)
    → 0 < b
    → c < 9223372036854775808
    → (d : ℕ) × (poll_delay (record { base = pos b; cap = pos c; jitter = jitter }) (pos n) ≡ pos d)
      × (min c (b * 2 ^ (n - 1)) / 2 ≤ d)
      × (d ≤ min c (b * 2 ^ (n - 1)))
unfolding poll_delay
poll_delay_half b c n jitter hb hc =
    rw (backoff_ceiling_lem b c n hb hc)
      (finish_poll_lem jitter (min c (b * 2 ^ (n - 1))) (omega arith))

-- Under the worker's default policy for a base of at most ten seconds, every pause is at least half
-- of the base and at most ten seconds.
pub default_poll_delay_bounds :
    (random : ℤ → ℤ) (b n : ℕ) (jitter : Jitter)
    → 0 < b
    → b ≤ 10 * second
    → (d : ℕ) × (poll_delay (default_poll_policy random (pos b) jitter) (pos n) ≡ pos d)
      × (b / 2 ≤ d)
      × (d ≤ 10 * second)
unfolding default_poll_policy
default_poll_delay_bounds random b n jitter hb le =
    rw (mul_pos b 16, int64_pos (b * 16) (omega arith), at_most_pos (10 * second) (b * 16))
      (let (d, e, lo, hi) =
          poll_delay_half b (min (10 * second) (b * 16)) n (jitter_or_default random jitter) hb
            (omega arith) in
        (d, e, omega (arith, le-mul-pow b (n - 1)), omega arith))
