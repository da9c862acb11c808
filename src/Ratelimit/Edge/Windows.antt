-- ===== src/Ratelimit/Edge/Windows.antt =====
-- How many calls of one window are allowed.
use go_webhook_delivery.Common.{
  ℕ, ◌+◌, ◌≤◌, ◌≡◌, refl, arith, Bool, true, false, List, [], ◌∷◌, Bytes, All, if◌then◌else◌, ℤ,
  pos, eq_ℤ_iff,
}
use go_webhook_delivery.Signing.{Hmac}
use go_webhook_delivery.Ratelimit.Edge.{
  EdgePolicy, EdgeLimiter, EdgeBucket, validate_edge, reset_bucket, window_of, allow,
}
use go_webhook_delivery.Ratelimit.Edge.Bounds.{
  IsBounded, Answered, allow-IsAnswered, allow-IsBounded, count-reset_bucket,
}

-- A call of `allow`: the time in nanoseconds, and who calls.
pub record Call : Type 0 where
  pub time : ℕ
  pub origin : Bytes
  pub prefix : Bytes

-- The number of allowed calls, one after the other. The mutex makes each call of `allow` one step.
unfoldable pub allowed_calls : Hmac → Bytes → EdgePolicy → List Call → EdgeLimiter → ℕ
allowed_calls h pepper p [] l = 0
allowed_calls h pepper p (c ∷ calls) l =
    let r = allow h pepper p (pos c.time) c.origin c.prefix l in
    (if r.1 then 1 else 0) + allowed_calls h pepper p calls r.0

reset_bucket_same :
    (b : EdgeBucket) (start : ℤ) → b.window_start ≡ start → (reset_bucket b start).count ≡ b.count
unfolding reset_bucket
reset_bucket_same b start e = rw ((eq_ℤ_iff b.window_start start).1 e) refl

step_total :
    (p : EdgePolicy) (b : EdgeBucket) (start : ℤ) (l : EdgeLimiter) (allowed : Bool)
    (retry_after : ℤ) (rest : ℕ)
    → Answered p start (reset_bucket b start).count l allowed retry_after
    → (reset_bucket l.global start).count + rest ≤ p.global
    → (reset_bucket b start).count + ((if allowed then 1 else 0) + rest) ≤ p.global
step_total p b start l true retry_after rest a h =
    omega (arith, a.total, reset_bucket_same l.global start a.in_window)
step_total p b start l false retry_after rest a h =
    omega (arith, a.total, reset_bucket_same l.global start a.in_window)

module _ (h : Hmac) (pepper : Bytes) (p : EdgePolicy) (valid : validate_edge p ≡ true) where
  window_total :
      (start : ℤ) (calls : List Call) (l : EdgeLimiter)
      → IsBounded p l
      → All (λ c. window_of p (pos c.time) ≡ start) calls
      → (reset_bucket l.global start).count + allowed_calls h pepper p calls l ≤ p.global
  unfolding allowed_calls
  window_total start [] l b same = omega (arith, b.counted, count-reset_bucket l.global start)
  window_total start (c ∷ calls) l b same =
      let r = allow h pepper p (pos c.time) c.origin c.prefix l in
      step_total p l.global start r.0 r.1 r.2 (allowed_calls h pepper p calls r.0)
        (rw (← same.0) (allow-IsAnswered h pepper p c.time c.origin c.prefix l valid))
        (window_total start calls r.0
          (allow-IsBounded h pepper p c.time c.origin c.prefix l valid b) same.1)

-- Under an accepted configuration, among the calls of one window that follow each other at any
-- bounded limiter, at most `global` are allowed, whoever makes them.
pub allowed_calls-le-global :
    (h : Hmac) (pepper : Bytes) (p : EdgePolicy) (start : ℤ) (calls : List Call) (l : EdgeLimiter)
    → validate_edge p ≡ true
    → IsBounded p l
    → All (λ c. window_of p (pos c.time) ≡ start) calls
    → allowed_calls h pepper p calls l ≤ p.global
allowed_calls-le-global h pepper p start calls l valid b same =
    omega (arith, window_total h pepper p valid start calls l b same)
