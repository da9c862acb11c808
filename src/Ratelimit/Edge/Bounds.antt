-- ===== src/Ratelimit/Edge/Bounds.antt =====
-- What the limiter holds is bounded, and a call counts exactly if it is allowed.
use go_webhook_delivery.Common.{
  ℕ, ◌+◌, ◌*◌, ◌/◌, ◌≤◌, ◌<◌, ◌≡◌, refl, arith, Bool, true, false, List, Bytes, length,
  if◌then◌else◌, ltb, Bool-cases, inl, inr, ℤ, pos, ◌≤ℤ◌, quot, ◌+ℤ◌, ◌-ℤ◌, eq_ℤ, eq_ℤ_iff, mul_pos,
}
use go_webhook_delivery.Golang.Time.{second, unix_seconds}
use go_webhook_delivery.Signing.{Hmac}
use go_webhook_delivery.Ratelimit.Edge.Buckets.{check_buckets-fits, length-increment_all}
use go_webhook_delivery.Ratelimit.Edge.{
  EdgePolicy, EdgeBucket, EdgeLimiter, validate_edge, reset_bucket, bucket_available, retry_seconds,
  window_seconds, window_of, check_buckets, counted, allow_keys, allow, requested_buckets,
}

-- The buckets fit the bound, and the global count does not pass its limit.
pub record IsBounded (p : EdgePolicy) (l : EdgeLimiter) : Type 0 where
  pub buckets : length l.lru ≤ p.max_buckets
  pub counted : l.global.count ≤ p.global

-- What a call leaves and answers. `before` is the global count of the call's window.
pub record Answered (p : EdgePolicy) (start : ℤ) (before : ℕ) (l : EdgeLimiter) (allowed : Bool)
    (retry_after : ℤ) : Type 0 where
  pub in_window : l.global.window_start ≡ start
  pub total : l.global.count ≡ (if allowed then before + 1 else before)
  pub free : allowed ≡ true → (before < p.global) × (retry_after ≡ pos 0)
  pub wait : allowed ≡ false → (pos 1 ≤ℤ retry_after) × (retry_after ≤ℤ pos (window_seconds p))

abbrev pub IsAnswered : EdgePolicy → ℤ → ℕ → EdgeLimiter × Bool × ℤ → Type 0
IsAnswered p start before r = Answered p start before r.0 r.1 r.2

reset_bucket-start : (b : EdgeBucket) (start : ℤ) → (reset_bucket b start).window_start ≡ start
unfolding reset_bucket
reset_bucket-start b start = elim (Bool-cases (eq_ℤ b.window_start start)) [
  | inl e ↦ rw e ((eq_ℤ_iff b.window_start start).0 e)
  | inr e ↦ rw e refl
]

pub count-reset_bucket : (b : EdgeBucket) (start : ℤ) → (reset_bucket b start).count ≤ b.count
unfolding reset_bucket
count-reset_bucket b start = ground arith

start_of :
    (p : EdgePolicy) (n : ℕ)
    → window_of p (pos n) ≡ pos ((n / second) / window_seconds p * window_seconds p)
unfolding window_of unix_seconds quot
start_of p n = mul_pos _ _

-- The wait that a refusal asks for ends with the window.
retry_seconds-in_window :
    (p : EdgePolicy) (n : ℕ)
    → 0 < window_seconds p
    → (let wait = retry_seconds (pos n) (window_of p (pos n)) (pos (window_seconds p)) in
        (pos 1 ≤ℤ wait) × (wait ≤ℤ pos (window_seconds p)))
unfolding retry_seconds unix_seconds
retry_seconds-in_window p n some_window = rw (start_of p n) (unfold ◌+ℤ◌ ◌-ℤ◌ in ground arith)

module _ (p : EdgePolicy) (n : ℕ) (some_window : 0 < window_seconds p) where
  abbrev start : ℤ
  start = window_of p (pos n)

  counted-Answered :
      (keys : List (Bytes × ℕ)) (global : EdgeBucket) (r : Bool × List EdgeBucket)
      → global.window_start ≡ start
      → global.count < p.global
      → IsAnswered p start global.count (counted (pos n) start (window_seconds p) keys global r)
  unfolding counted
  counted-Answered keys global (false, lru) e h = record {
    in_window = e;
    total = refl;
    free = λ f. absurd cc;
    wait = λ f. retry_seconds-in_window p n some_window;
  }
  counted-Answered keys global (true, lru) e h = record {
    in_window = e;
    total = refl;
    free = λ f. (h, refl);
    wait = λ f. absurd cc;
  }

  pub allow_keys-IsAnswered :
      (keys : List (Bytes × ℕ)) (l : EdgeLimiter)
      → IsAnswered p start (reset_bucket l.global start).count (allow_keys p (pos n) keys l)
  unfolding allow_keys bucket_available
  allow_keys-IsAnswered keys l =
      elim (Bool-cases (ltb (reset_bucket l.global start).count p.global)) [
        | inl e ↦ rw e (
            counted-Answered keys (reset_bucket l.global start) (check_buckets p start keys l.lru)
              (reset_bucket-start l.global start) (ground arith))
        | inr e ↦ rw e (record {
          in_window = reset_bucket-start l.global start;
          total = refl;
          free = λ f. absurd cc;
          wait = λ f. retry_seconds-in_window p n some_window;
        })
      ]

counted-fits :
    (p : EdgePolicy) (now start : ℤ) (window : ℕ) (keys : List (Bytes × ℕ)) (global : EdgeBucket)
    (r : Bool × List EdgeBucket)
    → length r.1 ≤ p.max_buckets
    → length (counted now start window keys global r).0.lru ≤ p.max_buckets
unfolding counted
counted-fits p now start window keys global (false, lru) h = h
counted-fits p now start window keys global (true, lru) h =
    omega (arith, length-increment_all keys lru)

allow_keys-fits :
    (p : EdgePolicy) (now : ℤ) (keys : List (Bytes × ℕ)) (l : EdgeLimiter)
    → 0 < p.max_buckets
    → length l.lru ≤ p.max_buckets
    → length (allow_keys p now keys l).0.lru ≤ p.max_buckets
unfolding allow_keys
allow_keys-fits p now keys l some_room fits =
    elim (Bool-cases (bucket_available l.global (window_of p now) p.global)) [
      | inl e ↦ rw e (
          counted-fits p now (window_of p now) (window_seconds p) keys
            (reset_bucket l.global (window_of p now)) (check_buckets p (window_of p now) keys l.lru)
            (check_buckets-fits p some_room (window_of p now) keys l.lru fits))
      | inr e ↦ rw e fits
    ]

pub validate_edge-window : (p : EdgePolicy) → validate_edge p ≡ true → 0 < window_seconds p
unfolding validate_edge window_seconds
validate_edge-window p h = ground arith

validate_edge-buckets : (p : EdgePolicy) → validate_edge p ≡ true → 0 < p.max_buckets
unfolding validate_edge
validate_edge-buckets p h = ground arith

-- Under an accepted configuration, after 1970, a call leaves the global count of its own window. An
-- allowed call found it below the limit, adds one and waits for nothing. A refused call adds nothing
-- and is told to wait between one second and the length of the window.
pub allow-IsAnswered :
    (h : Hmac) (pepper : Bytes) (p : EdgePolicy) (n : ℕ) (origin prefix : Bytes) (l : EdgeLimiter)
    → validate_edge p ≡ true
    → IsAnswered p
        (window_of p (pos n))
        (reset_bucket l.global (window_of p (pos n))).count
        (allow h pepper p (pos n) origin prefix l)
unfolding allow
allow-IsAnswered h pepper p n origin prefix l valid =
    allow_keys-IsAnswered p n (validate_edge-window p valid)
      (requested_buckets h pepper p origin prefix) l

total_bound :
    (p : EdgePolicy) (b : EdgeBucket) (start : ℤ) (l : EdgeLimiter) (allowed : Bool)
    (retry_after : ℤ)
    → Answered p start (reset_bucket b start).count l allowed retry_after
    → b.count ≤ p.global
    → l.global.count ≤ p.global
total_bound p b start l true retry_after a h = omega (arith, a.total, a.free refl)
total_bound p b start l false retry_after a h = omega (arith, a.total, count-reset_bucket b start)

-- Under an accepted configuration, every call keeps the limiter bounded.
pub allow-IsBounded :
    (h : Hmac) (pepper : Bytes) (p : EdgePolicy) (n : ℕ) (origin prefix : Bytes) (l : EdgeLimiter)
    → validate_edge p ≡ true
    → IsBounded p l
    → IsBounded p (allow h pepper p (pos n) origin prefix l).0
allow-IsBounded h pepper p n origin prefix l valid b = record {
  buckets =
      unfold allow in
      allow_keys-fits p (pos n) (requested_buckets h pepper p origin prefix) l
        (validate_edge-buckets p valid) b.buckets;
  counted =
      total_bound p l.global (window_of p (pos n)) _ _ _
        (allow-IsAnswered h pepper p n origin prefix l valid) b.counted;
}
