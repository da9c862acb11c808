-- ===== src/Ratelimit/Edge.antt =====
-- internal/ratelimit/edge.go: the limiter in front of the credential lookup. The map `items` is the
-- index of the list `lru` by key, and is read off the list. Limits and window are natural numbers;
-- `validate_edge` is the check of internal/platform/config/edge.go that the process starts with.
mod Buckets
pub mod Bounds
pub mod Windows
mod Examples
use go_webhook_delivery.Common.{
  ℕ, zero, suc, ◌+◌, ◌-◌, ◌*◌, ◌/◌, ◌%◌, Bool, true, false, not, ◌&&◌, ◌||◌, Option, none, some,
  List, [], ◌∷◌, ◌++◌, ltb, leb, ◌==◌, if◌then◌else◌, Bytes, bytes, bytes_eq, is_empty, length, ℤ,
  pos, eq_ℤ, ltb_ℤ, quot, ◌+ℤ◌, ◌-ℤ◌, ◌*ℤ◌,
}
use go_webhook_delivery.Golang.Time.{second, unix_seconds}
use go_webhook_delivery.Signing.{Hmac}

pub record EdgePolicy : Type 0 where
  pub max_in_flight : ℕ
  pub global : ℕ
  pub origin : ℕ
  pub prefix : ℕ
  pub max_buckets : ℕ
  pub window : ℕ

pub record EdgeBucket : Type 0 where
  pub key : Bytes
  pub window_start : ℤ
  pub count : ℕ

-- `lru` has the bucket used last in front.
pub record EdgeLimiter : Type 0 where
  pub global : EdgeBucket
  pub lru : List EdgeBucket

abbrev pub new_edge : EdgeLimiter
new_edge = record { global = record { key = []; window_start = pos 0; count = 0 }; lru = [] }

abbrev pub default_edge : EdgePolicy
default_edge = record {
  max_in_flight = 256;
  global = 60000;
  origin = 600;
  prefix = 300;
  max_buckets = 4096;
  window = 60 * second;
}

unfoldable pub validate_edge : EdgePolicy → Bool
validate_edge e = not (
    ltb e.max_in_flight 1
    || ltb 10000 e.max_in_flight
    || ltb e.global 1
    || ltb 1000000 e.global
    || ltb e.origin 1
    || ltb e.global e.origin
    || ltb e.prefix 1
    || ltb e.global e.prefix
    || ltb e.max_buckets 16
    || ltb 65536 e.max_buckets
    || ltb e.window second
    || ltb (3600 * second) e.window
    || not (e.window % second == 0))

unfoldable pub reset_bucket : EdgeBucket → ℤ → EdgeBucket
reset_bucket b window_start =
    if eq_ℤ b.window_start window_start
    then b
    else record b { window_start = window_start; count = 0 }

unfoldable pub bucket_available : EdgeBucket → ℤ → ℕ → Bool
unfolding reset_bucket
bucket_available b window_start limit = ltb (reset_bucket b window_start).count limit

unfoldable pub retry_seconds : ℤ → ℤ → ℤ → ℤ
retry_seconds now start window =
    let retry = (start +ℤ window) -ℤ unix_seconds now in
    if ltb_ℤ retry (pos 1) then pos 1 else retry

unfoldable pub window_seconds : EdgePolicy → ℕ
window_seconds p = p.window / second

unfoldable pub window_of : EdgePolicy → ℤ → ℤ
unfolding window_seconds
window_of p now = quot (unix_seconds now) (window_seconds p) *ℤ pos (window_seconds p)

-- The bucket of a key, taken out of the list.
unfoldable pub take_out : Bytes → List EdgeBucket → Option EdgeBucket × List EdgeBucket
take_out key [] = (none, [])
take_out key (b ∷ bs) =
    let rest = take_out key bs in if bytes_eq b.key key then (some b, bs) else (rest.0, b ∷ rest.1)

-- All but the last, which is the bucket used longest ago.
unfoldable pub without_oldest : List EdgeBucket → List EdgeBucket
without_oldest [] = []
without_oldest (b ∷ []) = []
without_oldest (b ∷ c ∷ bs) = b ∷ without_oldest (c ∷ bs)

unfoldable pub evict : EdgePolicy → List EdgeBucket → List EdgeBucket
unfolding without_oldest
evict p lru = if leb p.max_buckets (length lru) then without_oldest lru else lru

bucket_found :
    EdgePolicy
    → Bytes
    → ℤ
    → List EdgeBucket
    → Option EdgeBucket × List EdgeBucket
    → EdgeBucket × List EdgeBucket
unfolding evict reset_bucket
bucket_found p key window_start lru (some b, rest) = (reset_bucket b window_start, rest)
bucket_found p key window_start lru (none, rest) =
    (record { key = key; window_start = window_start; count = 0 }, evict p lru)

-- `bucket`: the front of the list, and what follows it.
unfoldable pub bucket : EdgePolicy → Bytes → ℤ → List EdgeBucket → EdgeBucket × List EdgeBucket
unfolding bucket_found take_out
bucket p key window_start lru = bucket_found p key window_start lru (take_out key lru)

-- `count++` through the pointer to a bucket; one that was evicted meanwhile is no longer seen.
unfoldable pub increment : Bytes → List EdgeBucket → List EdgeBucket
increment key [] = []
increment key (b ∷ bs) =
    let rest = increment key bs in
    if bytes_eq b.key key then record b { count = b.count + 1 } ∷ bs else b ∷ rest

unfoldable pub increment_all : List (Bytes × ℕ) → List EdgeBucket → List EdgeBucket
unfolding increment
increment_all [] lru = lru
increment_all ((key, limit) ∷ keys) lru = increment_all keys (increment key lru)

-- The loop over the keys: whether all are available, and the list afterwards.
unfoldable pub check_buckets :
    EdgePolicy → ℤ → List (Bytes × ℕ) → List EdgeBucket → Bool × List EdgeBucket
unfolding bucket bucket_available
check_buckets p window_start [] lru = (true, lru)
check_buckets p window_start ((key, limit) ∷ keys) lru =
    let b = bucket p key window_start lru in
    let rest = check_buckets p window_start keys (b.0 ∷ b.1) in
    if bucket_available b.0 window_start limit then rest else (false, b.0 ∷ b.1)

module _ (h : Hmac) (pepper : Bytes) where
  local_key : Bytes → Bytes → Bytes
  local_key kind value = h.mac pepper (bytes "edge-limit:v1\n" ++ (kind ++ (bytes "\n" ++ value)))

  unfoldable pub requested_buckets : EdgePolicy → Bytes → Bytes → List (Bytes × ℕ)
  unfolding local_key
  requested_buckets p origin prefix =
      (local_key (bytes "origin") origin, p.origin)
      ∷ (if is_empty prefix then [] else (local_key (bytes "prefix") prefix, p.prefix) ∷ [])

-- The end of `allow`, once the buckets are looked at.
counted :
    ℤ → ℤ → ℕ → List (Bytes × ℕ) → EdgeBucket → Bool × List EdgeBucket → EdgeLimiter × Bool × ℤ
unfolding retry_seconds increment_all
counted now window_start window keys global (false, lru) =
    (record { global = global; lru = lru }, false, retry_seconds now window_start (pos window))
counted now window_start window keys global (true, lru) = (
  record { global = record global { count = global.count + 1 }; lru = increment_all keys lru },
  true,
  pos 0,
)

-- `allow` with the keys already made: the limiter, the answer, and the seconds to wait.
unfoldable pub allow_keys : EdgePolicy → ℤ → List (Bytes × ℕ) → EdgeLimiter → EdgeLimiter × Bool × ℤ
unfolding counted window_of window_seconds check_buckets bucket_available reset_bucket retry_seconds
allow_keys p now keys l =
    let start = window_of p now in
    if bucket_available l.global start p.global
    then counted now start (window_seconds p) keys (reset_bucket l.global start)
        (check_buckets p start keys l.lru)
    else (
      record { global = reset_bucket l.global start; lru = l.lru },
      false,
      retry_seconds now start (pos (window_seconds p)),
    )

unfoldable pub allow :
    Hmac → Bytes → EdgePolicy → ℤ → Bytes → Bytes → EdgeLimiter → EdgeLimiter × Bool × ℤ
unfolding allow_keys requested_buckets
allow h pepper p now origin prefix l =
    allow_keys p now (requested_buckets h pepper p origin prefix) l
