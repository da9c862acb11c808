-- ===== src/Ratelimit/Edge/Buckets.antt =====
-- The list of buckets keeps its bound.
use go_webhook_delivery.Common.{
  ℕ, suc, ◌≤◌, ◌<◌, ◌≡◌, refl, arith, Option, none, some, List, [], ◌∷◌, Bytes, bytes_eq, length,
  if◌then◌else◌, leb, Bool-cases, inl, inr, ℤ,
}
use go_webhook_delivery.Ratelimit.Edge.{
  EdgePolicy, EdgeBucket, take_out, without_oldest, evict, bucket_found, bucket, increment,
  increment_all, check_buckets,
}

-- One bucket fewer is left where the key was found.
abbrev TakenFrom : ℕ → Option EdgeBucket × List EdgeBucket → Type 0
TakenFrom n (none, rest) = length rest ≡ n
TakenFrom n (some b, rest) = suc (length rest) ≡ n

TakenFrom-cons :
    (n : ℕ) (b : EdgeBucket) (r : Option EdgeBucket × List EdgeBucket)
    → TakenFrom n r
    → TakenFrom (suc n) (r.0, b ∷ r.1)
TakenFrom-cons n b (none, rest) h = omega arith
TakenFrom-cons n b (some c, rest) h = omega arith

take_out-TakenFrom :
    (key : Bytes) (lru : List EdgeBucket) → TakenFrom (length lru) (take_out key lru)
unfolding take_out
take_out-TakenFrom key [] = refl
take_out-TakenFrom key (b ∷ bs) = elim (Bool-cases (bytes_eq b.key key)) [
  | inl e ↦ rw e refl
  | inr e ↦ rw e (TakenFrom-cons (length bs) b (take_out key bs) (take_out-TakenFrom key bs))
]

length-without_oldest :
    (lru : List EdgeBucket)
    → suc (length (without_oldest lru)) ≡ (if leb 1 (length lru) then length lru else 1)
unfolding without_oldest
length-without_oldest [] = refl
length-without_oldest (b ∷ []) = refl
length-without_oldest (b ∷ c ∷ bs) = ground (arith, length-without_oldest (c ∷ bs))

module _ (p : EdgePolicy) (some_room : 0 < p.max_buckets) where
  bucket_found-length :
      (key : Bytes) (start : ℤ) (lru : List EdgeBucket) (r : Option EdgeBucket × List EdgeBucket)
      → TakenFrom (length lru) r
      → length lru ≤ p.max_buckets
      → suc (length (bucket_found p key start lru r).1) ≤ p.max_buckets
  unfolding bucket_found evict
  bucket_found-length key start lru (some b, rest) h fits = omega arith
  bucket_found-length key start lru (none, rest) h fits = ground (arith, length-without_oldest lru)

  length-bucket :
      (key : Bytes) (start : ℤ) (lru : List EdgeBucket)
      → length lru ≤ p.max_buckets
      → suc (length (bucket p key start lru).1) ≤ p.max_buckets
  unfolding bucket
  length-bucket key start lru fits =
      bucket_found-length key start lru (take_out key lru) (take_out-TakenFrom key lru) fits

  pub check_buckets-fits :
      (start : ℤ) (keys : List (Bytes × ℕ)) (lru : List EdgeBucket)
      → length lru ≤ p.max_buckets
      → length (check_buckets p start keys lru).1 ≤ p.max_buckets
  unfolding check_buckets
  check_buckets-fits start [] lru fits = fits
  check_buckets-fits start ((key, limit) ∷ keys) lru fits = ground (
    arith,
    length-bucket key start lru fits,
    check_buckets-fits start keys ((bucket p key start lru).0 ∷ (bucket p key start lru).1)
        (length-bucket key start lru fits),
  )

length-increment : (key : Bytes) (lru : List EdgeBucket) → length (increment key lru) ≡ length lru
unfolding increment
length-increment key [] = refl
length-increment key (b ∷ bs) = ground (arith, length-increment key bs)

pub length-increment_all :
    (keys : List (Bytes × ℕ)) (lru : List EdgeBucket) → length (increment_all keys lru) ≡ length lru
unfolding increment_all
length-increment_all [] lru = refl
length-increment_all ((key, limit) ∷ keys) lru =
    omega (arith, length-increment_all keys (increment key lru), length-increment key lru)
