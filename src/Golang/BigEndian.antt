-- ===== src/Golang/BigEndian.antt =====
-- `encoding/binary`'s big-endian words. What is put is got back.
use go_webhook_delivery.Common.{
  ℕ, ◌+◌, ◌*◌, ◌/◌, ◌%◌, ◌<◌, ◌≡◌, refl, [], ◌∷◌, arith, Bytes, length,
}

unfoldable pub put_uint32 : ℕ → Bytes
put_uint32 n = (n / 16777216 % 256) ∷ (n / 65536 % 256) ∷ (n / 256 % 256) ∷ (n % 256) ∷ []

unfoldable pub put_uint64 : ℕ → Bytes
put_uint64 n =
    (n / 72057594037927936 % 256)
    ∷ (n / 281474976710656 % 256)
    ∷ (n / 1099511627776 % 256)
    ∷ (n / 4294967296 % 256)
    ∷ (n / 16777216 % 256)
    ∷ (n / 65536 % 256)
    ∷ (n / 256 % 256)
    ∷ (n % 256)
    ∷ []

-- The number that the bytes spell, the first the most significant.
unfoldable pub from_be : ℕ → Bytes → ℕ
from_be acc [] = acc
from_be acc (b ∷ bs) = from_be (acc * 256 + b) bs

pub length-put_uint32 : (n : ℕ) → length (put_uint32 n) ≡ 4
unfolding put_uint32
length-put_uint32 n = refl

pub length-put_uint64 : (n : ℕ) → length (put_uint64 n) ≡ 8
unfolding put_uint64
length-put_uint64 n = refl

pub from_be-put_uint32 : (n : ℕ) → n < 4294967296 → from_be 0 (put_uint32 n) ≡ n
unfolding from_be put_uint32
from_be-put_uint32 n h = omega arith

pub from_be-put_uint64 : (n : ℕ) → n < 18446744073709551616 → from_be 0 (put_uint64 n) ≡ n
unfolding from_be put_uint64
from_be-put_uint64 n h = omega arith
