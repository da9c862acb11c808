-- ===== src/Common/Int.antt =====
-- Signed integers over the native numbers, and Go's int64 arithmetic on them.
use Prim.Native.Nat.{ℕ, suc, ◌+◌, ◌-◌, ◌*◌, ◌/◌, ◌%◌, ◌≤◌, ◌<◌}
use mathlib.Core.Path.{◌≡◌}
use mathlib.Core.Bool.{Bool, true, not, ◌&&◌}
use mathlib.Core.Logic.{◌↔◌}
use native.Mathlib.Omega.{arith}
use go_webhook_delivery.Common.Tests.{ltb, leb, ◌==◌, if◌then◌else◌}

-- `negsuc n` is -(n + 1).
pub data ℤ : Type 0 where
  pos : ℕ → ℤ
  negsuc : ℕ → ℤ

abbrev pub pos_part : ℤ → ℕ
pos_part (pos n) = n
pos_part (negsuc n) = 0

abbrev pub neg_part : ℤ → ℕ
neg_part (pos n) = 0
neg_part (negsuc n) = suc n

-- a - b, as an integer.
abbrev pub sub_ℕ : ℕ → ℕ → ℤ
sub_ℕ a b = if leb b a then pos (a - b) else negsuc (b - a - 1)

infixl 65 ◌+ℤ◌ ◌-ℤ◌
infixl 70 ◌*ℤ◌
infix 50 ◌≤ℤ◌ ◌<ℤ◌
unfoldable pub ◌+ℤ◌ : ℤ → ℤ → ℤ
a +ℤ b = sub_ℕ (pos_part a + pos_part b) (neg_part a + neg_part b)

unfoldable pub ◌-ℤ◌ : ℤ → ℤ → ℤ
a -ℤ b = sub_ℕ (pos_part a + neg_part b) (neg_part a + pos_part b)

unfoldable pub ◌*ℤ◌ : ℤ → ℤ → ℤ
a *ℤ b =
    sub_ℕ (pos_part a * pos_part b + neg_part a * neg_part b)
      (pos_part a * neg_part b + neg_part a * pos_part b)

abbrev pub ◌≤ℤ◌ : ℤ → ℤ → Type 0
a ≤ℤ b = pos_part a + neg_part b ≤ pos_part b + neg_part a

abbrev pub ◌<ℤ◌ : ℤ → ℤ → Type 0
a <ℤ b = pos_part a + neg_part b < pos_part b + neg_part a

abbrev pub ltb_ℤ : ℤ → ℤ → Bool
ltb_ℤ a b = ltb (pos_part a + neg_part b) (pos_part b + neg_part a)

abbrev pub leb_ℤ : ℤ → ℤ → Bool
leb_ℤ a b = not (ltb_ℤ b a)

-- The range of int64.
abbrev pub InInt64 : ℤ → Type 0
InInt64 a = (pos_part a < 9223372036854775808) × (neg_part a ≤ 9223372036854775808)

-- The 64-bit two's complement pattern of an integer, and the int64 of a pattern.
unfoldable pub to_uint64 : ℤ → ℕ
to_uint64 (pos n) = n % 18446744073709551616
to_uint64 (negsuc n) = 18446744073709551615 - n % 18446744073709551616

unfoldable pub of_uint64 : ℕ → ℤ
of_uint64 m = if ltb m 9223372036854775808 then pos m else negsuc (18446744073709551615 - m)

-- An int64 result, wrapped.
unfoldable pub int64 : ℤ → ℤ
unfolding to_uint64 of_uint64
int64 a = of_uint64 (to_uint64 a)

pub to_uint64-lt : (a : ℤ) → to_uint64 a < 18446744073709551616
unfolding to_uint64
to_uint64-lt (pos n) = omega arith
to_uint64-lt (negsuc n) = omega arith

-- Two's complement loses nothing in range.
pub of_uint64-to_uint64 : (a : ℤ) → InInt64 a → of_uint64 (to_uint64 a) ≡ a
unfolding to_uint64 of_uint64
of_uint64-to_uint64 (pos n) h = ground arith
of_uint64-to_uint64 (negsuc n) h = ground arith

pub int64_id : (a : ℤ) → InInt64 a → int64 a ≡ a
unfolding int64
int64_id a h = of_uint64-to_uint64 a h

-- Go's `/` on int64 by a positive constant, which truncates towards zero.
unfoldable pub quot : ℤ → ℕ → ℤ
quot (pos n) d = pos (n / d)
quot (negsuc n) d = sub_ℕ 0 (suc n / d)

pub mul_pos : (a b : ℕ) → pos a *ℤ pos b ≡ pos (a * b)
unfolding ◌*ℤ◌
mul_pos a b = ground arith

pub add_pos : (a b : ℕ) → pos a +ℤ pos b ≡ pos (a + b)
unfolding ◌+ℤ◌
add_pos a b = ground arith

pub sub_pos : (a b : ℕ) → b ≤ a → pos a -ℤ pos b ≡ pos (a - b)
unfolding ◌-ℤ◌
sub_pos a b h = ground arith

pub pred_pos : (k : ℕ) → pos (suc k) -ℤ pos 1 ≡ pos k
unfolding ◌-ℤ◌
pred_pos k = ground arith

-- An int64 result that is not negative and in range is itself.
pub int64_pos : (n : ℕ) → n < 9223372036854775808 → int64 (pos n) ≡ pos n
int64_pos n h = int64_id (pos n) (omega arith)

pub pred_part : (n : ℕ) → pos_part (pos n -ℤ pos 1) ≡ n - 1
unfolding ◌-ℤ◌
pred_part n = ground arith

abbrev pub max_ℤ : ℤ → ℤ → ℤ
max_ℤ a b = if ltb_ℤ a b then b else a

abbrev pub min_ℤ : ℤ → ℤ → ℤ
min_ℤ a b = if ltb_ℤ b a then b else a

unfoldable pub eq_ℤ : ℤ → ℤ → Bool
eq_ℤ a b = (pos_part a == pos_part b) && (neg_part a == neg_part b)

pub eq_ℤ_iff : (a b : ℤ) → (eq_ℤ a b ≡ true) ↔ (a ≡ b)
unfolding eq_ℤ
eq_ℤ_iff a b = ground arith

-- The conversion of an int to int16, which keeps the low sixteen bits.
unfoldable pub int16 : ℤ → ℤ
unfolding to_uint64
int16 a = let m = to_uint64 a % 65536 in if ltb m 32768 then pos m else negsuc (65535 - m)
