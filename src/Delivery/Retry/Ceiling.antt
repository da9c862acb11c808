-- ===== src/Delivery/Retry/Ceiling.antt =====
-- The doubling loop, against a closed form.
use native.Mathlib.Nat.{pow-suc}
use go_webhook_delivery.Common.{
  ℕ, zero, suc, ◌*◌, ◌^◌, ◌/◌, ◌≤◌, ◌<◌, min, ap, ◌≡◌, arith, ltb, if◌then◌else◌, Bool-cases, inl,
  inr, pos, ◌*ℤ◌, int64, int64_pos, mul_pos, pred_part, ℤ, negsuc, pos_part, InInt64, ◌-ℤ◌, ◌<ℤ◌,
  ◌≤ℤ◌, ◌-◌, quot,
}
use go_webhook_delivery.Delivery.Retry.{grow, backoff_ceiling, at_most}

-- Below half of the cap a doubling stays in int64.
double_exact : (x : ℕ) → x * 2 < 9223372036854775808 → int64 (pos x *ℤ pos 2) ≡ pos (x * 2)
double_exact x h = rw (mul_pos x 2) (int64_pos (x * 2) h)

pow-suc_2 : (n : ℕ) → 2 ^ suc n ≡ 2 * 2 ^ n
pow-suc_2 n = omega (arith, pow-suc 2 n)

pub le-mul-pow : (x n : ℕ) → x ≤ x * 2 ^ n
le-mul-pow x zero = omega arith
le-mul-pow x (suc n) = omega (arith, le-mul-pow x n, ap (λ (t : ℕ). x * t) (pow-suc_2 n))

mul-pow-suc : (x n : ℕ) → x * 2 ^ suc n ≡ x * 2 * 2 ^ n
mul-pow-suc x n = omega (arith, ap (λ (t : ℕ). x * t) (pow-suc_2 n))

-- One round: past half of the cap the loop ends there, else it goes on from the double.
grow_round :
    (n c x : ℕ)
    → c < 9223372036854775808
    → grow (suc n) (pos c) (pos x)
      ≡ (if ltb x c then (if ltb (c / 2) x then pos c else grow n (pos c) (pos (x * 2))) else pos x)
unfolding grow quot
grow_round n c x hc = elim (Bool-cases (ltb (c / 2) x)) [
  | inl over ↦ ground arith
  | inr under ↦ rw (double_exact x (ground arith)) (ground arith)
]

grow-eq-min :
    (n c x : ℕ)
    → 0 < x
    → c < 9223372036854775808
    → at_most (pos c) (grow n (pos c) (pos x)) ≡ pos (min c (x * 2 ^ n))
grow-eq-min zero c x hx hc = unfold grow in ground arith
grow-eq-min (suc n) c x hx hc = rw (grow_round n c x hc) (
    ground (
      arith,
      grow-eq-min n c (x * 2) (omega arith) hc,
      mul-pow-suc x n,
      le-mul-pow (x * 2) n,
      le-mul-pow x (suc n),
    ))

-- The ceiling at attempt n is the base doubled n - 1 times, or the cap if that is less.
pub backoff_ceiling_lem :
    (b c n : ℕ)
    → 0 < b
    → c < 9223372036854775808
    → backoff_ceiling (pos b) (pos c) (pos n) ≡ pos (min c (b * 2 ^ (n - 1)))
unfolding backoff_ceiling
backoff_ceiling_lem b c n hb hc = rw (pred_part n) (grow-eq-min (n - 1) c b hb hc)

-- At any attempt the ceiling lies between 0 and the cap.
pub backoff_ceiling_bounds :
    (base cap attempt : ℤ)
    → pos 0 <ℤ base
    → pos 0 <ℤ cap
    → InInt64 cap
    → (pos 0 ≤ℤ backoff_ceiling base cap attempt) × (backoff_ceiling base cap attempt ≤ℤ cap)
unfolding backoff_ceiling
backoff_ceiling_bounds (pos b) (pos c) a hb hc h =
    rw (grow-eq-min (pos_part (a -ℤ pos 1)) c b (omega arith) (omega arith)) (omega arith)
backoff_ceiling_bounds (pos b) (negsuc c) a hb hc h = absurd (omega arith)
backoff_ceiling_bounds (negsuc b) c a hb hc h = absurd (omega arith)
