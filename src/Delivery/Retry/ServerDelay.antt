-- ===== src/Delivery/Retry/ServerDelay.antt =====
-- `retryAfter`: what is taken from the Retry-After header.
use go_webhook_delivery.Common.{
  ℕ, ◌*◌, ◌/◌, ◌<◌, ◌≡◌, refl, ◌⊎◌, inl, inr, Option, none, some, [], false, ◌∷◌, arith, Bytes, All,
  ℤ, pos, negsuc, ◌≤ℤ◌, ◌<ℤ◌, ◌-ℤ◌, InInt64, mul_pos, int64_pos, quot, Bool-cases, is_empty, ltb,
  leb, if◌then◌else◌, ◌&&◌,
}
use go_webhook_delivery.Golang.Decimal.{format_int, format_nat, parse_int, int32_bound}
use go_webhook_delivery.Golang.Decimal.RoundTrip.{format_nat_shape, parse_int-format_pos, IsDigit}
use go_webhook_delivery.Golang.Strings.{trim_space}
use go_webhook_delivery.Golang.Strings.Trimmed.{IsVisible, trim_space-visible}
use go_webhook_delivery.Delivery.Retry.{
  second, retry_after, retry_after_value, after_seconds, after_date,
}

-- Nothing, or a positive delay that does not pass the cap.
abbrev pub IsHonoured : ℤ → ℤ → Type 0
IsHonoured cap d = (d ≡ pos 0) ⊎ ((pos 0 <ℤ d) × (d ≤ℤ cap))

after_seconds_pos :
    (c n : ℕ)
    → c < 9223372036854775808
    → after_seconds (pos c) (pos n)
      ≡ (if ltb 0 n && leb (n * second) c then pos (n * second) else pos 0)
unfolding after_seconds quot
after_seconds_pos c n h = elim (Bool-cases (ltb (c / second) n)) [
  | inl over ↦ ground arith
  | inr under ↦ rw (mul_pos n second, int64_pos (n * second) (ground arith)) (ground arith)
]

after_seconds-IsHonoured :
    (cap seconds : ℤ) → InInt64 cap → IsHonoured cap (after_seconds cap seconds)
after_seconds-IsHonoured (pos c) (pos n) h = rw (after_seconds_pos c n h.0) (ground arith)
after_seconds-IsHonoured (pos c) (negsuc n) h = unfold after_seconds in inl (ground arith)
after_seconds-IsHonoured (negsuc c) n h = unfold after_seconds in inl (ground arith)

sub_positive : (t u : ℤ) → u <ℤ t → pos 0 <ℤ (t -ℤ u)
unfolding ◌-ℤ◌
sub_positive t u h = ground arith

after_date-IsHonoured : (cap now : ℤ) (when : Option ℤ) → IsHonoured cap (after_date cap now when)
unfolding after_date
after_date-IsHonoured cap now none = inl refl
after_date-IsHonoured cap now (some when) = ground (arith, sub_positive when now)

retry_after_value-IsHonoured :
    (parse_time : Bytes → Option ℤ) (value : Bytes) (now cap : ℤ) (seconds : Option ℤ)
    → InInt64 cap
    → IsHonoured cap (retry_after_value parse_time value now cap seconds)
unfolding retry_after_value
retry_after_value-IsHonoured parse_time value now cap none h =
    after_date-IsHonoured cap now (parse_time value)
retry_after_value-IsHonoured parse_time value now cap (some s) h = after_seconds-IsHonoured cap s h

-- Whatever the header holds, the delay read from it is 0, or positive and at most the cap.
pub retry_after-IsHonoured :
    (parse_time : Bytes → Option ℤ) (raw : Bytes) (now cap : ℤ)
    → InInt64 cap
    → IsHonoured cap (retry_after parse_time raw now cap)
unfolding retry_after
retry_after-IsHonoured parse_time raw now cap h = elim (Bool-cases (is_empty (trim_space raw))) [
  | inl e ↦ rw e (inl refl)
  | inr e ↦ rw e (
      retry_after_value-IsHonoured parse_time (trim_space raw) now cap
        (parse_int int32_bound (trim_space raw)) h)
]

digits-IsVisible : (s : Bytes) → All IsDigit s → All IsVisible s
digits-IsVisible [] h = tt
digits-IsVisible (c ∷ s) h = (omega arith, digits-IsVisible s h.1)

format_nat-IsVisible : (n : ℕ) → (All IsVisible (format_nat n)) × (is_empty (format_nat n) ≡ false)
format_nat-IsVisible n =
    let (d, ds, e, hd, hds) = format_nat_shape n in rw e (digits-IsVisible (d ∷ ds) (hd, hds), refl)

-- A header that holds a number of seconds, as `strconv.Itoa` prints it, in the range of int32, is
-- honoured to the nanosecond exactly if it is positive and does not pass the cap, and is else
-- ignored.
pub retry_after-format_int :
    (parse_time : Bytes → Option ℤ) (n c : ℕ) (now : ℤ)
    → n < int32_bound
    → c < 9223372036854775808
    → retry_after parse_time (format_int (pos n)) now (pos c)
      ≡ (if ltb 0 n && leb (n * second) c then pos (n * second) else pos 0)
unfolding retry_after format_int
retry_after-format_int parse_time n c now hn hc =
    let (visible, nonempty) = format_nat-IsVisible n in
    rw (trim_space-visible (format_nat n) visible, nonempty, parse_int-format_pos int32_bound n hn)
      (unfold retry_after_value in after_seconds_pos c n hc)
