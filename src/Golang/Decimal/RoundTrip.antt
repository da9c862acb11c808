-- ===== src/Golang/Decimal/RoundTrip.antt =====
-- What is printed is read back.
use go_webhook_delivery.Common.{
  ℕ, zero, suc, ◌+◌, ◌/◌, ◌%◌, ◌≤◌, ◌<◌, ◌≡◌, refl, inl, inr, some, [], ◌∷◌, arith, ltb, Bytes, All,
  Bool-cases, ◌∙◌, ℤ, pos, negsuc, InInt64,
}
use go_webhook_delivery.Golang.Decimal.{
  digits_acc, format_nat, format_int, parse_digits, parse_nat, parse_int, in_range_pos, int64_bound,
}

abbrev pub IsDigit : ℕ → Type 0
IsDigit c = (48 ≤ c) × (c ≤ 57)

parse_digits-digits_acc :
    (f n : ℕ) (acc : Bytes) → n < f → parse_digits 0 (digits_acc f n acc) ≡ parse_digits n acc
unfolding parse_digits digits_acc
parse_digits-digits_acc zero n acc h = elim h [ ]
parse_digits-digits_acc (suc f) n acc h = elim (Bool-cases (ltb n 10)) [
  | inl small ↦ rw small (ground arith)
  | inr large ↦
      rw (large, parse_digits-digits_acc f (n / 10) ((48 + n % 10) ∷ acc) (ground arith))
        (ground arith)
]

-- Only digits are printed, at least one.
digits_acc_shape :
    (f n : ℕ) (acc : Bytes)
    → n < f
    → All IsDigit acc
    → (d : ℕ) × (ds : Bytes) × (digits_acc f n acc ≡ d ∷ ds) × IsDigit d × All IsDigit ds
unfolding digits_acc
digits_acc_shape zero n acc h a = elim h [ ]
digits_acc_shape (suc f) n acc h a = elim (Bool-cases (ltb n 10)) [
  | inl small ↦ rw small (48 + n, acc, refl, ground arith, a)
  | inr large ↦
      rw large (digits_acc_shape f (n / 10) ((48 + n % 10) ∷ acc) (ground arith) ((omega arith), a))
]

pub format_nat_shape :
    (n : ℕ) → (d : ℕ) × (ds : Bytes) × (format_nat n ≡ d ∷ ds) × IsDigit d × All IsDigit ds
unfolding format_nat
format_nat_shape n = digits_acc_shape (suc n) n [] (omega arith) tt

parse_nat-cons : (s : Bytes) {d : ℕ} {ds : Bytes} → s ≡ d ∷ ds → parse_nat s ≡ parse_digits 0 s
unfolding parse_nat
parse_nat-cons [] e = cc
parse_nat-cons (x ∷ xs) e = refl

parse_nat-format_nat : (n : ℕ) → parse_nat (format_nat n) ≡ some n
parse_nat-format_nat n =
    let (d, ds, e, _, _) = format_nat_shape n in parse_nat-cons (format_nat n) e ∙ printed n
  where
    printed : (n : ℕ) → parse_digits 0 (format_nat n) ≡ some n
    printed n = unfold format_nat parse_digits in parse_digits-digits_acc (suc n) n [] (omega arith)

-- A text that begins with a digit has no sign.
parse_int-digit :
    (bound : ℕ) (s : Bytes) {d : ℕ} {ds : Bytes}
    → s ≡ d ∷ ds
    → IsDigit d
    → parse_int bound s ≡ in_range_pos bound (parse_nat s)
unfolding parse_int
parse_int-digit bound [] e h = cc
parse_int-digit bound (x ∷ xs) e h = ground arith

pub parse_int-format_pos :
    (bound n : ℕ) → n < bound → parse_int bound (format_int (pos n)) ≡ some (pos n)
unfolding format_int
parse_int-format_pos bound n h =
    let (d, ds, e, hd, _) = format_nat_shape n in
    parse_int-digit bound (format_nat n) e hd
    ∙ rw (parse_nat-format_nat n) (unfold in_range_pos in ground arith)

pub parse_int-format_neg :
    (bound n : ℕ) → n < bound → parse_int bound (format_int (negsuc n)) ≡ some (negsuc n)
unfolding format_int parse_int
parse_int-format_neg bound n h = rw (parse_nat-format_nat (suc n)) (ground arith)

pub parse_int64-format_int : (a : ℤ) → InInt64 a → parse_int int64_bound (format_int a) ≡ some a
parse_int64-format_int (pos n) h = parse_int-format_pos int64_bound n h.0
parse_int64-format_int (negsuc n) h = parse_int-format_neg int64_bound n (omega arith)
