-- ===== src/Golang/Decimal.antt =====
-- `strconv`: integers in base ten. A text is accepted by `ParseInt` when it has an optional sign,
-- at least one digit, nothing else, and a value in the range of the bit size.
pub mod RoundTrip
use go_webhook_delivery.Common.{
  ℕ, zero, suc, ◌+◌, ◌-◌, ◌*◌, ◌/◌, ◌%◌, Bool, ◌&&◌, Option, none, some, [], ◌∷◌, ltb, leb, ◌==◌,
  if◌then◌else◌, Bytes, is_empty, ℤ, pos, negsuc, sub_ℕ,
}

abbrev pub is_digit : ℕ → Bool
is_digit c = leb b'0' c && leb c b'9'

digits_acc : ℕ → ℕ → Bytes → Bytes
digits_acc zero n acc = acc
digits_acc (suc f) n acc =
    let rest = digits_acc f (n / 10) ((48 + n % 10) ∷ acc) in
    if ltb n 10 then (48 + n) ∷ acc else rest

pub format_nat : ℕ → Bytes
unfolding digits_acc
format_nat n = digits_acc (suc n) n []

-- `strconv.Itoa` and `strconv.FormatInt(·, 10)`.
unfoldable pub format_int : ℤ → Bytes
unfolding format_nat
format_int (pos n) = format_nat n
format_int (negsuc n) = b'-' ∷ format_nat (suc n)

parse_digits : ℕ → Bytes → Option ℕ
parse_digits acc [] = some acc
parse_digits acc (c ∷ cs) =
    let rest = parse_digits (acc * 10 + (c - 48)) cs in if is_digit c then rest else none

parse_nat : Bytes → Option ℕ
unfolding parse_digits
parse_nat s = if is_empty s then none else parse_digits 0 s

-- A positive value stays below the bound, a negative one reaches it.
in_range_pos : ℕ → Option ℕ → Option ℤ
in_range_pos bound none = none
in_range_pos bound (some n) = if ltb n bound then some (pos n) else none

in_range_neg : ℕ → Option ℕ → Option ℤ
in_range_neg bound none = none
in_range_neg bound (some n) = if leb n bound then some (sub_ℕ 0 n) else none

-- `strconv.ParseInt(s, 10, bits)`, with `bound` the power 2 ^ (bits - 1).
unfoldable pub parse_int : ℕ → Bytes → Option ℤ
unfolding parse_nat in_range_pos in_range_neg
parse_int bound [] = none
parse_int bound (c ∷ cs) =
    if c == b'-'
    then in_range_neg bound (parse_nat cs)
    else if c == b'+'
    then in_range_pos bound (parse_nat cs)
    else in_range_pos bound (parse_nat (c ∷ cs))

abbrev pub int32_bound : ℕ
int32_bound = 2147483648

abbrev pub int64_bound : ℕ
int64_bound = 9223372036854775808

-- `strconv.Atoi`, on a platform where int has 64 bits.
abbrev pub atoi : Bytes → Option ℤ
atoi = parse_int int64_bound
