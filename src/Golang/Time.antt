-- ===== src/Golang/Time.antt =====
-- `time`: a time is its number of nanoseconds since the epoch.
use go_webhook_delivery.Common.{
  ℕ, ◌/◌, if◌then◌else◌, ℤ, pos, negsuc, ◌+ℤ◌, ◌-ℤ◌, ◌*ℤ◌, int64, ltb_ℤ,
}

abbrev pub second : ℕ
second = 1000000000

-- The seconds from the year 1 to the epoch.
abbrev pub to_internal : ℕ
to_internal = 62135596800

-- `time.Unix(seconds, 0)`: the seconds since the year 1 are an int64.
unfoldable pub unix_time : ℤ → ℤ
unix_time seconds = (int64 (seconds +ℤ pos to_internal) -ℤ pos to_internal) *ℤ pos second

-- `t.Sub(u)`, which saturates at the ends of int64.
unfoldable pub time_sub : ℤ → ℤ → ℤ
time_sub t u =
    let d = t -ℤ u in
    if ltb_ℤ d (negsuc 9223372036854775807)
    then negsuc 9223372036854775807
    else if ltb_ℤ (pos 9223372036854775807) d
    then pos 9223372036854775807
    else d

-- `t.Unix()`: the whole seconds, rounded down.
unfoldable pub unix_seconds : ℤ → ℤ
unix_seconds (pos n) = pos (n / second)
unix_seconds (negsuc n) = negsuc (n / second)

-- The zero `time.Time`, the start of the year 1.
abbrev pub zero_time : ℤ
zero_time = negsuc 62135596799999999999
