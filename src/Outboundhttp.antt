-- ===== src/Outboundhttp.antt =====
-- internal/outboundhttp: the destinations that the program may reach. The profile is that of
-- internal/platform/config/config.go; below, the address policy, the dialer and the parser.
pub mod Policy
pub mod Dialer
pub mod Destination
pub mod Examples
use go_webhook_delivery.Common.{
  ℕ, Bool, true, false, ◌&&◌, ◌||◌, [], ◌∷◌, ◌++◌, ◌==◌, if◌then◌else◌, Bytes, bytes, bytes_eq, ℤ,
  pos, eq_ℤ,
}
use go_webhook_delivery.Golang.Decimal.{format_int}

-- `config.Profile`.
pub data Profile : Type 0 where
  local test production : Profile

abbrev pub is_production : Profile → Bool
is_production production = true
is_production _ = false

unfoldable pub contains_byte : ℕ → Bytes → Bool
contains_byte b [] = false
contains_byte b (c ∷ cs) = c == b || contains_byte b cs

-- `net.JoinHostPort`: a host with a colon or a percent sign is put in brackets.
unfoldable pub join_host_port : Bytes → Bytes → Bytes
unfolding contains_byte
join_host_port host port =
    if contains_byte b':' host || contains_byte b'%' host
    then bytes "[" ++ (host ++ (bytes "]:" ++ port))
    else host ++ (bytes ":" ++ port)

-- `Authority`. `is_ipv6` tells whether a host is the literal of an IPv6 address.
unfoldable pub authority : (Bytes → Bool) → Bytes → ℤ → Bytes → Bytes
unfolding join_host_port
authority is_ipv6 host port scheme =
    if bytes_eq scheme (bytes "https") && eq_ℤ port (pos 443)
      || bytes_eq scheme (bytes "http") && eq_ℤ port (pos 80)
    then (if is_ipv6 host then bytes "[" ++ (host ++ bytes "]") else host)
    else join_host_port host (format_int port)
