-- ===== src/Golang/Netip.antt =====
-- `net/netip` and `net/url`, as far as they are used: an address is a number of 32 bits, or of 128 bits
-- with a zone.
use go_webhook_delivery.Common.{
  ℕ, ◌+◌, ◌-◌, ◌*◌, ◌/◌, ◌%◌, ◌^◌, Bool, true, false, not, ◌&&◌, ◌||◌, List, [], ◌∷◌, ◌==◌,
  if◌then◌else◌, Bytes, bytes_eq, is_empty, length,
}

-- `none` is the zero `Addr`.
pub data Addr : Type 0 where
  none : Addr
  v4 : ℕ → Addr
  v6 : ℕ → Bytes → Addr

abbrev pub is_valid : Addr → Bool
is_valid none = false
is_valid _ = true

abbrev pub is_4 : Addr → Bool
is_4 (v4 n) = true
is_4 _ = false

-- ::ffff:0:0/96.
unfoldable pub mapped : ℕ → Bool
mapped n = n / 4294967296 == 65535

abbrev pub is_4_in_6 : Addr → Bool
is_4_in_6 (v6 n zone) = mapped n
is_4_in_6 _ = false

abbrev pub zone_of : Addr → Bytes
zone_of (v6 n zone) = zone
zone_of _ = []

abbrev pub unmap : Addr → Addr
unmap (v6 n zone) = if mapped n then v4 (n % 4294967296) else v6 n zone
unmap a = a

-- The methods look at an IPv4 address that is mapped into IPv6 as at the IPv4 address.
unfoldable pub loopback : Addr → Bool
loopback (v4 n) = n / 16777216 == 127
loopback (v6 n zone) = n == 1
loopback none = false

unfoldable pub is_loopback : Addr → Bool
unfolding loopback
is_loopback a = loopback (unmap a)

unfoldable pub multicast : Addr → Bool
multicast (v4 n) = n / 268435456 == 14
multicast (v6 n zone) = n / 2 ^ 120 == 255
multicast none = false

unfoldable pub link_local : Addr → Bool
link_local (v4 n) = n / 65536 == 43518
link_local (v6 n zone) = n / 2 ^ 118 == 1018
link_local none = false

-- The unspecified address without a zone, or the broadcast address.
unfoldable pub unspecified : Addr → Bool
unspecified (v4 n) = n == 0 || n == 4294967295
unspecified (v6 n zone) = n == 0 && is_empty zone
unspecified none = true

unfoldable pub global_unicast : Addr → Bool
unfolding unspecified loopback multicast link_local
global_unicast a = not (unspecified a || loopback a || multicast a || link_local a)

unfoldable pub is_global_unicast : Addr → Bool
unfolding global_unicast
is_global_unicast a = global_unicast (unmap a)

-- A prefix of its family's addresses: their first `length` bits.
pub data Prefix : Type 0 where
  p4 : ℕ → ℕ → Prefix
  p6 : ℕ → ℕ → Prefix

-- `Contains`: an address with a zone is in no prefix.
unfoldable pub prefix_contains : Prefix → Addr → Bool
prefix_contains (p4 base bits) (v4 n) = n / 2 ^ (32 - bits) == base / 2 ^ (32 - bits)
prefix_contains (p6 base bits) (v6 n zone) =
    is_empty zone && n / 2 ^ (128 - bits) == base / 2 ^ (128 - bits)
prefix_contains _ _ = false

-- a.b.c.d.
abbrev pub ip4 : ℕ → ℕ → ℕ → ℕ → ℕ
ip4 a b c d = ((a * 256 + b) * 256 + c) * 256 + d

groups : ℕ → List ℕ → ℕ
groups acc [] = acc
groups acc (g ∷ gs) = groups (acc * 65536 + g) gs

-- The groups before and after `::`.
unfoldable pub ip6 : List ℕ → List ℕ → ℕ
unfolding groups
ip6 head tail = groups 0 head * 2 ^ (128 - 16 * length head) + groups 0 tail

-- `==` of addresses.
unfoldable pub addr_eq : Addr → Addr → Bool
addr_eq none none = true
addr_eq (v4 n) (v4 m) = n == m
addr_eq (v6 n z) (v6 m y) = n == m && bytes_eq z y
addr_eq _ _ = false
