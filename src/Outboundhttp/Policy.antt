-- ===== src/Outboundhttp/Policy.antt =====
-- internal/outboundhttp/policy.go: which addresses may be dialled. `parse_addr` and the resolver are
-- arguments.
pub mod Public
pub mod Resolved
use go_webhook_delivery.Common.{
  Bool, true, false, not, ◌&&◌, ◌||◌, Option, none, some, List, [], ◌∷◌, if◌then◌else◌, Bytes,
  is_empty, Result, ok, err,
}
use go_webhook_delivery.Golang.Netip
use go_webhook_delivery.Golang.Netip.{
  Addr, Prefix, p4, p6, ip4, ip6, prefix_contains, is_valid, is_4, is_4_in_6, zone_of, unmap,
  is_loopback, is_global_unicast, addr_eq,
}
use go_webhook_delivery.Outboundhttp.{Profile, is_production}

unfoldable pub contains : List Prefix → Addr → Bool
contains [] a = false
contains (p ∷ ps) a = prefix_contains p a || contains ps a

unfoldable pub allocated_ipv6 : List Prefix
unfolding ip6
allocated_ipv6 =
    p6 (ip6 (0x2001 ∷ []) []) 23
    ∷ p6 (ip6 (0x2001 ∷ 0x200 ∷ []) []) 23
    ∷ p6 (ip6 (0x2001 ∷ 0x400 ∷ []) []) 23
    ∷ p6 (ip6 (0x2001 ∷ 0x600 ∷ []) []) 23
    ∷ p6 (ip6 (0x2001 ∷ 0x800 ∷ []) []) 22
    ∷ p6 (ip6 (0x2001 ∷ 0xc00 ∷ []) []) 23
    ∷ p6 (ip6 (0x2001 ∷ 0xe00 ∷ []) []) 23
    ∷ p6 (ip6 (0x2001 ∷ 0x1200 ∷ []) []) 23
    ∷ p6 (ip6 (0x2001 ∷ 0x1400 ∷ []) []) 22
    ∷ p6 (ip6 (0x2001 ∷ 0x1800 ∷ []) []) 23
    ∷ p6 (ip6 (0x2001 ∷ 0x1a00 ∷ []) []) 23
    ∷ p6 (ip6 (0x2001 ∷ 0x1c00 ∷ []) []) 22
    ∷ p6 (ip6 (0x2001 ∷ 0x2000 ∷ []) []) 19
    ∷ p6 (ip6 (0x2001 ∷ 0x4000 ∷ []) []) 23
    ∷ p6 (ip6 (0x2001 ∷ 0x4200 ∷ []) []) 23
    ∷ p6 (ip6 (0x2001 ∷ 0x4400 ∷ []) []) 23
    ∷ p6 (ip6 (0x2001 ∷ 0x4600 ∷ []) []) 23
    ∷ p6 (ip6 (0x2001 ∷ 0x4800 ∷ []) []) 23
    ∷ p6 (ip6 (0x2001 ∷ 0x4a00 ∷ []) []) 23
    ∷ p6 (ip6 (0x2001 ∷ 0x4c00 ∷ []) []) 23
    ∷ p6 (ip6 (0x2001 ∷ 0x5000 ∷ []) []) 20
    ∷ p6 (ip6 (0x2001 ∷ 0x8000 ∷ []) []) 19
    ∷ p6 (ip6 (0x2001 ∷ 0xa000 ∷ []) []) 20
    ∷ p6 (ip6 (0x2001 ∷ 0xb000 ∷ []) []) 20
    ∷ p6 (ip6 (0x2002 ∷ []) []) 16
    ∷ p6 (ip6 (0x2003 ∷ []) []) 18
    ∷ p6 (ip6 (0x2400 ∷ []) []) 12
    ∷ p6 (ip6 (0x2410 ∷ []) []) 12
    ∷ p6 (ip6 (0x2600 ∷ []) []) 12
    ∷ p6 (ip6 (0x2610 ∷ []) []) 23
    ∷ p6 (ip6 (0x2620 ∷ []) []) 23
    ∷ p6 (ip6 (0x2630 ∷ []) []) 12
    ∷ p6 (ip6 (0x2800 ∷ []) []) 12
    ∷ p6 (ip6 (0x2a00 ∷ []) []) 12
    ∷ p6 (ip6 (0x2a10 ∷ []) []) 12
    ∷ p6 (ip6 (0x2c00 ∷ []) []) 12
    ∷ []

unfoldable pub global_special_ipv4 : List Prefix
global_special_ipv4 = p4 (ip4 192 0 0 9) 32 ∷ p4 (ip4 192 0 0 10) 32 ∷ []

unfoldable pub global_special_ipv6 : List Prefix
unfolding ip6
global_special_ipv6 =
    p6 (ip6 (0x2001 ∷ 1 ∷ []) (1 ∷ [])) 128
    ∷ p6 (ip6 (0x2001 ∷ 1 ∷ []) (2 ∷ [])) 128
    ∷ p6 (ip6 (0x2001 ∷ 1 ∷ []) (3 ∷ [])) 128
    ∷ p6 (ip6 (0x2001 ∷ 3 ∷ []) []) 32
    ∷ p6 (ip6 (0x2001 ∷ 4 ∷ 0x112 ∷ []) []) 48
    ∷ p6 (ip6 (0x2001 ∷ 0x20 ∷ []) []) 28
    ∷ p6 (ip6 (0x2001 ∷ 0x30 ∷ []) []) 28
    ∷ []

unfoldable pub non_global_ipv4 : List Prefix
non_global_ipv4 =
    p4 (ip4 0 0 0 0) 8
    ∷ p4 (ip4 100 64 0 0) 10
    ∷ p4 (ip4 192 0 0 0) 24
    ∷ p4 (ip4 192 0 2 0) 24
    ∷ p4 (ip4 10 0 0 0) 8
    ∷ p4 (ip4 127 0 0 0) 8
    ∷ p4 (ip4 169 254 0 0) 16
    ∷ p4 (ip4 172 16 0 0) 12
    ∷ p4 (ip4 192 88 99 0) 24
    ∷ p4 (ip4 192 168 0 0) 16
    ∷ p4 (ip4 198 18 0 0) 15
    ∷ p4 (ip4 198 51 100 0) 24
    ∷ p4 (ip4 203 0 113 0) 24
    ∷ p4 (ip4 224 0 0 0) 4
    ∷ p4 (ip4 240 0 0 0) 4
    ∷ []

unfoldable pub non_global_ipv6 : List Prefix
unfolding ip6
non_global_ipv6 =
    p6 (ip6 (0x2001 ∷ []) []) 23
    ∷ p6 (ip6 (0x2001 ∷ 0xdb8 ∷ []) []) 32
    ∷ p6 (ip6 (0x2002 ∷ []) []) 16
    ∷ p6 (ip6 (0x3fff ∷ []) []) 20
    ∷ []

-- The rest of `allowed`, for an address that is valid and not mapped.
unfoldable pub allowed_unmapped : Profile → Addr → Bool
allowed_unmapped profile a =
    if is_loopback a
    then not (is_production profile)
    else if is_4 a
    then is_global_unicast a && (contains global_special_ipv4 a || not (contains non_global_ipv4 a))
    else contains allocated_ipv6 a
      && (contains global_special_ipv6 a || not (contains non_global_ipv6 a))

unfoldable pub allowed : Profile → Addr → Bool
allowed profile a =
    if is_4_in_6 a
    then false
    else if not (is_valid (unmap a))
    then false
    else allowed_unmapped profile (unmap a)

pub data PolicyError : Type 0 where
  rejected : PolicyError

unfoldable pub was_seen : Addr → List Addr → Bool
was_seen a [] = false
was_seen a (b ∷ bs) = addr_eq b a || was_seen a bs

unfoldable pub add_seen : Bool → Addr → List Addr → List Addr
add_seen true a seen = seen
add_seen false a seen = a ∷ seen

-- What the loop adds in front of the rest's result.
unfoldable pub keep : Bool → Addr → Result PolicyError (List Addr) → Result PolicyError (List Addr)
keep seen a (err e) = err e
keep true a (ok rest) = ok rest
keep false a (ok rest) = ok (a ∷ rest)

-- The loop over the resolver's answer, with the addresses seen so far.
unfoldable pub resolve_all : Profile → List Addr → List Addr → Result PolicyError (List Addr)
unfolding was_seen keep add_seen
resolve_all profile seen [] = ok []
resolve_all profile seen (a ∷ more) =
    let rest = resolve_all profile (add_seen (was_seen (unmap a) seen) (unmap a) seen) more in
    if not (is_valid a) || not (is_empty (zone_of a)) || is_4_in_6 a
    then err rejected
    else if not (allowed profile (unmap a))
    then err rejected
    else keep (was_seen (unmap a) seen) (unmap a) rest

unfoldable pub resolved : Profile → Option (List Addr) → Result PolicyError (List Addr)
unfolding resolve_all
resolved profile none = err rejected
resolved profile (some []) = err rejected
resolved profile (some (a ∷ more)) = resolve_all profile [] (a ∷ more)

unfoldable pub literal_or :
    Profile → Option Addr → Result PolicyError (List Addr) → Result PolicyError (List Addr)
literal_or profile none answer = answer
literal_or profile (some a) answer =
    if not (allowed profile a) then err rejected else ok (unmap a ∷ [])

-- `Resolve`. `lookup` is the resolver's answer, `none` for an error.
unfoldable pub resolve :
    (Bytes → Option Addr)
    → (Bytes → Option (List Addr))
    → Profile
    → Bytes
    → Result PolicyError (List Addr)
unfolding literal_or resolved
resolve parse_addr lookup profile host =
    literal_or profile (parse_addr host) (resolved profile (lookup host))
