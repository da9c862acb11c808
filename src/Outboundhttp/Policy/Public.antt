-- ===== src/Outboundhttp/Policy/Public.antt =====
-- The addresses that the policy lets pass, told by their ranges.
use native.Mathlib.Nat.{le-div_iff_mul-le, div-lt_iff_lt-mul}
use go_webhook_delivery.Common.{
  Bool-cases, ℕ, ◌+◌, ◌-◌, ◌*◌, ◌/◌, ◌<◌, ◌≡◌, inl, inr, refl, arith, Bool, true, false, not, ◌&&◌,
  ◌||◌, ◌==◌, leb, List, [], ◌∷◌, ◌^◌,
}
use go_webhook_delivery.Golang.Netip.{
  v4, p4, ip4, prefix_contains, loopback, is_loopback, multicast, link_local, unspecified,
  global_unicast, is_global_unicast,
}
use go_webhook_delivery.Outboundhttp.{production}
use go_webhook_delivery.Outboundhttp.Policy.{
  contains, global_special_ipv4, non_global_ipv4, allowed_unmapped, allowed,
}

-- First and last address of the ranges that are private, reserved or special, in ascending order.
abbrev pub forbidden_ranges : List (ℕ × ℕ)
forbidden_ranges =
    (ip4 0 0 0 0, ip4 0 255 255 255)
    ∷ (ip4 10 0 0 0, ip4 10 255 255 255)
    ∷ (ip4 100 64 0 0, ip4 100 127 255 255)
    ∷ (ip4 127 0 0 0, ip4 127 255 255 255)
    ∷ (ip4 169 254 0 0, ip4 169 254 255 255)
    ∷ (ip4 172 16 0 0, ip4 172 31 255 255)
    ∷ (ip4 192 0 0 0, ip4 192 0 0 8)
    ∷ (ip4 192 0 0 11, ip4 192 0 0 255)
    ∷ (ip4 192 0 2 0, ip4 192 0 2 255)
    ∷ (ip4 192 88 99 0, ip4 192 88 99 255)
    ∷ (ip4 192 168 0 0, ip4 192 168 255 255)
    ∷ (ip4 198 18 0 0, ip4 198 19 255 255)
    ∷ (ip4 198 51 100 0, ip4 198 51 100 255)
    ∷ (ip4 203 0 113 0, ip4 203 0 113 255)
    ∷ (ip4 224 0 0 0, ip4 255 255 255 255)
    ∷ []

unfoldable pub between : ℕ → ℕ → ℕ → Bool
between n first last = leb first n && leb n last

abbrev pub in_ranges : ℕ → List (ℕ × ℕ) → Bool
in_ranges n [] = false
in_ranges n ((first, last) ∷ ranges) = between n first last || in_ranges n ranges

-- A prefix is a range.
div_between : (n s k : ℕ) → 0 < s → (n / s == k) ≡ between n (k * s) (k * s + s - 1)
unfolding between
div_between n s k h = ground (
  arith,
  le-div_iff_mul-le {k = s} {x = k} {y = n} h,
  div-lt_iff_lt-mul {k = s} {x = n} {y = k + 1} h,
)

module _ (n : ℕ) where
  prefix_range :
      (base bits first last s : ℕ)
      → 2 ^ (32 - bits) ≡ s
      → base / s * s ≡ first
      → first + s - 1 ≡ last
      → 0 < s
      → prefix_contains (p4 base bits) (v4 n) ≡ between n first last
  unfolding prefix_contains
  prefix_range base bits first last s e f g h = rw (e, div_between n s (base / s) h, f, g) refl

  specials_range : contains global_special_ipv4 (v4 n) ≡ (
      between n (ip4 192 0 0 9) (ip4 192 0 0 9)
      || (between n (ip4 192 0 0 10) (ip4 192 0 0 10) || false))
  unfolding contains global_special_ipv4
  specials_range =
      rw
        (
          prefix_range (ip4 192 0 0 9) 32 (ip4 192 0 0 9) (ip4 192 0 0 9) 1 refl refl refl
              (omega arith),
          prefix_range (ip4 192 0 0 10) 32 (ip4 192 0 0 10) (ip4 192 0 0 10) 1 refl refl refl
              (omega arith),
        )
        refl

  non_global_range :
      contains non_global_ipv4 (v4 n)
      ≡ in_ranges n (
          (ip4 0 0 0 0, ip4 0 255 255 255)
          ∷ (ip4 100 64 0 0, ip4 100 127 255 255)
          ∷ (ip4 192 0 0 0, ip4 192 0 0 255)
          ∷ (ip4 192 0 2 0, ip4 192 0 2 255)
          ∷ (ip4 10 0 0 0, ip4 10 255 255 255)
          ∷ (ip4 127 0 0 0, ip4 127 255 255 255)
          ∷ (ip4 169 254 0 0, ip4 169 254 255 255)
          ∷ (ip4 172 16 0 0, ip4 172 31 255 255)
          ∷ (ip4 192 88 99 0, ip4 192 88 99 255)
          ∷ (ip4 192 168 0 0, ip4 192 168 255 255)
          ∷ (ip4 198 18 0 0, ip4 198 19 255 255)
          ∷ (ip4 198 51 100 0, ip4 198 51 100 255)
          ∷ (ip4 203 0 113 0, ip4 203 0 113 255)
          ∷ (ip4 224 0 0 0, ip4 239 255 255 255)
          ∷ (ip4 240 0 0 0, ip4 255 255 255 255)
          ∷ [])
  unfolding contains non_global_ipv4
  non_global_range =
      rw
        (
          prefix_range (ip4 0 0 0 0) 8 (ip4 0 0 0 0) (ip4 0 255 255 255) 16777216 refl refl refl
              (omega arith),
          prefix_range (ip4 100 64 0 0) 10 (ip4 100 64 0 0) (ip4 100 127 255 255) 4194304 refl refl
              refl (omega arith),
          prefix_range (ip4 192 0 0 0) 24 (ip4 192 0 0 0) (ip4 192 0 0 255) 256 refl refl refl
              (omega arith),
          prefix_range (ip4 192 0 2 0) 24 (ip4 192 0 2 0) (ip4 192 0 2 255) 256 refl refl refl
              (omega arith),
          prefix_range (ip4 10 0 0 0) 8 (ip4 10 0 0 0) (ip4 10 255 255 255) 16777216 refl refl refl
              (omega arith),
          prefix_range (ip4 127 0 0 0) 8 (ip4 127 0 0 0) (ip4 127 255 255 255) 16777216 refl refl
              refl (omega arith),
          prefix_range (ip4 169 254 0 0) 16 (ip4 169 254 0 0) (ip4 169 254 255 255) 65536 refl refl
              refl (omega arith),
          prefix_range (ip4 172 16 0 0) 12 (ip4 172 16 0 0) (ip4 172 31 255 255) 1048576 refl refl
              refl (omega arith),
          prefix_range (ip4 192 88 99 0) 24 (ip4 192 88 99 0) (ip4 192 88 99 255) 256 refl refl refl
              (omega arith),
          prefix_range (ip4 192 168 0 0) 16 (ip4 192 168 0 0) (ip4 192 168 255 255) 65536 refl refl
              refl (omega arith),
          prefix_range (ip4 198 18 0 0) 15 (ip4 198 18 0 0) (ip4 198 19 255 255) 131072 refl refl
              refl (omega arith),
          prefix_range (ip4 198 51 100 0) 24 (ip4 198 51 100 0) (ip4 198 51 100 255) 256 refl refl
              refl (omega arith),
          prefix_range (ip4 203 0 113 0) 24 (ip4 203 0 113 0) (ip4 203 0 113 255) 256 refl refl refl
              (omega arith),
          prefix_range (ip4 224 0 0 0) 4 (ip4 224 0 0 0) (ip4 239 255 255 255) 268435456 refl refl
              refl (omega arith),
          prefix_range (ip4 240 0 0 0) 4 (ip4 240 0 0 0) (ip4 255 255 255 255) 268435456 refl refl
              refl (omega arith),
        )
        refl

-- The block of the IETF is split by its two exceptions.
ietf_split :
    (n : ℕ)
    → between n (ip4 192 0 0 0) (ip4 192 0 0 255) ≡ (
        between n (ip4 192 0 0 0) (ip4 192 0 0 8)
        || between n (ip4 192 0 0 9) (ip4 192 0 0 9)
        || between n (ip4 192 0 0 10) (ip4 192 0 0 10)
        || between n (ip4 192 0 0 11) (ip4 192 0 0 255))
unfolding between
ietf_split n = ground arith

last_split :
    (n : ℕ)
    → between n (ip4 224 0 0 0) (ip4 255 255 255 255) ≡ (
        between n (ip4 224 0 0 0) (ip4 239 255 255 255)
        || between n (ip4 240 0 0 0) (ip4 255 255 255 255))
unfolding between
last_split n = ground arith

between_ends : (n k : ℕ) → between n k k ≡ true → n ≡ k
unfolding between
between_ends n k h = ground arith

in_first : (n : ℕ) → (n == 0) ≡ true → between n (ip4 0 0 0 0) (ip4 0 255 255 255) ≡ true
unfolding between
in_first n h = ground arith

in_last :
    (n : ℕ) → (n == 4294967295) ≡ true → between n (ip4 240 0 0 0) (ip4 255 255 255 255) ≡ true
unfolding between
in_last n h = ground arith

-- In production an IPv4 address is allowed exactly if it lies in none of the forbidden ranges.
pub allowed-v4 : (n : ℕ) → allowed production (v4 n) ≡ not (in_ranges n forbidden_ranges)
unfolding allowed allowed_unmapped is_loopback loopback is_global_unicast global_unicast unspecified
    multicast link_local
allowed-v4 n =
    rw
      (
        specials_range n,
        non_global_range n,
        div_between n 16777216 127 (omega arith),
        div_between n 268435456 14 (omega arith),
        div_between n 65536 43518 (omega arith),
        ietf_split n,
        last_split n,
      )
      (elim (Bool-cases (between n (ip4 192 0 0 9) (ip4 192 0 0 9))) [
        | inl nine ↦ rw (between_ends n (ip4 192 0 0 9) nine) (unfold between in refl)
        | inr not_nine ↦ elim (Bool-cases (between n (ip4 192 0 0 10) (ip4 192 0 0 10))) [
          | inl ten ↦ rw (between_ends n (ip4 192 0 0 10) ten) (unfold between in refl)
          | inr not_ten ↦ rw (not_nine, not_ten) (ground (arith, in_first n, in_last n))
        ]
      ])
