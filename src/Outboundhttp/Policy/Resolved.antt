-- ===== src/Outboundhttp/Policy/Resolved.antt =====
-- What the addresses that the policy returns satisfy.
use go_webhook_delivery.Common.{
  ◌≡◌, ◌≤◌, refl, sym, arith, Bool, true, false, Option, none, some, List, [], ◌∷◌, inl, inr,
  Bool-cases, Bytes, All, length, is_empty, Result, ok, err, not, ◌||◌,
}
use go_webhook_delivery.Golang.Netip.{Addr, is_valid, is_4_in_6, zone_of, unmap}
use go_webhook_delivery.Outboundhttp.{Profile}
use go_webhook_delivery.Outboundhttp.Policy.{
  PolicyError, allowed, was_seen, add_seen, keep, resolve_all, resolved, literal_or, resolve,
}

abbrev pub Allowed : Profile → Addr → Type 0
Allowed profile a = allowed profile a ≡ true

-- No address stands twice in the list, or in it and among those seen.
abbrev pub Distinct : List Addr → List Addr → Type 0
Distinct seen [] = Unit
Distinct seen (a ∷ more) = (was_seen a seen ≡ false) × Distinct (a ∷ seen) more

-- A list of allowed addresses without repetition.
abbrev pub Checked : Profile → List Addr → List Addr → Type 0
Checked profile seen result = All (Allowed profile) result × Distinct seen result

keep-Checked :
    (profile : Profile) (b : Bool) (seen : List Addr) (a : Addr)
    (r : Result PolicyError (List Addr)) (result : List Addr)
    → was_seen a seen ≡ b
    → Allowed profile a
    → ((rest : List Addr) → r ≡ ok rest → Checked profile (add_seen b a seen) rest)
    → keep b a r ≡ ok result
    → Checked profile seen result
unfolding keep add_seen
keep-Checked profile b seen a (err e) result s h ih k = absurd cc
keep-Checked profile true seen a (ok rest) result s h ih k =
    let same : rest ≡ result = cc in rw (sym same) (ih rest refl)
keep-Checked profile false seen a (ok rest) result s h ih k =
    let same : (a ∷ rest) ≡ result = cc in
    rw (sym same) ((h, (ih rest refl).0), (s, (ih rest refl).1))

resolve_all-Checked :
    (profile : Profile) (seen addresses result : List Addr)
    → resolve_all profile seen addresses ≡ ok result
    → Checked profile seen result
unfolding resolve_all
resolve_all-Checked profile seen [] result h = let same : [] ≡ result = cc in rw (sym same) (tt, tt)
resolve_all-Checked profile seen (a ∷ more) result h =
    elim (Bool-cases (not (is_valid a) || not (is_empty (zone_of a)) || is_4_in_6 a)) [
      | inl bad ↦ absurd (ground arith)
      | inr good ↦ elim (Bool-cases (allowed profile (unmap a))) [
        | inr denied ↦ absurd (ground arith)
        | inl passes ↦
            keep-Checked profile (was_seen (unmap a) seen) seen (unmap a) _ result refl passes
              (resolve_all-Checked profile (add_seen (was_seen (unmap a) seen) (unmap a) seen) more)
              (ground arith)
      ]
    ]

literal-Allowed : (profile : Profile) (a : Addr) → Allowed profile a → Allowed profile (unmap a)
unfolding allowed
literal-Allowed profile a h = ground arith

keep-nonempty :
    (a : Addr) (r : Result PolicyError (List Addr)) (result : List Addr)
    → keep false a r ≡ ok result
    → 1 ≤ length result
unfolding keep
keep-nonempty a (err e) result h = absurd cc
keep-nonempty a (ok rest) result h =
    let same : a ∷ rest ≡ result = cc in rw (sym same) (omega arith)

resolve_all-nonempty :
    (profile : Profile) (a : Addr) (more result : List Addr)
    → resolve_all profile [] (a ∷ more) ≡ ok result
    → 1 ≤ length result
unfolding resolve_all was_seen
resolve_all-nonempty profile a more result h =
    ground (
      arith,
      keep-nonempty (unmap a) (resolve_all profile (add_seen false (unmap a) []) more) result,
    )

resolved-Checked :
    (profile : Profile) (answer : Option (List Addr)) (result : List Addr)
    → resolved profile answer ≡ ok result
    → (1 ≤ length result) × Checked profile [] result
unfolding resolved
resolved-Checked profile none result h = absurd cc
resolved-Checked profile (some []) result h = absurd cc
resolved-Checked profile (some (a ∷ more)) result h = (
  resolve_all-nonempty profile a more result h,
  resolve_all-Checked profile [] (a ∷ more) result h,
)

literal_or-Checked :
    (profile : Profile) (literal : Option Addr) (answer : Result PolicyError (List Addr))
    (result : List Addr)
    → (answer ≡ ok result → (1 ≤ length result) × Checked profile [] result)
    → literal_or profile literal answer ≡ ok result
    → (1 ≤ length result) × Checked profile [] result
unfolding literal_or was_seen
literal_or-Checked profile none answer result k h = k h
literal_or-Checked profile (some a) answer result k h = elim (Bool-cases (allowed profile a)) [
  | inl passes ↦
      let same : unmap a ∷ [] ≡ result = ground arith in
      rw (sym same) (omega arith, ((literal-Allowed profile a passes, tt), (refl, tt)))
  | inr denied ↦ absurd (ground arith)
]

-- What `Resolve` returns is not empty, holds no address twice, and the policy of the profile allows
-- each of its addresses, whether the host is the literal of an address or a name that the resolver
-- answers.
pub resolve-Checked :
    (parse_addr : Bytes → Option Addr) (lookup : Bytes → Option (List Addr)) (profile : Profile)
    (host : Bytes) (result : List Addr)
    → resolve parse_addr lookup profile host ≡ ok result
    → (1 ≤ length result) × Checked profile [] result
unfolding resolve
resolve-Checked parse_addr lookup profile host result h =
    literal_or-Checked profile (parse_addr host) (resolved profile (lookup host)) result
      (resolved-Checked profile (lookup host) result) h
