-- ===== src/Outboundhttp/Dialer/Egress.antt =====
-- Which addresses are dialled, and what comes of it.
use go_webhook_delivery.Common.{
  ◌≡◌, ◌≢◌, ◌≤◌, refl, arith, Option, none, some, List, [], ◌∷◌, Bytes, All, length, Result, ok,
  err, Result-cases, inl, inr,
}
use go_webhook_delivery.Golang.Netip.{Addr}
use go_webhook_delivery.Outboundhttp.{Profile}
use go_webhook_delivery.Outboundhttp.Policy.{PolicyError}
use go_webhook_delivery.Outboundhttp.Policy.Resolved.{Allowed, resolve-Checked}
use go_webhook_delivery.Outboundhttp.Dialer.{
  Dialed, nothing, last_error, after_dial, dial_all, Network, dial_resolved, dial_split,
  dial_context,
}

module _ {ℓ κ} {E : Type ℓ} {C : Type κ} where
  -- Dialled only what was allowed.
  dial_all-Allowed :
      (profile : Profile) (dial : Addr → Result E C) (last : Option E) (addresses : List Addr)
      → All (Allowed profile) addresses
      → All (Allowed profile) (dial_all dial last addresses).1
  unfolding dial_all after_dial
  dial_all-Allowed profile dial last [] h = tt
  dial_all-Allowed profile dial last (a ∷ more) h = elim (Result-cases (dial a)) [
    | inl (c, e) ↦ rw e (h.0, tt)
    | inr (failure, e) ↦ rw e (h.0, dial_all-Allowed profile dial (some failure) more h.1)
  ]

  -- After an error, or with an address to try, the loop has a result.
  dial_all-some :
      (dial : Addr → Result E C) (failure : E) (addresses : List Addr)
      → (dial_all dial (some failure) addresses).0 ≢ nothing
  unfolding dial_all after_dial last_error
  dial_all-some dial failure [] = λ h. absurd cc
  dial_all-some dial failure (a ∷ more) = elim (Result-cases (dial a)) [
    | inl (c, e) ↦ rw e λ h. absurd cc
    | inr (next, e) ↦ rw e (dial_all-some dial next more)
  ]

  dial_all_nonempty :
      (dial : Addr → Result E C) (addresses : List Addr)
      → 1 ≤ length addresses
      → (dial_all dial none addresses).0 ≢ nothing
  unfolding dial_all after_dial
  dial_all_nonempty dial [] h = absurd (omega arith)
  dial_all_nonempty dial (a ∷ more) h = elim (Result-cases (dial a)) [
    | inl (c, e) ↦ rw e λ h'. absurd cc
    | inr (next, e) ↦ rw e (dial_all-some dial next more)
  ]

-- What is promised of a dialler's result and of the addresses that it tried.
abbrev pub Egress {ℓ κ} :
    {E : Type ℓ} {C : Type κ} → Profile → Dialed E C × List Addr → Type (ℓ ⊔ κ)
Egress profile r = All (Allowed profile) r.1 × (r.0 ≢ nothing)

module _ {ℓ κ} {E : Type ℓ} {C : Type κ} (net : Network E C) where
  dial_resolved-Egress :
      (profile : Profile) (port : Bytes) (r : Result PolicyError (List Addr))
      → ((addresses : List Addr)
          → r ≡ ok addresses
          → (1 ≤ length addresses) × All (Allowed profile) addresses)
      → Egress profile (dial_resolved net port r)
  unfolding dial_resolved
  dial_resolved-Egress profile port (err e) h = (tt, λ e'. absurd cc)
  dial_resolved-Egress profile port (ok addresses) h = (
    dial_all-Allowed profile _ none addresses (h addresses refl).1,
    dial_all_nonempty _ addresses (h addresses refl).0,
  )

  dial_split-Egress :
      (profile : Profile) (parts : Option (Bytes × Bytes))
      → Egress profile (dial_split net profile parts)
  unfolding dial_split
  dial_split-Egress profile none = (tt, λ e. absurd cc)
  dial_split-Egress profile (some (host, port)) = dial_resolved-Egress profile port _ λ addresses h.
      let checked = resolve-Checked net.parse_addr net.lookup profile host addresses h in
      (checked.0, checked.1.0)

  -- Every address that `DialContext` dials is allowed by the policy of its profile, and it never
  -- returns without a connection or an error.
  pub dial_context-Egress :
      (profile : Profile) (address : Bytes) → Egress profile (dial_context net profile address)
  unfolding dial_context
  dial_context-Egress profile address = dial_split-Egress profile (net.split_host_port address)
