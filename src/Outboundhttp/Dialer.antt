-- ===== src/Outboundhttp/Dialer.antt =====
-- internal/outboundhttp/client.go: the dialer, which tries the addresses of the policy in order. The
-- splitter of an address, the printer of an IP address and the network are arguments.
pub mod Egress
use go_webhook_delivery.Common.{
  ◌≡◌, ◌≢◌, ◌≤◌, refl, sym, ap, arith, Bool, Option, none, some, List, [], ◌∷◌, Bytes, All, length,
  Result, ok, err, Result-cases, inl, inr, map,
}
use go_webhook_delivery.Golang.Netip.{Addr}
use go_webhook_delivery.Outboundhttp.{Profile, join_host_port}
use go_webhook_delivery.Outboundhttp.Policy.{PolicyError, resolve}

-- The pair that `DialContext` returns: a connection, an error, or neither.
pub data Dialed {ℓ κ} (E : Type ℓ) (C : Type κ) : Type (ℓ ⊔ κ) where
  refused : Dialed E C
  failed : E → Dialed E C
  connected : C → Dialed E C
  nothing : Dialed E C

module _ {ℓ κ} {E : Type ℓ} {C : Type κ} where
  -- The result of the loop when no address is left.
  unfoldable pub last_error : Option E → Dialed E C
  last_error none = nothing
  last_error (some e) = failed e

  unfoldable pub after_dial :
      Addr → Result E C → (E → Dialed E C × List Addr) → Dialed E C × List Addr
  after_dial a (ok c) rest = (connected c, a ∷ [])
  after_dial a (err e) rest = ((rest e).0, a ∷ (rest e).1)

  -- The loop, with the last error: its result and the addresses dialled, in order.
  unfoldable pub dial_all : (Addr → Result E C) → Option E → List Addr → Dialed E C × List Addr
  unfolding last_error after_dial
  dial_all dial last [] = (last_error last, [])
  dial_all dial last (a ∷ more) = after_dial a (dial a) (λ e. dial_all dial (some e) more)

-- What the dialer calls.
pub record Network {ℓ κ} (E : Type ℓ) (C : Type κ) : Type (ℓ ⊔ κ) where
  pub split_host_port : Bytes → Option (Bytes × Bytes)
  pub parse_addr : Bytes → Option Addr
  pub addr_string : Addr → Bytes
  pub lookup : Bytes → Option (List Addr)
  pub dial : Bytes → Result E C

module _ {ℓ κ} {E : Type ℓ} {C : Type κ} (net : Network E C) where
  unfoldable pub dial_resolved : Bytes → Result PolicyError (List Addr) → Dialed E C × List Addr
  unfolding dial_all
  dial_resolved port (err e) = (refused, [])
  dial_resolved port (ok addresses) =
      dial_all (λ a. net.dial (join_host_port (net.addr_string a) port)) none addresses

  unfoldable pub dial_split : Profile → Option (Bytes × Bytes) → Dialed E C × List Addr
  unfolding dial_resolved
  dial_split profile none = (refused, [])
  dial_split profile (some (host, port)) =
      dial_resolved port (resolve net.parse_addr net.lookup profile host)

  -- `DialContext`, and the addresses that it has dialled.
  unfoldable pub dial_context : Profile → Bytes → Dialed E C × List Addr
  unfolding dial_split
  dial_context profile address = dial_split profile (net.split_host_port address)
