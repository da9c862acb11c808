-- ===== src/Outboundhttp/Destination/Accepted.antt =====
-- What a destination that the parser accepts satisfies, and that the delivery worker accepts it too.
use go_webhook_delivery.Common.{
  ◌≡◌, ◌≤◌, ◌⊎◌, inl, inr, refl, sym, arith, Bool, true, false, not, Option, none, some, [], ◌∷◌,
  Bool-cases, if◌then◌else◌, Bytes, bytes, bytes_eq_iff, is_empty, length, ℤ, pos, ◌≤ℤ◌, ◌&&◌, ◌||◌,
  ok, bind-ok, require-ok, require-then, bytes_eq,
}
use go_webhook_delivery.Golang.Decimal.{atoi}
use go_webhook_delivery.Delivery.Types.{Claim}
use go_webhook_delivery.Delivery.Requests.{Runner, destination_policy}
use go_webhook_delivery.Outboundhttp.{Profile, is_production, contains_byte}
use go_webhook_delivery.Outboundhttp.Destination.{
  Destination, Url, Urls, well_formed, scheme_allowed, checked_port, port_of, is_loopback_host,
  canonical_host, destination_of, parse,
}

-- Https; or http to a loopback host, where it is allowed and the profile is not production.
abbrev pub SchemeChecked : Urls → Profile → Bool → Bytes → Bytes → Type 0
SchemeChecked urls profile allow_http scheme host =
    (scheme ≡ bytes "https")
    ⊎ ((scheme ≡ bytes "http")
        × (allow_http ≡ true)
        × (is_production profile ≡ false)
        × (is_loopback_host urls host ≡ true))

pub record Accepted (urls : Urls) (profile : Profile) (allow_http : Bool) (d : Destination)
    : Type 0 where
  pub scheme : SchemeChecked urls profile allow_http d.scheme d.host
  pub port_least : pos 1 ≤ℤ d.port
  pub port_greatest : d.port ≤ℤ pos 65535
  pub path : 1 ≤ length d.path

checked_port-bounds :
    (o : Option ℤ) (p : ℤ) → checked_port o ≡ ok p → (pos 1 ≤ℤ p) × (p ≤ℤ pos 65535)
unfolding checked_port
checked_port-bounds none p h = absurd cc
checked_port-bounds (some q) p h =
    let (passes, same) = require-ok _ _ _ _ h in rw (sym same) (ground arith)

port_of-bounds :
    (scheme : Bytes) (u : Url) (p : ℤ) → port_of scheme u ≡ ok p → (pos 1 ≤ℤ p) × (p ≤ℤ pos 65535)
unfolding port_of
port_of-bounds scheme u p h = elim (Bool-cases (is_empty u.url_port)) [
  | inl default ↦ elim (Bool-cases (bytes_eq scheme (bytes "http"))) [
    | inl e ↦ let same : pos 80 ≡ p = ground arith in rw (sym same) (omega arith)
    | inr e ↦ let same : pos 443 ≡ p = ground arith in rw (sym same) (omega arith)
  ]
  | inr explicit ↦ checked_port-bounds (atoi u.url_port) p (ground arith)
]

path_nonempty : (p : Bytes) → 1 ≤ length (if is_empty p then bytes "/" else p)
path_nonempty [] = omega arith
path_nonempty (c ∷ cs) = omega arith

scheme_allowed-cases :
    (urls : Urls) (profile : Profile) (allow_http : Bool) (scheme host : Bytes)
    → scheme_allowed profile allow_http scheme ≡ true
    → not (bytes_eq scheme (bytes "http") && not (is_loopback_host urls host)) ≡ true
    → SchemeChecked urls profile allow_http scheme host
unfolding scheme_allowed
scheme_allowed-cases urls profile allow_http scheme host s l =
    ground (arith, bytes_eq_iff scheme (bytes "http"), bytes_eq_iff scheme (bytes "https"))

destination_of-Accepted :
    (urls : Urls) (profile : Profile) (allow_http : Bool) (o : Option Url) (d : Destination)
    → destination_of urls profile allow_http o ≡ ok d
    → Accepted urls profile allow_http d
unfolding destination_of
destination_of-Accepted urls profile allow_http none d h = absurd cc
destination_of-Accepted urls profile allow_http (some u) d h =
    let scheme = urls.to_lower u.url_scheme in
    let (_, h1) = require-then (well_formed u) _ _ _ h in
    let (allowed, h2) = require-then (scheme_allowed profile allow_http scheme) _ _ _ h1 in
    let (host, _, h3) = bind-ok (canonical_host urls u.hostname) _ _ h2 in
    let (port, ported, h4) = bind-ok (port_of scheme u) _ _ h3 in
    let (local, same) =
      require-ok (not (bytes_eq scheme (bytes "http") && not (is_loopback_host urls host))) _ _ _
        h4 in
    let bounds = port_of-bounds _ u port ported in
    rw (sym same) (record {
      scheme = scheme_allowed-cases urls profile allow_http scheme host allowed local;
      port_least = bounds.0;
      port_greatest = bounds.1;
      path = path_nonempty u.escaped_path;
    })

-- A destination that `Parse` accepts has the scheme https, or else http, a loopback host, and a
-- profile that is not production where http is allowed; its port lies between 1 and 65535, and its
-- path is not empty.
pub parse-Accepted :
    (urls : Urls) (profile : Profile) (allow_http : Bool) (raw : Bytes) (d : Destination)
    → parse urls profile allow_http raw ≡ ok d
    → Accepted urls profile allow_http d
unfolding parse
parse-Accepted urls profile allow_http raw d h =
    destination_of-Accepted urls profile allow_http (urls.parse_request_uri raw) d
      (require-then (not (is_empty raw || contains_byte b'#' raw || urls.has_control raw)) _ _ _
        h).1

-- The worker's policy, of the parts that it looks at.
checked_policy :
    (urls : Urls) (profile : Profile) (allow_http : Bool) (scheme host : Bytes)
    → SchemeChecked urls profile allow_http scheme host
    → (if bytes_eq scheme (bytes "http") && not allow_http
        then bytes "http_destination_disabled"
        else if not (bytes_eq scheme (bytes "https")) && not (bytes_eq scheme (bytes "http"))
        then bytes "ssrf_policy"
        else if bytes_eq scheme (bytes "http") && is_production profile
        then bytes "ssrf_policy"
        else [])
      ≡ []
unfolding bytes_eq
checked_policy urls profile allow_http scheme host (inl e) = rw e refl
checked_policy urls profile allow_http scheme host (inr (e, allowed, not_production, _)) =
    rw (e, allowed, not_production) refl

-- A destination that `Parse` accepts under the profile and the setting of a worker passes the
-- destination policy of that worker when a claim has its scheme.
pub destination_policy-parse :
    (urls : Urls) (r : Runner) (c : Claim) (raw : Bytes) (d : Destination)
    → parse urls r.profile r.allow_http raw ≡ ok d
    → c.scheme ≡ d.scheme
    → destination_policy r c ≡ []
unfolding destination_policy
destination_policy-parse urls r c raw d h same = rw same (
    checked_policy urls r.profile r.allow_http d.scheme d.host
      (parse-Accepted urls r.profile r.allow_http raw d h).scheme)
