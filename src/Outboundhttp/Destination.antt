-- ===== src/Outboundhttp/Destination.antt =====
-- internal/outboundhttp/destination.go: the parser of a destination's URL. The packages `url`,
-- `netip`, `net` and `idna` that it calls are the fields of `Urls`.
pub mod Accepted
use go_webhook_delivery.Common.{
  ℕ, Bool, true, false, not, ◌&&◌, ◌||◌, ltb, leb, ◌==◌, Option, none, some, List, [], ◌∷◌,
  if◌then◌else◌, Bytes, bytes, bytes_eq, is_empty, length, ℤ, pos, ltb_ℤ, Result, ok, err, ◌>>=◌,
  ◌>>◌, require,
}
use go_webhook_delivery.Golang.Strings.{has_prefix, trim_suffix}
use go_webhook_delivery.Golang.Decimal.{atoi}
use go_webhook_delivery.Golang.Netip.{Addr, is_4_in_6, zone_of, unmap, is_loopback}
use go_webhook_delivery.Outboundhttp.{Profile, is_production, contains_byte}
use go_webhook_delivery.Outboundhttp.Policy.{PolicyError, rejected}

pub record Destination : Type 0 where
  pub scheme : Bytes
  pub host : Bytes
  pub path : Bytes
  pub port : ℤ

-- What is read of a `url.URL`; `has_user` tells whether its user is not nil.
pub record Url : Type 0 where
  pub is_abs : Bool
  pub opaque : Bytes
  pub has_user : Bool
  pub hostname : Bytes
  pub raw_query : Bytes
  pub force_query : Bool
  pub fragment : Bytes
  pub url_scheme : Bytes
  pub url_port : Bytes
  pub escaped_path : Bytes

pub record Urls : Type 0 where
  pub has_control : Bytes → Bool
  pub parse_request_uri : Bytes → Option Url
  pub to_lower : Bytes → Bytes
  pub parse_addr : Bytes → Option Addr
  pub addr_string : Addr → Bytes
  pub to_ascii : Bytes → Option Bytes
  pub is_ip : Bytes → Bool

-- Only decimal digits and dots.
unfoldable pub is_numeric : Bytes → Bool
is_numeric [] = true
is_numeric (c ∷ cs) = (leb b'0' c && leb c b'9' || c == b'.') && is_numeric cs

-- Go's check of a URL's parts, after it is parsed.
unfoldable pub well_formed : Url → Bool
well_formed u =
    u.is_abs
    && is_empty u.opaque
    && not u.has_user
    && not (is_empty u.hostname)
    && is_empty u.raw_query
    && not u.force_query
    && is_empty u.fragment

unfoldable pub scheme_allowed : Profile → Bool → Bytes → Bool
scheme_allowed profile allow_http scheme =
    bytes_eq scheme (bytes "https")
    || bytes_eq scheme (bytes "http") && not (is_production profile) && allow_http

-- An explicit port.
unfoldable pub checked_port : Option ℤ → Result PolicyError ℤ
checked_port none = err rejected
checked_port (some p) = do require (not (ltb_ℤ p (pos 1) || ltb_ℤ (pos 65535) p)) rejected; ok p

unfoldable pub port_of : Bytes → Url → Result PolicyError ℤ
unfolding checked_port
port_of scheme u =
    if is_empty u.url_port
    then ok (if bytes_eq scheme (bytes "http") then pos 80 else pos 443)
    else checked_port (atoi u.url_port)

module _ (urls : Urls) where
  open urls use {has_control, parse_request_uri, to_lower, parse_addr, addr_string, to_ascii, is_ip}

  -- What a host that is the literal of an address is replaced by.
  unfoldable pub canonical_literal : Addr → Result PolicyError Bytes
  canonical_literal a = do
    require (is_empty (zone_of a) && not (is_4_in_6 a)) rejected
    ok (addr_string a)

  unfoldable pub canonical_ascii : Option Bytes → Result PolicyError Bytes
  canonical_ascii none = err rejected
  canonical_ascii (some ascii) = do
    require (not (is_empty ascii) && leb (length ascii) 253 && not (is_ip ascii)) rejected
    ok (to_lower ascii)

  unfoldable pub canonical_name : Bytes → Option Addr → Result PolicyError Bytes
  unfolding canonical_literal canonical_ascii
  canonical_name value (some a) = canonical_literal a
  canonical_name value none = do
    require (not (is_numeric value)) rejected
    canonical_ascii (to_ascii value)

  -- `canonicalHost`.
  unfoldable pub canonical_host : Bytes → Result PolicyError Bytes
  unfolding canonical_name
  canonical_host raw =
      let value = to_lower (trim_suffix raw (bytes ".")) in
      do
        require (not (contains_byte b'%' raw || has_prefix raw (bytes "."))) rejected
        require (not (is_empty value || ltb 253 (length value))) rejected
        canonical_name value (parse_addr value)

  loopback_addr : Option Addr → Bool
  loopback_addr none = false
  loopback_addr (some a) = is_loopback (unmap a)

  -- `isLoopbackLiteralOrName`.
  unfoldable pub is_loopback_host : Bytes → Bool
  unfolding loopback_addr
  is_loopback_host host = bytes_eq host (bytes "localhost") || loopback_addr (parse_addr host)

  -- What follows the parsing of the URL.
  unfoldable pub destination_of : Profile → Bool → Option Url → Result PolicyError Destination
  destination_of profile allow_http none = err rejected
  destination_of profile allow_http (some u) = do
    require (well_formed u) rejected
    require (scheme_allowed profile allow_http (to_lower u.url_scheme)) rejected
    host ← canonical_host u.hostname
    port ← port_of (to_lower u.url_scheme) u
    require (not (bytes_eq (to_lower u.url_scheme) (bytes "http") && not (is_loopback_host host)))
        rejected
    ok (record {
      scheme = to_lower u.url_scheme;
      host = host;
      path = if is_empty u.escaped_path then bytes "/" else u.escaped_path;
      port = port;
    })

  -- `Parse`.
  unfoldable pub parse : Profile → Bool → Bytes → Result PolicyError Destination
  unfolding destination_of
  parse profile allow_http raw = do
    require (not (is_empty raw || contains_byte b'#' raw || has_control raw)) rejected
    destination_of profile allow_http (parse_request_uri raw)
