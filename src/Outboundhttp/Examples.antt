-- ===== src/Outboundhttp/Examples.antt =====
-- Two hosts: `a` has one public address twice, `b` a private one.
use go_webhook_delivery.Common.{
  ◌≡◌, ◌≤◌, refl, true, false, not, Option, none, some, List, [], ◌∷◌, if◌then◌else◌, Bytes, bytes,
  bytes_eq, pos, ok, err,
}
use go_webhook_delivery.Golang.Strings.{trim_suffix, has_prefix}
use go_webhook_delivery.Golang.Decimal.{parse_int}
use go_webhook_delivery.Golang.Netip.{
  Addr, v4, ip4, loopback, is_loopback, multicast, link_local, unspecified, global_unicast,
  is_global_unicast, prefix_contains, addr_eq,
}
use go_webhook_delivery.Delivery.Requests.{destination_policy}
use go_webhook_delivery.Delivery.Outbound.Examples.{runner, claim}
use go_webhook_delivery.Outboundhttp.{production, contains_byte}
use go_webhook_delivery.Outboundhttp.Policy.{
  rejected, contains, global_special_ipv4, non_global_ipv4, allowed_unmapped, allowed, was_seen,
  add_seen, keep, resolve_all, resolved, literal_or, resolve,
}
use go_webhook_delivery.Outboundhttp.Policy.Public.{
  allowed-v4, forbidden_ranges, in_ranges, between,
}
use go_webhook_delivery.Outboundhttp.Policy.Resolved.{Checked, resolve-Checked}
use go_webhook_delivery.Outboundhttp.Dialer.{Network, dial_context}
use go_webhook_delivery.Outboundhttp.Dialer.Egress.{Egress, dial_context-Egress}
use go_webhook_delivery.Outboundhttp.Destination.{
  Destination, Urls, well_formed, scheme_allowed, checked_port, port_of, is_numeric,
  canonical_literal, canonical_ascii, canonical_name, canonical_host, is_loopback_host,
  destination_of, parse,
}
use go_webhook_delivery.Outboundhttp.Destination.Accepted.{
  Accepted, parse-Accepted, destination_policy-parse,
}

abbrev no_literal : Bytes → Option Addr
no_literal host = none

abbrev answers : Bytes → Option (List Addr)
answers host =
    if bytes_eq host (bytes "a")
    then some (v4 134744072 ∷ v4 134744072 ∷ [])
    else if bytes_eq host (bytes "b")
    then some (v4 134744072 ∷ v4 167772161 ∷ [])
    else none

abbrev network : Network Bytes Bytes
network = record {
  split_host_port = λ address. some (bytes "a", bytes "443");
  parse_addr = no_literal;
  addr_string = λ a. bytes "8.8.8.8";
  lookup = answers;
  dial = λ address. ok address;
}

abbrev pub urls : Urls
urls = record {
  has_control = λ raw. false;
  parse_request_uri = λ raw. some (record {
    is_abs = true;
    opaque = [];
    has_user = false;
    hostname = bytes "receiver.test";
    raw_query = [];
    force_query = false;
    fragment = [];
    url_scheme = bytes "https";
    url_port = bytes "8443";
    escaped_path = [];
  });
  to_lower = λ s. s;
  parse_addr = no_literal;
  addr_string = λ a. [];
  to_ascii = λ s. some s;
  is_ip = λ s. false;
}

abbrev pub destination : Destination
destination = record {
  scheme = bytes "https";
  host = bytes "receiver.test";
  path = bytes "/";
  port = pos 8443;
}

-- A public address is allowed in production, a mixed answer is refused as a whole, and an address that
-- comes twice is dialled once.
resolves : resolve no_literal answers production (bytes "a") ≡ ok (v4 134744072 ∷ [])
unfolding resolve literal_or resolved resolve_all was_seen add_seen keep allowed allowed_unmapped
    contains global_special_ipv4 non_global_ipv4 loopback is_loopback multicast link_local
    unspecified global_unicast is_global_unicast prefix_contains addr_eq bytes_eq
resolves = refl

mixed : resolve no_literal answers production (bytes "b") ≡ err rejected
unfolding resolve literal_or resolved resolve_all was_seen add_seen keep allowed allowed_unmapped
    contains global_special_ipv4 non_global_ipv4 loopback is_loopback multicast link_local
    unspecified global_unicast is_global_unicast prefix_contains addr_eq bytes_eq
mixed = refl

pub parses : parse urls production false (bytes "https://receiver.test:8443") ≡ ok destination
unfolding parse destination_of well_formed scheme_allowed canonical_host canonical_name
    canonical_ascii canonical_literal is_numeric port_of checked_port is_loopback_host contains_byte
    has_prefix trim_suffix parse_int bytes_eq
parses = refl

abbrev pub receiver : Bytes → Option (List Addr)
receiver host = some (v4 134744072 ∷ [])

pub resolves_receiver :
    resolve urls.parse_addr receiver production (bytes "receiver.test") ≡ ok (v4 134744072 ∷ [])
unfolding resolve literal_or resolved resolve_all was_seen add_seen keep allowed allowed_unmapped
    contains global_special_ipv4 non_global_ipv4 loopback is_loopback multicast link_local
    unspecified global_unicast is_global_unicast prefix_contains addr_eq bytes_eq
resolves_receiver = refl

private_address : allowed production (v4 (ip4 10 0 0 1)) ≡ false
private_address = rw (allowed-v4 (ip4 10 0 0 1)) (unfold between in refl)

allowed-v4_example :
    allowed production (v4 (ip4 10 0 0 1)) ≡ not (in_ranges (ip4 10 0 0 1) forbidden_ranges)
allowed-v4_example = allowed-v4 (ip4 10 0 0 1)

resolve-Checked_run : (1 ≤ 1) × Checked production [] (v4 134744072 ∷ [])
resolve-Checked_run =
    resolve-Checked no_literal answers production (bytes "a") (v4 134744072 ∷ []) resolves

dial_context-Egress_example : Egress production (dial_context network production (bytes "a:443"))
dial_context-Egress_example = dial_context-Egress network production (bytes "a:443")

parse-Accepted_example : Accepted urls production false destination
parse-Accepted_example =
    parse-Accepted urls production false (bytes "https://receiver.test:8443") destination parses

destination_policy-parse_example : destination_policy runner claim ≡ []
destination_policy-parse_example =
    destination_policy-parse urls runner claim (bytes "https://receiver.test:8443") destination
      parses refl
