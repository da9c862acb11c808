-- ===== src/Delivery/Outbound/Examples.antt =====
-- An attempt with a cipher that hides nothing and a checksum for a MAC.
use go_webhook_delivery.Common.{
  ℕ, ◌+◌, ◌*◌, ◌%◌, ◌≡◌, ◌≢◌, refl, true, false, none, some, [], ◌∷◌, ◌++◌, arith, Bytes, bytes,
  pos, ok, eq_ℤ, bytes_eq, is_empty,
}
use go_webhook_delivery.Golang.Time.{second}
use go_webhook_delivery.Golang.Strings.{cut_prefix, has_prefix}
use go_webhook_delivery.Golang.Strings.Splits.{cut_prefix-append}
use go_webhook_delivery.Cryptobox.{
  Envelope, Keyring, lookup_key, unseal, validate, decrypted, open_with, new_cipher,
}
use go_webhook_delivery.Cryptobox.Sealing.{HasPrimary}
use go_webhook_delivery.Outboundhttp.{production, authority}
use go_webhook_delivery.Delivery.Types.{Claim}
use go_webhook_delivery.Delivery.Results.{answered}
use go_webhook_delivery.Delivery.Results.Finalized.{FinalFor}
use go_webhook_delivery.Delivery.Requests.{
  Request, OpenedClaim, Platform, Runner, Times, destination_policy, open_as, open_retiring,
  open_claim, target_url, build_request, prepare,
}
use go_webhook_delivery.Delivery.Outbound.{finish_delivery, deliver, process_claim}
use go_webhook_delivery.Delivery.Outbound.Final.{process_claim-FinalFor}
use go_webhook_delivery.Delivery.Outbound.Sent.{
  signed_request, Sent, VerifiesAll, deliver-Sent, deliver-Verifies,
}

abbrev sum_of : Bytes → ℕ
sum_of [] = 0
sum_of (b ∷ bs) = b + sum_of bs

abbrev pub zeros12 : Bytes
zeros12 = 0 ∷ 0 ∷ 0 ∷ 0 ∷ 0 ∷ 0 ∷ 0 ∷ 0 ∷ 0 ∷ 0 ∷ 0 ∷ 0 ∷ []

abbrev tag : Bytes
tag = bytes "0123456789abcdef"

unfoldable abbrev pub platform : Platform
unfolding cut_prefix
platform = record {
  aead = record {
    encrypt = λ key nonce text aad. tag ++ text;
    decrypt = λ key nonce ciphertext aad. cut_prefix ciphertext tag;
    decrypt-encrypt = λ key nonce text aad. cut_prefix-append tag text;
    tag_fits = λ key nonce text aad. omega arith;
  };
  hmac = record {
    mac = λ key message.
        ((sum_of key + 3 * sum_of message) % 256)
        ∷ (zeros12 ++ (zeros12 ++ 0 ∷ 0 ∷ 0 ∷ 0 ∷ 0 ∷ 0 ∷ 0 ∷ []));
    mac_size = λ key message. refl;
    mac_bytes = λ key message. omega arith;
  };
  uuid_string = λ u. u;
  is_ipv6 = λ host. false;
  valid_uri = λ uri. true;
  can_build = λ uri. true;
  send = λ request.
      answered
        (record { status = pos 200; body_size = 2; read_fails = false; retry_after_header = [] });
  parse_time = λ text. none;
  random = λ n. pos 0;
}

abbrev pub key : Bytes
key = bytes "abcdefghijklmnopqrstuvwxyz012345"

abbrev pub ring : Keyring
ring = record { primary = pos 1; keys = (pos 1, key) ∷ [] }

pub has_primary : HasPrimary ring key
unfolding lookup_key eq_ℤ
has_primary = record { positive = omega arith; found = refl; key_size = refl }

abbrev pub runner : Runner
runner = record {
  materials = record {
    auth_pepper = key;
    idempotency_pepper = key;
    fingerprint_pepper = key;
    rate_limit_pepper = key;
    cursor_pepper = key;
    session_pepper = key;
    csrf_pepper = key;
    payload = ring;
    signing = ring;
  };
  profile = production;
  allow_http = false;
  retry_policy = record { base = pos second; cap = pos (900 * second); jitter = none };
}

abbrev sealed : Bytes → Envelope
sealed text = record {
  version = pos 2;
  kek_version = pos 1;
  nonce = zeros12;
  ciphertext = tag ++ text;
}

abbrev pub claim : Claim
claim = record {
  workspace_id = bytes "w";
  delivery_id = bytes "d";
  event_id = bytes "e";
  endpoint_id = bytes "p";
  attempt_id = bytes "a";
  fencing_token = pos 1;
  attempt_number = pos 1;
  max_attempts = pos 3;
  scheme = bytes "https";
  host = bytes "h.example";
  port = pos 443;
  target = sealed (bytes "/hook");
  event_type = bytes "t";
  payload = sealed (bytes "{}");
  key_id = bytes "key_a";
  secret_version_id = bytes "s";
  secret = sealed (bytes "shared");
  retiring = none;
}

abbrev times : Times
times = record {
  started = pos (1000 * second);
  signed = pos (1001 * second);
  received = pos (1002 * second);
  ended = pos (1003 * second);
}

abbrev opened : OpenedClaim
opened = record {
  path = bytes "/hook";
  payload = bytes "{}";
  secret = bytes "shared";
  retiring = [];
}

abbrev request : Request
request = signed_request platform (pos (1001 * second)) claim none opened

passes_policy : is_empty (destination_policy runner claim) ≡ true
unfolding destination_policy bytes_eq
passes_policy = refl

opens : open_claim platform runner claim ≡ ok opened
unfolding open_claim open_as open_retiring unseal validate lookup_key cut_prefix has_prefix
    decrypted open_with new_cipher eq_ℤ platform
opens = refl

prepared : prepare platform runner times claim ≡ ok request
unfolding prepare target_url build_request authority platform
prepared = rw opens refl

request_sent : (deliver platform runner times claim).1 ≡ some request
unfolding deliver finish_delivery
request_sent = rw (passes_policy, prepared) refl

key_a-ne-nil : bytes "key_a" ≢ []
key_a-ne-nil e = ground arith

process_claim-FinalFor_example :
    FinalFor (pos (900 * second)) (process_claim platform runner times claim)
process_claim-FinalFor_example =
    process_claim-FinalFor platform runner times claim (omega arith) (omega arith)

deliver-Sent_example : Sent platform runner times claim request
deliver-Sent_example = deliver-Sent platform runner times claim request request_sent

deliver-Verifies_example :
    (o : OpenedClaim) × (open_claim platform runner claim ≡ ok o)
    × VerifiesAll platform.hmac (1100 * second) (300 * second) request o (bytes "key_a") none
deliver-Verifies_example =
    deliver-Verifies platform runner times claim request (1100 * second) (300 * second)
      (1001 * second) request_sent refl
      (record {
        positive = omega arith;
        small = omega arith;
        range = omega arith;
        late = omega arith;
        early = omega arith;
      })
      (omega arith, key_a-ne-nil)
