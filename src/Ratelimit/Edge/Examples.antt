-- ===== src/Ratelimit/Edge/Examples.antt =====
-- A limiter under the default configuration.
use go_webhook_delivery.Common.{
  ◌*◌, ◌≤◌, ◌≡◌, refl, true, [], ◌∷◌, arith, ℕ, Bytes, bytes, pos, quot, ◌*ℤ◌,
}
use go_webhook_delivery.Golang.Time.{second, unix_seconds}
use go_webhook_delivery.Signing.{Hmac}
use go_webhook_delivery.Ratelimit.Edge.{
  new_edge, default_edge, validate_edge, window_seconds, window_of, reset_bucket, allow,
}
use go_webhook_delivery.Ratelimit.Edge.Bounds.{
  IsBounded, IsAnswered, allow-IsAnswered, allow-IsBounded,
}
use go_webhook_delivery.Ratelimit.Edge.Windows.{Call, allowed_calls, allowed_calls-le-global}

abbrev zeros : Bytes
zeros =
    0 ∷ 0 ∷ 0 ∷ 0 ∷ 0 ∷ 0 ∷ 0 ∷ 0 ∷ 0 ∷ 0 ∷ 0 ∷ 0 ∷ 0 ∷ 0 ∷ 0 ∷ 0 ∷ 0 ∷ 0 ∷ 0 ∷ 0 ∷ 0 ∷ 0 ∷ 0 ∷ 0
    ∷ 0 ∷ 0 ∷ 0 ∷ 0 ∷ 0 ∷ 0 ∷ 0 ∷ 0 ∷ []

abbrev constant_mac : Hmac
constant_mac = record {
  mac = λ key message. zeros;
  mac_size = λ key message. refl;
  mac_bytes = λ key message. omega arith;
}

default_edge-valid : validate_edge default_edge ≡ true
unfolding validate_edge
default_edge-valid = refl

new_edge-IsBounded : IsBounded default_edge new_edge
new_edge-IsBounded = record { buckets = omega arith; counted = omega arith }

abbrev some_calls : ℕ → Call
some_calls t = record {
  time = t * second;
  origin = bytes "192.0.2.1";
  prefix = bytes "0011223344556677";
}

allow-IsAnswered_run :
    IsAnswered default_edge
      (window_of default_edge (pos (61 * second)))
      (reset_bucket new_edge.global (window_of default_edge (pos (61 * second)))).count
      (allow constant_mac [] default_edge (pos (61 * second)) (bytes "192.0.2.1") [] new_edge)
allow-IsAnswered_run =
    allow-IsAnswered constant_mac [] default_edge (61 * second) (bytes "192.0.2.1") [] new_edge
      default_edge-valid

allow-IsBounded_example :
    IsBounded default_edge
      (allow constant_mac [] default_edge (pos (61 * second)) (bytes "192.0.2.1") [] new_edge).0
allow-IsBounded_example =
    allow-IsBounded constant_mac [] default_edge (61 * second) (bytes "192.0.2.1") [] new_edge
      default_edge-valid new_edge-IsBounded

window61 : window_of default_edge (pos (61 * second)) ≡ pos 60
unfolding window_of window_seconds unix_seconds quot ◌*ℤ◌
window61 = refl

window62 : window_of default_edge (pos (62 * second)) ≡ pos 60
unfolding window_of window_seconds unix_seconds quot ◌*ℤ◌
window62 = refl

allowed_calls-le-global_example :
    allowed_calls constant_mac [] default_edge (some_calls 61 ∷ some_calls 62 ∷ []) new_edge ≤ 60000
allowed_calls-le-global_example =
    allowed_calls-le-global constant_mac [] default_edge (pos 60)
      (some_calls 61 ∷ some_calls 62 ∷ []) new_edge default_edge-valid new_edge-IsBounded
      (window61, (window62, tt))
