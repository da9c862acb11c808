-- ===== src/Signing/Examples.antt =====
-- Signatures with a checksum for a MAC.
use go_webhook_delivery.Common.{
  ℕ, ◌+◌, ◌*◌, ◌%◌, ◌≡◌, ◌≢◌, refl, [], ◌∷◌, ◌++◌, arith, Bytes, bytes, pos, ok,
}
use go_webhook_delivery.Golang.Decimal.{format_int}
use go_webhook_delivery.Golang.Time.{second}
use go_webhook_delivery.Signing.{Hmac, canonical, header_value, sign, verify}
use go_webhook_delivery.Signing.Accepts.{verify-rotation, verify-far_future}
use go_webhook_delivery.Signing.Sound.{Accepted, verify-Accepted}

abbrev sum_of : Bytes → ℕ
sum_of [] = 0
sum_of (b ∷ bs) = b + sum_of bs

abbrev zeros31 : Bytes
zeros31 =
    0 ∷ 0 ∷ 0 ∷ 0 ∷ 0 ∷ 0 ∷ 0 ∷ 0 ∷ 0 ∷ 0 ∷ 0 ∷ 0 ∷ 0 ∷ 0 ∷ 0 ∷ 0 ∷ 0 ∷ 0 ∷ 0 ∷ 0 ∷ 0 ∷ 0 ∷ 0 ∷ 0
    ∷ 0 ∷ 0 ∷ 0 ∷ 0 ∷ 0 ∷ 0 ∷ 0 ∷ []

abbrev checksum : Hmac
checksum = record {
  mac = λ key message. ((sum_of key + 3 * sum_of message) % 256) ∷ zeros31;
  mac_size = λ key message. refl;
  mac_bytes = λ key message. omega arith;
}

abbrev key_a : Bytes
key_a = bytes "key_a"

abbrev key_b : Bytes
key_b = bytes "key_b"

abbrev rotation_header : Bytes
rotation_header =
    header_value key_a
      (sign checksum (bytes "new") (pos 1700000000) (bytes "e") (bytes "d") key_a (bytes "{}"))
    ++ b';'
      ∷ header_value key_b
          (sign checksum (bytes "old") (pos 1700000000) (bytes "e") (bytes "d") key_b (bytes "{}"))

key_a-ne-nil : key_a ≢ []
key_a-ne-nil e = ground arith

key_b-ne-nil : key_b ≢ []
key_b-ne-nil e = ground arith

key_a-ne-key_b : key_a ≢ key_b
key_a-ne-key_b e = ground arith

verify-rotation_example :
    (verify checksum
        (bytes "new")
        (pos (1700000009 * second))
        (pos (300 * second))
        (format_int (pos 1700000000))
        (bytes "e")
        (bytes "d")
        key_a
        rotation_header
        (bytes "{}")
      ≡ ok tt)
    × (verify checksum
          (bytes "old")
          (pos (1700000009 * second))
          (pos (300 * second))
          (format_int (pos 1700000000))
          (bytes "e")
          (bytes "d")
          key_b
          rotation_header
          (bytes "{}")
        ≡ ok tt)
verify-rotation_example =
    verify-rotation checksum (bytes "new") (bytes "old") (1700000009 * second) 1700000000
      (300 * second) (bytes "e") (bytes "d") key_a key_b (bytes "{}") (omega arith) (omega arith)
      (omega arith) (omega arith) (omega arith) (omega arith) (omega arith) key_a-ne-nil
      key_b-ne-nil key_a-ne-key_b rotation_header refl

verify-far_future_run :
    verify checksum
      (bytes "new")
      (pos (1700000000 * second))
      (pos (300 * second))
      (format_int (pos 20000000000))
      (bytes "e")
      (bytes "d")
      key_a
      (header_value key_a
        (sign checksum (bytes "new") (pos 20000000000) (bytes "e") (bytes "d") key_a (bytes "{}")))
      (bytes "{}")
    ≡ ok tt
verify-far_future_run =
    verify-far_future checksum (bytes "new") (1700000000 * second) 20000000000 (300 * second)
      (bytes "e") (bytes "d") key_a (bytes "{}") (omega arith) (omega arith) (omega arith)
      (omega arith) (omega arith) key_a-ne-nil

verify-Accepted_example :
    Accepted checksum
      (bytes "new")
      (pos (1700000009 * second))
      (pos (300 * second))
      (format_int (pos 1700000000))
      (bytes "e")
      (bytes "d")
      key_a
      rotation_header
      (bytes "{}")
verify-Accepted_example =
    verify-Accepted checksum (bytes "new") (pos (1700000009 * second)) (pos (300 * second))
      (format_int (pos 1700000000)) (bytes "e") (bytes "d") key_a rotation_header (bytes "{}")
      verify-rotation_example.0

written :
    canonical (pos 12) (bytes "e") (bytes "d") (bytes "k") (bytes "{}")
    ≡ bytes "v1\n12\ne\nd\nk\n{}"
unfolding canonical format_int
written = refl
