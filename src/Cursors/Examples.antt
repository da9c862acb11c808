-- ===== src/Cursors/Examples.antt =====
-- A cursor of one workspace.
use go_webhook_delivery.Common.{
  ◌≡◌, ◌≢◌, refl, arith, [], ◌∷◌, ◌++◌, Bytes, bytes, bytes_eq, pos, eq_ℤ, ok, err,
}
use go_webhook_delivery.Golang.Base64.{base64_encode}
use go_webhook_delivery.Signing.{Hmac}
use go_webhook_delivery.Cursors.{
  ListCursor, invalid_list, delivery_label, cursor_payload, cursor_mac, encode_cursor,
  encode_delivery_cursor, decode_delivery_cursor,
}
use go_webhook_delivery.Cursors.Isolation.{
  decode_delivery_cursor-encode, decode_delivery_cursor-other,
}

abbrev key32 : Bytes
key32 = bytes "abcdefghijklmnopqrstuvwxyz012345"

abbrev constant_mac : Hmac
constant_mac = record {
  mac = λ key message. key32;
  mac_size = λ key message. refl;
  mac_bytes = λ key message. omega arith;
}

abbrev workspace : Bytes
workspace = bytes "workspace number"

abbrev another : Bytes
another = bytes "another workspac"

abbrev cursor : ListCursor
cursor = record { created_at = pos 1700000000000000000; id = bytes "delivery of a to" }

abbrev written : Bytes
written = base64_encode (
    cursor_payload workspace cursor
    ++ cursor_mac constant_mac delivery_label key32 (cursor_payload workspace cursor))

encodes : encode_delivery_cursor constant_mac key32 workspace cursor ≡ ok written
unfolding encode_delivery_cursor encode_cursor bytes_eq eq_ℤ
encodes = refl

another-ne-workspace : another ≢ workspace
another-ne-workspace e = ground arith

another-ne-nil : another ≢ 0 ∷ 0 ∷ 0 ∷ 0 ∷ 0 ∷ 0 ∷ 0 ∷ 0 ∷ 0 ∷ 0 ∷ 0 ∷ 0 ∷ 0 ∷ 0 ∷ 0 ∷ 0 ∷ []
another-ne-nil e = ground arith

decode_delivery_cursor-encode_run :
    decode_delivery_cursor constant_mac key32 workspace written ≡ ok cursor
decode_delivery_cursor-encode_run =
    decode_delivery_cursor-encode constant_mac key32 workspace written cursor (refl, omega arith)
      (refl, omega arith) (omega arith) encodes

decode_delivery_cursor-other_example :
    decode_delivery_cursor constant_mac key32 another written ≡ err invalid_list
decode_delivery_cursor-other_example =
    decode_delivery_cursor-other constant_mac key32 workspace another written cursor
      (refl, omega arith) (refl, omega arith) encodes another-ne-nil another-ne-workspace
