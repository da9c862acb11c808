-- ===== src/Cursors.antt =====
-- The page cursors of internal/delivery/list.go and internal/endpoint/list.go. The two packages have
-- the same layout and differ in the label of the MAC and in the length that they allow.
pub mod Isolation
mod Examples
use go_webhook_delivery.Common.{
  ℕ, ◌-◌, Bool, true, false, not, ◌&&◌, ◌||◌, Option, none, some, [], ◌∷◌, ◌++◌, ltb, ◌==◌,
  if◌then◌else◌, Bytes, bytes, bytes_eq, is_empty, length, take, drop, ℤ, eq_ℤ, to_uint64,
  of_uint64, Result, ok, err, ◌>>=◌, ◌>>◌, require,
}
use go_webhook_delivery.Golang.Base64.{base64_encode, base64_decode}
use go_webhook_delivery.Golang.BigEndian.{put_uint64, from_be}
use go_webhook_delivery.Golang.Time.{zero_time}
use go_webhook_delivery.Signing.{Hmac}
use go_webhook_delivery.Delivery.Types.{nil_uuid}

-- `listCursor`.
pub record ListCursor : Type 0 where
  pub created_at : ℤ
  pub id : Bytes

pub data CursorError : Type 0 where
  invalid_list : CursorError

abbrev pub zero_key : Bytes
zero_key = nil_uuid ++ nil_uuid

abbrev pub no_cursor : ListCursor
no_cursor = record { created_at = zero_time; id = nil_uuid }

-- `s[from:to]`.
abbrev pub slice : ℕ → ℕ → Bytes → Bytes
slice from to s = take (to - from) (drop from s)

unfoldable pub cursor_payload : Bytes → ListCursor → Bytes
cursor_payload workspace_id value =
    1 ∷ (workspace_id ++ (put_uint64 (to_uint64 value.created_at) ++ value.id))

-- The label sets the kinds of cursors apart.
unfoldable pub cursor_mac : Hmac → Bytes → Bytes → Bytes → Bytes
cursor_mac h label key payload = h.mac key (label ++ payload)

unfoldable pub encode_cursor : Hmac → Bytes → Bytes → Bytes → ListCursor → Result CursorError Bytes
unfolding cursor_payload cursor_mac
encode_cursor h label key workspace_id value =
    if bytes_eq key zero_key
      || bytes_eq workspace_id nil_uuid
      || bytes_eq value.id nil_uuid
      || eq_ℤ value.created_at zero_time
    then err invalid_list
    else let payload = cursor_payload workspace_id value in
      ok (base64_encode (payload ++ cursor_mac h label key payload))

-- The first byte of a text that is not empty.
starts_with : ℕ → Bytes → Bool
starts_with b [] = false
starts_with b (c ∷ cs) = c == b

cursor_value : ListCursor → Result CursorError ListCursor
cursor_value value =
    if bytes_eq value.id nil_uuid || eq_ℤ value.created_at zero_time
    then err invalid_list
    else ok value

check_decoded : Hmac → Bytes → Bytes → Bytes → Option Bytes → Result CursorError ListCursor
unfolding starts_with cursor_value cursor_mac
check_decoded h label key workspace_id none = err invalid_list
check_decoded h label key workspace_id (some decoded) =
    if not (length decoded == 73) || not (starts_with 1 decoded)
    then err invalid_list
    else if not (bytes_eq (drop 41 decoded) (cursor_mac h label key (take 41 decoded)))
        || not (bytes_eq (slice 1 17 (take 41 decoded)) workspace_id)
    then err invalid_list
    else cursor_value (record {
      created_at = of_uint64 (from_be 0 (slice 17 25 (take 41 decoded)));
      id = slice 25 41 (take 41 decoded);
    })

-- `longest` is the length of the longest text that is read.
decode_cursor : Hmac → Bytes → ℕ → Bytes → Bytes → Bytes → Result CursorError ListCursor
unfolding check_decoded
decode_cursor h label longest key workspace_id raw =
    if is_empty raw
    then ok no_cursor
    else if bytes_eq key zero_key || bytes_eq workspace_id nil_uuid || ltb longest (length raw)
    then err invalid_list
    else check_decoded h label key workspace_id (base64_decode raw)

abbrev pub delivery_label : Bytes
delivery_label = bytes "delivery-cursor:v1\n"

abbrev pub endpoint_label : Bytes
endpoint_label = bytes "endpoint-cursor:v1\n"

unfoldable pub encode_delivery_cursor : Hmac → Bytes → Bytes → ListCursor → Result CursorError Bytes
encode_delivery_cursor h = encode_cursor h delivery_label

-- A text of more than 256 bytes is refused.
unfoldable pub decode_delivery_cursor : Hmac → Bytes → Bytes → Bytes → Result CursorError ListCursor
unfolding decode_cursor
decode_delivery_cursor h = decode_cursor h delivery_label 256

unfoldable pub encode_list_cursor : Hmac → Bytes → Bytes → ListCursor → Result CursorError Bytes
encode_list_cursor h = encode_cursor h endpoint_label

-- No length is refused before the decoding: the bound is the text's own length.
unfoldable pub decode_list_cursor : Hmac → Bytes → Bytes → Bytes → Result CursorError ListCursor
unfolding decode_cursor
decode_list_cursor h key workspace_id raw =
    decode_cursor h endpoint_label (length raw) key workspace_id raw
