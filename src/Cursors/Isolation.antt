-- ===== src/Cursors/Isolation.antt =====
-- A cursor is read back in its own workspace and nowhere else.
use go_webhook_delivery.Common.{
  ℕ, zero, suc, ◌+◌, ◌≤◌, ◌≡◌, ◌≢◌, refl, ap, ◌∙◌, arith, some, List, [], ◌∷◌, ◌++◌, if◌then◌else◌,
  Bytes, bytes_eq, bytes_eq_iff, bytes_eq_refl, length, length-append, take, drop, take-append,
  drop-append, All, All-append, eq_ℤ_iff, to_uint64, of_uint64, of_uint64-to_uint64, to_uint64-lt,
  InInt64, ok, err,
}
use go_webhook_delivery.Golang.Base64.{base64_encode}
use go_webhook_delivery.Golang.Base64.RoundTrip.{
  IsByte, base64_decode-encode, length-base64_encode, base64_encode-is_empty,
}
use go_webhook_delivery.Golang.BigEndian.{put_uint64, length-put_uint64, from_be-put_uint64}
use go_webhook_delivery.Golang.Time.{zero_time}
use go_webhook_delivery.Signing.{Hmac}
use go_webhook_delivery.Delivery.Types.{nil_uuid}
use go_webhook_delivery.Cursors.{
  ListCursor, invalid_list, zero_key, slice, cursor_payload, cursor_mac, encode_cursor, starts_with,
  cursor_value, check_decoded, decode_cursor, delivery_label, encode_delivery_cursor,
  decode_delivery_cursor,
}

put_uint64-IsByte : (n : ℕ) → All IsByte (put_uint64 n)
unfolding put_uint64
put_uint64-IsByte n = omega arith

drop_add : {A : Type 0} (k m n : ℕ) (xs : List A) → k ≡ m + n → drop k xs ≡ drop n (drop m xs)
drop_add k zero n xs h = ap (λ j. drop j xs) (omega arith)
drop_add zero (suc m) n xs h = absurd (omega arith)
drop_add (suc k) (suc m) zero [] h = refl
drop_add (suc k) (suc m) (suc n) [] h = refl
drop_add (suc k) (suc m) n (x ∷ xs) h = drop_add k m n xs (omega arith)

-- A UUID.
abbrev pub IsUuid : Bytes → Type 0
IsUuid u = (length u ≡ 16) × All IsByte u

module _ (ws id : Bytes) (n : ℕ) (w : IsUuid ws) (i : IsUuid id) where
  abbrev payload : Bytes
  payload = 1 ∷ (ws ++ (put_uint64 n ++ id))

  length-payload : length payload ≡ 41
  length-payload = omega (
    arith,
    length-append ws (put_uint64 n ++ id),
    length-append (put_uint64 n) id,
    length-put_uint64 n,
    w.0,
    i.0,
  )

  payload-IsByte : All IsByte payload
  payload-IsByte = (
    omega arith,
    All-append IsByte ws (put_uint64 n ++ id) w.1
        (All-append IsByte (put_uint64 n) id (put_uint64-IsByte n) i.1),
  )

  slice-workspace : slice 1 17 payload ≡ ws
  slice-workspace = take-append 16 ws (put_uint64 n ++ id) w.0

  slice-created : slice 17 25 payload ≡ put_uint64 n
  slice-created =
      ap (take 8) (drop-append 16 ws (put_uint64 n ++ id) w.0)
      ∙ take-append 8 (put_uint64 n) id (length-put_uint64 n)

  take_all : (xs : Bytes) (k : ℕ) → length xs ≡ k → take k xs ≡ xs
  take_all [] zero h = refl
  take_all [] (suc k) h = refl
  take_all (x ∷ xs) zero h = absurd (omega arith)
  take_all (x ∷ xs) (suc k) h = ap (◌∷◌ x) (take_all xs k (omega arith))

  slice-id : slice 25 41 payload ≡ id
  slice-id =
      ap (take 16) (
        drop_add 24 16 8 (ws ++ (put_uint64 n ++ id)) refl
        ∙ ap (drop 8) (drop-append 16 ws (put_uint64 n ++ id) w.0)
        ∙ drop-append 8 (put_uint64 n) id (length-put_uint64 n))
      ∙ take_all id 16 i.0

-- The cursor's own fields, and the workspace that the MAC covers.
module _ (h : Hmac) (label key ws : Bytes) (value : ListCursor) (w : IsUuid ws)
    (i : IsUuid value.id) where
  abbrev own : Bytes
  own = payload ws value.id (to_uint64 value.created_at) w i

  abbrev signed : Bytes
  signed = own ++ cursor_mac h label key own

  abbrev encoded : Bytes
  encoded = base64_encode signed

  signed-IsByte : All IsByte signed
  unfolding cursor_mac
  signed-IsByte =
      All-append IsByte own (cursor_mac h label key own)
        (payload-IsByte ws value.id (to_uint64 value.created_at) w i)
        (h.mac_bytes key (label ++ own))

  length-signed : length signed ≡ 73
  unfolding cursor_mac
  length-signed = omega (
    arith,
    length-append own (h.mac key (label ++ own)),
    h.mac_size key (label ++ own),
    length-payload ws value.id (to_uint64 value.created_at) w i,
  )

  take-signed : take 41 signed ≡ own
  take-signed =
      take-append 41 own (cursor_mac h label key own)
        (length-payload ws value.id (to_uint64 value.created_at) w i)

  drop-signed : drop 41 signed ≡ cursor_mac h label key own
  drop-signed =
      drop-append 41 own (cursor_mac h label key own)
        (length-payload ws value.id (to_uint64 value.created_at) w i)

  encoded_of :
      (raw : Bytes)
      → encode_cursor h label key ws value ≡ ok raw
      → (raw ≡ encoded)
        × (key ≢ zero_key)
        × (ws ≢ nil_uuid)
        × (value.id ≢ nil_uuid)
        × (value.created_at ≢ zero_time)
  unfolding encode_cursor cursor_payload
  encoded_of raw e = ground (
    arith,
    bytes_eq_iff key zero_key,
    bytes_eq_iff ws nil_uuid,
    bytes_eq_iff value.id nil_uuid,
    eq_ℤ_iff value.created_at zero_time,
  )

  check_decoded-signed :
      (reader : Bytes)
      → check_decoded h label key reader (some signed) ≡ (
          if bytes_eq ws reader
          then cursor_value
              (record { created_at = of_uint64 (to_uint64 value.created_at); id = value.id })
          else err invalid_list)
  unfolding check_decoded starts_with
  check_decoded-signed reader =
      rw
        (
          length-signed,
          take-signed,
          drop-signed,
          bytes_eq_refl (cursor_mac h label key own),
          slice-workspace ws value.id (to_uint64 value.created_at) w i,
          slice-created ws value.id (to_uint64 value.created_at) w i,
          slice-id ws value.id (to_uint64 value.created_at) w i,
          from_be-put_uint64 (to_uint64 value.created_at) (to_uint64-lt value.created_at),
        )
        (ground arith)

  length-encoded : length encoded ≤ 98
  length-encoded = omega (arith, length-base64_encode signed, length-signed)

  decode-encoded :
      (longest : ℕ) (reader : Bytes)
      → 98 ≤ longest
      → key ≢ zero_key
      → reader ≢ nil_uuid
      → decode_cursor h label longest key reader encoded
        ≡ check_decoded h label key reader (some signed)
  unfolding decode_cursor
  decode-encoded longest reader fits some_key some_reader =
      rw (base64_decode-encode signed signed-IsByte) (
        ground (
          arith,
          length-encoded,
          bytes_eq_iff key zero_key,
          bytes_eq_iff reader nil_uuid,
          base64_encode-is_empty 1 (
              ws
              ++ (put_uint64 (to_uint64 value.created_at) ++ value.id)
              ++ cursor_mac h label key own),
        ))

  value-accepted :
      InInt64 value.created_at
      → value.id ≢ nil_uuid
      → value.created_at ≢ zero_time
      → cursor_value (record { created_at = of_uint64 (to_uint64 value.created_at); id = value.id })
        ≡ ok value
  unfolding cursor_value
  value-accepted range some_id some_time =
      rw (of_uint64-to_uint64 value.created_at range)
        (ground (arith, bytes_eq_iff value.id nil_uuid, eq_ℤ_iff value.created_at zero_time))

-- A delivery cursor that was written for a workspace is read back in that workspace, if its time is
-- in the range of nanoseconds of int64.
pub decode_delivery_cursor-encode :
    (h : Hmac) (key ws raw : Bytes) (value : ListCursor)
    → IsUuid ws
    → IsUuid value.id
    → InInt64 value.created_at
    → encode_delivery_cursor h key ws value ≡ ok raw
    → decode_delivery_cursor h key ws raw ≡ ok value
unfolding encode_delivery_cursor decode_delivery_cursor
decode_delivery_cursor-encode h key ws raw value w i range written =
    let (made, some_key, some_ws, some_id, some_time) =
      encoded_of h delivery_label key ws value w i raw written in
    rw made (
      decode-encoded h delivery_label key ws value w i 256 ws (omega arith) some_key some_ws
      ∙ check_decoded-signed h delivery_label key ws value w i ws
      ∙ rw (bytes_eq_refl ws)
          (value-accepted h delivery_label key ws value w i range some_id some_time))

-- A delivery cursor that was written for a workspace is refused in every other workspace that is not
-- the nil UUID.
pub decode_delivery_cursor-other :
    (h : Hmac) (key ws reader raw : Bytes) (value : ListCursor)
    → IsUuid ws
    → IsUuid value.id
    → encode_delivery_cursor h key ws value ≡ ok raw
    → reader ≢ nil_uuid
    → reader ≢ ws
    → decode_delivery_cursor h key reader raw ≡ err invalid_list
unfolding encode_delivery_cursor decode_delivery_cursor
decode_delivery_cursor-other h key ws reader raw value w i written some_reader other =
    let (made, some_key, some_ws, some_id, some_time) =
      encoded_of h delivery_label key ws value w i raw written in
    rw made (
      decode-encoded h delivery_label key ws value w i 256 reader (omega arith) some_key some_reader
      ∙ check_decoded-signed h delivery_label key ws value w i reader
      ∙ ground (arith, bytes_eq_iff ws reader))
