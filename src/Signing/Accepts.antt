-- ===== src/Signing/Accepts.antt =====
-- `Verify` accepts what `Sign` made.
use go_webhook_delivery.Common.{
  ℕ, ◌+◌, ◌-◌, ◌*◌, ◌≤◌, ◌<◌, ◌≡◌, ◌≢◌, ap, sym, ◌∙◌, some, some, [], ◌∷◌, ◌++◌, arith, Bytes,
  bytes_eq_refl, length, All, ℤ, pos, negsuc, ◌≤ℤ◌, ◌-ℤ◌, InInt64, add_pos, sub_pos, mul_pos, int64,
  int64_pos, ok,
}
use go_webhook_delivery.Golang.Decimal.{format_int}
use go_webhook_delivery.Golang.Decimal.RoundTrip.{parse_int64-format_int}
use go_webhook_delivery.Golang.Base64.{base64_decode}
use go_webhook_delivery.Golang.Base64.RoundTrip.{
  IsUrlChar, base64_encode-IsUrlChar, base64_decode-encode,
}
use go_webhook_delivery.Golang.Time.{unix_time, time_sub, second, to_internal}
use go_webhook_delivery.Signing.{
  Hmac, canonical, header_value, signature_for_key, sign, skew, verify,
}
use go_webhook_delivery.Signing.Headers.{
  IsPlain, signature_for_key-one, signature_for_key-first, signature_for_key-second,
}

IsUrlChar-IsPlain : (s : Bytes) → All IsUrlChar s → All IsPlain s
IsUrlChar-IsPlain [] h = tt
IsUrlChar-IsPlain (c ∷ s) h = (omega arith, IsUrlChar-IsPlain s h.1)

unix_time_pos : (n : ℕ) → n < 9000000000000000000 → unix_time (pos n) ≡ pos (n * second)
unfolding unix_time
unix_time_pos n h =
    rw
      (
        add_pos n to_internal,
        int64_pos (n + to_internal) (omega arith),
        sub_pos (n + to_internal) to_internal (omega arith),
        mul_pos (n + to_internal - to_internal) second,
      )
      (ap pos (omega arith))

-- Near enough, the skew is the distance.
skew-le :
    (t n k : ℕ)
    → n < 9000000000000000000
    → k ≤ 900 * second
    → t ≤ n * second + k
    → n * second ≤ t + k
    → skew (pos t) (pos n) ≤ℤ pos k
unfolding skew time_sub ◌-ℤ◌ int64
skew-le t n k hn hk late early = rw (unix_time_pos n hn) (ground arith)

-- Too far ahead, the difference saturates, and its negation wraps to itself.
skew_wraps :
    (t n : ℕ)
    → n < 9000000000000000000
    → t + 9223372036854775808 ≤ n * second
    → skew (pos t) (pos n) ≡ negsuc 9223372036854775807
unfolding skew time_sub ◌-ℤ◌ int64
skew_wraps t n hn far = rw (unix_time_pos n hn) (ground arith)

module _ (h : Hmac) where
  pub base64_decode-sign :
      (secret : Bytes) (ts : ℤ) (event_id delivery_id key_id body : Bytes)
      → base64_decode (sign h secret ts event_id delivery_id key_id body)
        ≡ some (h.mac secret (canonical ts event_id delivery_id key_id body))
  unfolding sign
  base64_decode-sign secret ts event_id delivery_id key_id body =
      base64_decode-encode (h.mac secret (canonical ts event_id delivery_id key_id body))
        (h.mac_bytes secret (canonical ts event_id delivery_id key_id body))

  pub sign-IsPlain :
      (secret : Bytes) (ts : ℤ) (event_id delivery_id key_id body : Bytes)
      → All IsPlain (sign h secret ts event_id delivery_id key_id body)
  unfolding sign
  sign-IsPlain secret ts event_id delivery_id key_id body = IsUrlChar-IsPlain _ (
      base64_encode-IsUrlChar _
        (h.mac_bytes secret (canonical ts event_id delivery_id key_id body)))

  decoded_empty : (mac : Bytes) → base64_decode [] ≡ some mac → length mac ≡ 0
  unfolding base64_decode
  decoded_empty mac e = ground arith

  sign-ne-nil :
      (secret : Bytes) (ts : ℤ) (event_id delivery_id key_id body : Bytes)
      → sign h secret ts event_id delivery_id key_id body ≢ []
  sign-ne-nil secret ts event_id delivery_id key_id body e = absurd (
      omega (
        arith,
        decoded_empty (h.mac secret (canonical ts event_id delivery_id key_id body)) (
            ap base64_decode (sym e)
            ∙ base64_decode-sign secret ts event_id delivery_id key_id body),
        h.mac_size secret (canonical ts event_id delivery_id key_id body),
      ))

  -- The check passes once the header gives the signature and the skew is small.
  verify_passes :
      (secret : Bytes) (now : ℤ) (k : ℕ) (ts : ℤ) (event_id delivery_id key_id header body : Bytes)
      → 0 < k
      → k ≤ 900 * second
      → InInt64 ts
      → skew now ts ≤ℤ pos k
      → signature_for_key header key_id ≡ some (sign h secret ts event_id delivery_id key_id body)
      → verify h secret now (pos k) (format_int ts) event_id delivery_id key_id header body ≡ ok tt
  unfolding verify
  verify_passes secret now k ts event_id delivery_id key_id header body positive small range near
        found =
      rw
        (
          parse_int64-format_int ts range,
          found,
          base64_decode-sign secret ts event_id delivery_id key_id body,
        )
        (ground (
          arith,
          h.mac_size secret (canonical ts event_id delivery_id key_id body),
          bytes_eq_refl (h.mac secret (canonical ts event_id delivery_id key_id body)),
        ))

  -- Let the header be that of a delivery during a rotation: the active key's entry and the retiring
  -- key's, under distinct, non-empty key identifiers of plain characters. Then `Verify` accepts it
  -- under either key with that key's secret, at every time within the allowed skew, of at most 15
  -- minutes, of a timestamp of less than 9 * 10 ^ 18 seconds.
  pub verify-rotation :
      (secret retiring : Bytes) (t n k : ℕ) (event_id delivery_id key_id retiring_id body : Bytes)
      → 0 < k
      → k ≤ 900 * second
      → n < 9000000000000000000
      → t ≤ n * second + k
      → n * second ≤ t + k
      → All IsPlain key_id
      → All IsPlain retiring_id
      → key_id ≢ []
      → retiring_id ≢ []
      → key_id ≢ retiring_id
      → (header : Bytes)
      → header
        ≡ header_value key_id (sign h secret (pos n) event_id delivery_id key_id body)
          ++ b';'
            ∷ header_value retiring_id
                (sign h retiring (pos n) event_id delivery_id retiring_id body)
      → (verify h secret
            (pos t)
            (pos k)
            (format_int (pos n))
            event_id
            delivery_id
            key_id
            header
            body
          ≡ ok tt)
        × (verify h retiring
              (pos t)
              (pos k)
              (format_int (pos n))
              event_id
              delivery_id
              retiring_id
              header
              body
            ≡ ok tt)
  verify-rotation secret retiring t n k event_id delivery_id key_id retiring_id body positive small
        hn late early pk pr nk nr ne header made =
      let s = sign h secret (pos n) event_id delivery_id key_id body in
      let s' = sign h retiring (pos n) event_id delivery_id retiring_id body in
      let ps = sign-IsPlain secret (pos n) event_id delivery_id key_id body in
      let ps' = sign-IsPlain retiring (pos n) event_id delivery_id retiring_id body in
      let near = skew-le t n k hn small late early in
      (
        verify_passes secret (pos t) k (pos n) event_id delivery_id key_id header body positive
            small (omega arith) near
            (rw made (
              signature_for_key-first key_id retiring_id s s' pk pr ps ps' nk
                (sign-ne-nil secret (pos n) event_id delivery_id key_id body))),
        verify_passes retiring (pos t) k (pos n) event_id delivery_id retiring_id header body
            positive small (omega arith) near
            (rw made (
              signature_for_key-second key_id retiring_id s s' pk pr ps ps' ne nr
                (sign-ne-nil retiring (pos n) event_id delivery_id retiring_id body))),
      )

  -- The same for a header with one entry.
  pub verify-one :
      (secret : Bytes) (t n k : ℕ) (event_id delivery_id key_id body : Bytes)
      → 0 < k
      → k ≤ 900 * second
      → n < 9000000000000000000
      → t ≤ n * second + k
      → n * second ≤ t + k
      → All IsPlain key_id
      → key_id ≢ []
      → verify h secret
          (pos t)
          (pos k)
          (format_int (pos n))
          event_id
          delivery_id
          key_id
          (header_value key_id (sign h secret (pos n) event_id delivery_id key_id body))
          body
        ≡ ok tt
  verify-one secret t n k event_id delivery_id key_id body positive small hn late early pk nk =
      verify_passes secret (pos t) k (pos n) event_id delivery_id key_id
        (header_value key_id (sign h secret (pos n) event_id delivery_id key_id body)) body positive
        small (omega arith) (skew-le t n k hn small late early)
        (signature_for_key-one key_id _ pk
          (sign-IsPlain secret (pos n) event_id delivery_id key_id body) nk
          (sign-ne-nil secret (pos n) event_id delivery_id key_id body))

  -- A timestamp that lies 2 ^ 63 nanoseconds (some 292 years) or more ahead passes the skew check,
  -- whatever skew is allowed: a header signed for it is accepted at once.
  pub verify-far_future :
      (secret : Bytes) (t n k : ℕ) (event_id delivery_id key_id body : Bytes)
      → 0 < k
      → k ≤ 900 * second
      → n < 9000000000000000000
      → t + 9223372036854775808 ≤ n * second
      → All IsPlain key_id
      → key_id ≢ []
      → verify h secret
          (pos t)
          (pos k)
          (format_int (pos n))
          event_id
          delivery_id
          key_id
          (header_value key_id (sign h secret (pos n) event_id delivery_id key_id body))
          body
        ≡ ok tt
  verify-far_future secret t n k event_id delivery_id key_id body positive small hn far pk nk =
      verify_passes secret (pos t) k (pos n) event_id delivery_id key_id
        (header_value key_id (sign h secret (pos n) event_id delivery_id key_id body)) body positive
        small (omega arith) (rw (skew_wraps t n hn far) (omega arith))
        (signature_for_key-one key_id _ pk
          (sign-IsPlain secret (pos n) event_id delivery_id key_id body) nk
          (sign-ne-nil secret (pos n) event_id delivery_id key_id body))
