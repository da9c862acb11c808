-- ===== src/Signing/Sound.antt =====
-- What `Verify` has checked when it accepts.
use go_webhook_delivery.Common.{
  ◌*◌, ◌≡◌, some, arith, Bytes, bytes_eq_iff, ℤ, pos, ◌≤ℤ◌, ◌<ℤ◌, ok, Option-cases, inl, inr,
}
use go_webhook_delivery.Golang.Decimal.{parse_int, int64_bound}
use go_webhook_delivery.Golang.Base64.{base64_decode}
use go_webhook_delivery.Golang.Time.{second}
use go_webhook_delivery.Signing.{Hmac, canonical, signature_for_key, skew, verify}
use go_webhook_delivery.Signing.Accepts.{base64_decode-sign}

-- All that an accepted call has passed.
pub record Accepted (h : Hmac) (secret : Bytes) (now max_skew : ℤ)
    (timestamp event_id delivery_id key_id header body : Bytes) : Type 0 where
  pub allowed : (pos 0 <ℤ max_skew) × (max_skew ≤ℤ pos (900 * second))
  pub seconds : ℤ
  pub parsed : parse_int int64_bound timestamp ≡ some seconds
  pub near : skew now seconds ≤ℤ max_skew
  pub signature : Bytes
  pub found : signature_for_key header key_id ≡ some signature
  pub authentic :
      base64_decode signature
      ≡ some (h.mac secret (canonical seconds event_id delivery_id key_id body))

module _ (h : Hmac) where
  -- Whatever the arguments, an accepted call had an allowed skew between 0 and 15 minutes, a decimal
  -- timestamp within it (as `skew` computes), and under the key an entry whose signature decodes to
  -- the HMAC of the canonical text under the secret.
  pub verify-Accepted :
      (secret : Bytes) (now max_skew : ℤ)
      (timestamp event_id delivery_id key_id header body : Bytes)
      → verify h secret now max_skew timestamp event_id delivery_id key_id header body ≡ ok tt
      → Accepted h secret now max_skew timestamp event_id delivery_id key_id header body
  unfolding verify
  verify-Accepted secret now max_skew timestamp event_id delivery_id key_id header body ok_ =
      elim (Option-cases (parse_int int64_bound timestamp)) [
        | inl e ↦ absurd (ground arith)
        | inr (seconds, e) ↦ elim (Option-cases (signature_for_key header key_id)) [
          | inl f ↦ absurd (ground arith)
          | inr (signature, f) ↦ elim (Option-cases (base64_decode signature)) [
            | inl g ↦ absurd (ground arith)
            | inr (decoded, g) ↦ record {
              allowed = ground arith;
              seconds = seconds;
              parsed = e;
              near = ground arith;
              signature = signature;
              found = f;
              authentic = ground (
                arith,
                base64_decode-sign h secret seconds event_id delivery_id key_id body,
                bytes_eq_iff decoded
                    (h.mac secret (canonical seconds event_id delivery_id key_id body)),
              );
            }
          ]
        ]
      ]
