-- ===== src/Delivery/Outbound.antt =====
-- `deliver` of internal/delivery/outbound.go and `processClaim` of delivery.go: one attempt, from the
-- claim to what is finalized. A claim that cannot be sent ends without a request.
pub mod Final
pub mod Sent
pub mod Examples
use go_webhook_delivery.Common.{
  ℕ, ◌+◌, ◌*◌, min, Bool, true, false, not, ◌&&◌, ◌||◌, Option, none, some, List, [], ◌∷◌, ◌++◌,
  ltb, leb, ◌==◌, if◌then◌else◌, Bytes, bytes, bytes_eq, is_empty, ℤ, pos, ltb_ℤ, leb_ℤ, eq_ℤ,
  int16, quot, ◌-ℤ◌, Result, ok, err, ◌>>=◌, ◌>>◌, require, map_err,
}
use go_webhook_delivery.Golang.Decimal.{format_int}
use go_webhook_delivery.Golang.Time.{time_sub, unix_seconds}
use go_webhook_delivery.Cryptobox
use go_webhook_delivery.Cryptobox.{
  Envelope, Keyring, Aead, unseal, associated_data, legacy_format_version,
}
use go_webhook_delivery.Cryptobox.Keyrings.{Materials}
use go_webhook_delivery.Signing.{Hmac, sign, header_value}
use go_webhook_delivery.Outboundhttp.{Profile, is_production, authority}
use go_webhook_delivery.Delivery.Results.{
  elapsed, permanent_result, retry_result, execute, finalize, Finalization,
}
use go_webhook_delivery.Delivery.Requests.{
  Request, Platform, Runner, Times, destination_policy, prepare,
}
use go_webhook_delivery.Delivery.Types.{
  Claim, ClaimSecret, Disposition, success, retry, permanent_failure, Outcome,
}
use go_webhook_delivery.Delivery.Retry.{RetryPolicy, retry_delay, retry_after}

module _ (p : Platform) where
  open p use {parse_time, random, send}

  unfoldable pub finish_delivery : Runner → Times → Result Bytes Request → Outcome × Option Request
  unfolding elapsed permanent_result execute
  finish_delivery r t (err category) =
      (permanent_result none (elapsed t.started t.ended) category, none)
  finish_delivery r t (ok request) = (
    record (execute parse_time r.retry_policy.cap t.received (send request)) {
      duration_ms = elapsed t.started t.ended;
    },
    some request,
  )

  -- `deliver`, with the request that was sent.
  unfoldable pub deliver : Runner → Times → Claim → Outcome × Option Request
  unfolding finish_delivery permanent_result destination_policy
  deliver r t c =
      if is_empty (destination_policy r c)
      then finish_delivery r t (prepare p r t c)
      else (permanent_result none (pos 0) (destination_policy r c), none)

  -- The delay of a retry is drawn here.
  unfoldable pub with_delay : Runner → Claim → Disposition → Outcome → Outcome
  with_delay r c retry o = record o {
    retry_after = retry_delay random r.retry_policy c.attempt_number o.retry_after;
  }
  with_delay r c success o = o
  with_delay r c permanent_failure o = o

  -- `processClaim`: the attempt, and what the store is told of it.
  unfoldable pub process_claim : Runner → Times → Claim → Finalization
  process_claim r t c = let o = (deliver r t c).0 in finalize (with_delay r c o.disposition o)
