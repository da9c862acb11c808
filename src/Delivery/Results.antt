-- ===== src/Delivery/Results.antt =====
-- The results of internal/delivery/outbound.go and what `Finalize` of postgres.go makes of them.

pub mod Shape
pub mod Finalized
use go_webhook_delivery.Common.{
  ℕ, ◌+◌, ◌*◌, min, Bool, true, false, not, ◌&&◌, ◌||◌, Option, none, some, List, [], ◌∷◌, ◌++◌,
  ltb, leb, ◌==◌, if◌then◌else◌, Bytes, bytes, bytes_eq, is_empty, ℤ, pos, ltb_ℤ, leb_ℤ, eq_ℤ,
  int16, quot, ◌-ℤ◌, Result, ok, err, ◌>>=◌, ◌>>◌, require, map_err,
}
use go_webhook_delivery.Golang.Decimal.{format_int}
use go_webhook_delivery.Golang.Time.{time_sub, unix_seconds}
use go_webhook_delivery.Cryptobox
use go_webhook_delivery.Cryptobox.{
  Envelope, Keyring, Aead, unseal, associated_data, legacy_format_version,
}
use go_webhook_delivery.Cryptobox.Keyrings.{Materials}
use go_webhook_delivery.Signing.{Hmac, sign, header_value}
use go_webhook_delivery.Outboundhttp.{Profile, is_production, authority}
use go_webhook_delivery.Delivery.Types.{
  Claim, ClaimSecret, Disposition, success, retry, permanent_failure, Outcome,
}
use go_webhook_delivery.Delivery.Retry.{RetryPolicy, retry_delay, retry_after}

-- Which of the tests on the error of `client.Do` it passes.
pub record SendError : Type 0 where
  pub is_redirect : Bool
  pub is_policy : Bool
  pub is_deadline : Bool
  pub is_canceled : Bool
  pub is_timeout : Bool

pub record Response : Type 0 where
  pub status : ℤ
  pub body_size : ℕ
  pub read_fails : Bool
  pub retry_after_header : Bytes

-- With an error there may be a response, of which only the status is read.
pub data Reply : Type 0 where
  answered : Response → Reply
  send_failed : SendError → Option ℤ → Reply

-- The arguments of the stored procedure that finalizes the attempt.
pub record Finalization : Type 0 where
  pub disposition : Disposition
  pub http_status : Option ℤ
  pub duration_ms : ℤ
  pub category : Bytes
  pub retry_delay : Option ℤ

abbrev pub max_response : ℕ
max_response = 65536

-- `elapsed`, in milliseconds. The test against the largest int never passes where it has 64 bits.
unfoldable pub elapsed : ℤ → ℤ → ℤ
elapsed from to =
    let value = quot (time_sub to from) 1000000 in if ltb_ℤ value (pos 0) then pos 0 else value

unfoldable pub retry_result : Option ℤ → Bytes → ℤ → Outcome
retry_result status category server_delay = record {
  disposition = retry;
  http_status = status;
  duration_ms = pos 0;
  category = category;
  retry_after = server_delay;
}

unfoldable pub permanent_result : Option ℤ → ℤ → Bytes → Outcome
permanent_result status duration category = record {
  disposition = permanent_failure;
  http_status = status;
  duration_ms = duration;
  category = category;
  retry_after = pos 0;
}

unfoldable pub retryable_status : ℤ → Bool
retryable_status status =
    eq_ℤ status (pos 408)
    || eq_ℤ status (pos 425)
    || eq_ℤ status (pos 429)
    || (leb_ℤ (pos 500) status && leb_ℤ status (pos 599))

int16_of : Option ℤ → Option ℤ
int16_of none = none
int16_of (some n) = some (int16 n)

-- The error of `client.Do`, with the response's status where there is one.
unfoldable pub classify_error : SendError → Option ℤ → Outcome
unfolding permanent_result retry_result int16_of
classify_error e status =
    if e.is_redirect
    then permanent_result (int16_of status) (pos 0) (bytes "redirect")
    else if e.is_policy
    then permanent_result none (pos 0) (bytes "ssrf_policy")
    else if e.is_deadline
    then retry_result none (bytes "timeout") (pos 0)
    else if e.is_canceled
    then retry_result none (bytes "cancelled") (pos 0)
    else if e.is_timeout
    then retry_result none (bytes "timeout") (pos 0)
    else retry_result none (bytes "network") (pos 0)

-- A response; at most one byte more than `max_response` is read.
unfoldable pub classify_response : (Bytes → Option ℤ) → ℤ → ℤ → Response → Outcome
unfolding permanent_result retry_result retryable_status
classify_response parse_time cap now w =
    if w.read_fails
    then retry_result none (bytes "response_read") (pos 0)
    else if ltb max_response (min w.body_size (max_response + 1))
    then permanent_result none (pos 0) (bytes "response_too_large")
    else if ltb_ℤ w.status (pos 100) || ltb_ℤ (pos 599) w.status
    then permanent_result none (pos 0) (bytes "invalid_http_status")
    else if leb_ℤ (pos 200) w.status && ltb_ℤ w.status (pos 300)
    then (record {
      disposition = success;
      http_status = some (int16 w.status);
      duration_ms = pos 0;
      category = [];
      retry_after = pos 0;
    })
    else if retryable_status w.status
    then retry_result (some (int16 w.status)) (bytes "http_retryable")
        (retry_after parse_time w.retry_after_header now cap)
    else permanent_result (some (int16 w.status)) (pos 0) (bytes "http_permanent")

unfoldable pub execute : (Bytes → Option ℤ) → ℤ → ℤ → Reply → Outcome
unfolding classify_error classify_response
execute parse_time cap now (answered w) = classify_response parse_time cap now w
execute parse_time cap now (send_failed e status) = classify_error e status

-- `normalizeResult`.
normalize_result : Outcome → Option ℤ → Outcome
normalize_result o none = o
normalize_result o (some status) =
    if leb_ℤ (pos 100) status && leb_ℤ status (pos 599) then o else record o {
      http_status = none;
      disposition = permanent_failure;
      category = bytes "invalid_http_status";
      retry_after = pos 0;
    }

delay_of : Disposition → ℤ → Option ℤ
delay_of retry d = some d
delay_of success d = none
delay_of permanent_failure d = none

-- `Finalize`.
unfoldable pub finalize : Outcome → Finalization
unfolding normalize_result delay_of
finalize o =
    let n = normalize_result o o.http_status in
    record {
      disposition = n.disposition;
      http_status = n.http_status;
      duration_ms = n.duration_ms;
      category = n.category;
      retry_delay = delay_of n.disposition n.retry_after;
    }
