-- ===== src/Delivery/Results/Shape.antt =====
-- How a reply is classified, and what is finalized.
use go_webhook_delivery.Common.{
  ℕ, ◌≤◌, ◌<◌, ◌≡◌, refl, Bool, true, false, Option, none, some, [], arith, Bytes, bytes, ltb,
  if◌then◌else◌, ◌==◌, ℤ, pos, negsuc, int16, eq_ℤ, is_empty,
}
use go_webhook_delivery.Delivery.Types.{Disposition, success, retry, permanent_failure, Outcome}
use go_webhook_delivery.Delivery.Retry.{retry_after}
use go_webhook_delivery.Delivery.Results.{
  SendError, max_response, retry_result, permanent_result, classify_error, classify_response,
}

-- The status codes of HTTP.
abbrev pub InHttp : Option ℤ → Type 0
InHttp none = Unit
InHttp (some (pos n)) = (100 ≤ n) × (n ≤ 599)
InHttp (some (negsuc n)) = ⊥

abbrev pub Is2xx : Option ℤ → Type 0
Is2xx none = ⊥
Is2xx (some (pos n)) = (200 ≤ n) × (n ≤ 299)
Is2xx (some (negsuc n)) = ⊥

-- What a result of each kind looks like: a success has a 2xx status and no category, all others
-- have a category.
abbrev pub Shaped : Disposition → Option ℤ → Bytes → Type 0
Shaped success status category = Is2xx status × (is_empty category ≡ true)
Shaped retry status category = InHttp status × (is_empty category ≡ false)
Shaped permanent_failure status category = is_empty category ≡ false

abbrev pub IsShaped : Outcome → Type 0
IsShaped o = Shaped o.disposition o.http_status o.category

pub IsShaped-if :
    (b : Bool) (x y : Outcome)
    → (b ≡ true → IsShaped x)
    → (b ≡ false → IsShaped y)
    → IsShaped (if b then x else y)
IsShaped-if true x y hx hy = hx refl
IsShaped-if false x y hx hy = hy refl

pub int16_id : (n : ℕ) → n < 32768 → int16 (pos n) ≡ pos n
unfolding int16
int16_id n h = ground arith

-- A result of each kind, with a category that is written out.
IsShaped-permanent_result :
    (status : Option ℤ) (d : ℤ) (category : Bytes)
    → is_empty category ≡ false
    → IsShaped (permanent_result status d category)
unfolding permanent_result
IsShaped-permanent_result status d category h = h

IsShaped-retry_result :
    (status : Option ℤ) (category : Bytes) (d : ℤ)
    → InHttp status
    → is_empty category ≡ false
    → IsShaped (retry_result status category d)
unfolding retry_result
IsShaped-retry_result status category d i h = (i, h)

pub classify_error-IsShaped :
    (e : SendError) (status : Option ℤ) → IsShaped (classify_error e status)
unfolding classify_error
classify_error-IsShaped e status =
    IsShaped-if e.is_redirect _ _ (λ _. refl)
      (λ _.
        IsShaped-if e.is_policy _ _ (λ _. refl)
          (λ _.
            IsShaped-if e.is_deadline _ _ (λ _. (tt, refl))
              (λ _.
                IsShaped-if e.is_canceled _ _ (λ _. (tt, refl))
                  (λ _. IsShaped-if e.is_timeout _ _ (λ _. (tt, refl)) (λ _. (tt, refl))))))

-- A status that a response can have, by its class.
pub data StatusClass : Type 0 where
  delivered retryable refused invalid_status : StatusClass

-- The classes, by intervals.
abbrev pub class_of : ℕ → StatusClass
class_of n =
    if ltb n 100
    then invalid_status
    else if ltb n 200
    then refused
    else if ltb n 300
    then delivered
    else if n == 408
    then retryable
    else if n == 425
    then retryable
    else if n == 429
    then retryable
    else if ltb n 500
    then refused
    else if ltb n 600
    then retryable
    else invalid_status

-- The result for a status of a class.
abbrev pub of_class : StatusClass → ℕ → ℤ → Outcome
of_class delivered n d = record {
  disposition = success;
  http_status = some (pos n);
  duration_ms = pos 0;
  category = [];
  retry_after = pos 0;
}
of_class retryable n d = record {
  disposition = retry;
  http_status = some (pos n);
  duration_ms = pos 0;
  category = bytes "http_retryable";
  retry_after = d;
}
of_class refused n d = record {
  disposition = permanent_failure;
  http_status = some (pos n);
  duration_ms = pos 0;
  category = bytes "http_permanent";
  retry_after = pos 0;
}
of_class invalid_status n d = record {
  disposition = permanent_failure;
  http_status = none;
  duration_ms = pos 0;
  category = bytes "invalid_http_status";
  retry_after = pos 0;
}

-- The result of a response whose body was read and has at most 64 KiB is that of its status's
-- class, for every status that is not negative.
pub classify_response_lem :
    (parse_time : Bytes → Option ℤ) (cap now : ℤ) (n size : ℕ) (header : Bytes)
    → size ≤ max_response
    → classify_response parse_time cap now (record {
      status = pos n;
      body_size = size;
      read_fails = false;
      retry_after_header = header;
    })
      ≡ of_class (class_of n) n (retry_after parse_time header now cap)
unfolding classify_response eq_ℤ
classify_response_lem parse_time cap now n size header h = ground (arith, int16_id n)
