-- ===== src/Delivery/Outbound/Final.antt =====
-- Every attempt ends in a finalization that the store accepts.
use go_webhook_delivery.Common.{
  ◌≡◌, refl, Option, none, some, false, Bool-cases, inl, inr, Bytes, is_empty, ℤ, pos, ◌<ℤ◌,
  InInt64, Result, ok, err, List, FailsWith, FailsWith-bind, Result-cases,
}
use go_webhook_delivery.Cryptobox.{Envelope, Keyring, unseal, associated_data}
use go_webhook_delivery.Delivery.Types.{
  Claim, ClaimSecret, Disposition, success, retry, permanent_failure, Outcome,
}
use go_webhook_delivery.Delivery.Retry.Bounds.{retry_delay_bounds}
use go_webhook_delivery.Delivery.Results.{permanent_result}
use go_webhook_delivery.Delivery.Results.Shape.{IsShaped}
use go_webhook_delivery.Delivery.Results.Finalized.{
  execute-IsShaped, FinalFor, DelayIn, finalize-FinalFor,
}
use go_webhook_delivery.Delivery.Requests.{
  Request, OpenedClaim, Platform, Runner, Times, destination_policy, open_as, open_retiring,
  open_claim, target_text, target_url, build_request, prepare,
}
use go_webhook_delivery.Delivery.Outbound.{finish_delivery, deliver, with_delay, process_claim}

-- A failure before the request names its category.
abbrev IsNamed : Bytes → Type 0
IsNamed category = is_empty category ≡ false

module _ (p : Platform) where
  open_as-IsNamed :
      (category : Bytes) (ring : Keyring) (e : Envelope) (parts : List Bytes)
      → IsNamed category
      → FailsWith IsNamed (open_as p category ring e parts)
  unfolding open_as
  open_as-IsNamed category ring e parts h =
      elim (Result-cases (unseal p.aead ring e (associated_data parts))) [
        | inl (a, f) ↦ rw f tt
        | inr (x, f) ↦ rw f h
      ]

  open_retiring-IsNamed :
      (r : Runner) (c : Claim) (s : Option ClaimSecret) → FailsWith IsNamed (open_retiring p r c s)
  unfolding open_retiring
  open_retiring-IsNamed r c none = tt
  open_retiring-IsNamed r c (some s) = open_as-IsNamed _ _ _ _ refl

  open_claim-IsNamed : (r : Runner) (c : Claim) → FailsWith IsNamed (open_claim p r c)
  unfolding open_claim
  open_claim-IsNamed r c = FailsWith-bind IsNamed _ _ (open_as-IsNamed _ _ _ _ refl) (λ path.
      FailsWith-bind IsNamed _ _ (open_as-IsNamed _ _ _ _ refl) (λ payload.
        FailsWith-bind IsNamed _ _ (open_as-IsNamed _ _ _ _ refl) (λ secret.
          FailsWith-bind IsNamed _ _ (open_retiring-IsNamed r c c.retiring) (λ retiring. tt))))

  target_url-IsNamed : (c : Claim) (path : Bytes) → FailsWith IsNamed (target_url p c path)
  unfolding target_url
  target_url-IsNamed c path = elim (Bool-cases (p.valid_uri (target_text p c path))) [
    | inl e ↦ rw e tt
    | inr e ↦ rw e refl
  ]

  build_request-IsNamed :
      (now : ℤ) (target : Bytes) (c : Claim) (o : OpenedClaim)
      → FailsWith IsNamed (build_request p now target c o)
  unfolding build_request
  build_request-IsNamed now target c o = elim (Bool-cases (p.can_build target)) [
    | inl e ↦ rw e tt
    | inr e ↦ rw e refl
  ]

  prepare-IsNamed : (r : Runner) (t : Times) (c : Claim) → FailsWith IsNamed (prepare p r t c)
  unfolding prepare
  prepare-IsNamed r t c = FailsWith-bind IsNamed _ _ (open_claim-IsNamed r c) (λ opened.
      FailsWith-bind IsNamed _ _ (target_url-IsNamed c opened.path)
        (λ target. build_request-IsNamed t.signed target c opened))

  finish_delivery-IsShaped :
      (r : Runner) (t : Times) (m : Result Bytes Request)
      → FailsWith IsNamed m
      → IsShaped (finish_delivery p r t m).0
  unfolding finish_delivery permanent_result
  finish_delivery-IsShaped r t (err category) h = h
  finish_delivery-IsShaped r t (ok request) h =
      execute-IsShaped p.parse_time r.retry_policy.cap t.received (p.send request)

  deliver-IsShaped : (r : Runner) (t : Times) (c : Claim) → IsShaped (deliver p r t c).0
  unfolding deliver permanent_result
  deliver-IsShaped r t c = elim (Bool-cases (is_empty (destination_policy r c))) [
    | inl e ↦ rw e (finish_delivery-IsShaped r t (prepare p r t c) (prepare-IsNamed r t c))
    | inr e ↦ rw e e
  ]

  with_delay-IsShaped :
      (r : Runner) (c : Claim) (d : Disposition) (o : Outcome)
      → IsShaped o
      → IsShaped (with_delay p r c d o)
  unfolding with_delay
  with_delay-IsShaped r c retry o h = h
  with_delay-IsShaped r c success o h = h
  with_delay-IsShaped r c permanent_failure o h = h

  with_delay-DelayIn :
      (r : Runner) (c : Claim) (d : Disposition) (o : Outcome)
      → o.disposition ≡ d
      → InInt64 r.retry_policy.cap
      → pos 0 <ℤ r.retry_policy.cap
      → (let o' = with_delay p r c d o in DelayIn r.retry_policy.cap o'.disposition o'.retry_after)
  unfolding with_delay
  with_delay-DelayIn r c retry o e range positive =
      let b = retry_delay_bounds p.random r.retry_policy c.attempt_number o.retry_after range in
      rw e (b.0, b.1 positive)
  with_delay-DelayIn r c success o e range positive = rw e tt
  with_delay-DelayIn r c permanent_failure o e range positive = rw e tt

  -- Let the cap of the retry policy be positive and in the range of int64. Then whatever the keys,
  -- the target and the network do, the attempt ends in a finalization whose parts fit together: a
  -- status is one of HTTP, a success has a 2xx status, no category and no delay, a retry has a
  -- category and a delay between 0 and the cap, and a permanent failure has a category and no delay.
  pub process_claim-FinalFor :
      (r : Runner) (t : Times) (c : Claim)
      → InInt64 r.retry_policy.cap
      → pos 0 <ℤ r.retry_policy.cap
      → FinalFor r.retry_policy.cap (process_claim p r t c)
  unfolding process_claim
  process_claim-FinalFor r t c range positive =
      finalize-FinalFor r.retry_policy.cap _ (with_delay-IsShaped r c _ _ (deliver-IsShaped r t c))
        (with_delay-DelayIn r c _ _ refl range positive)
