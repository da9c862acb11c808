-- ===== src/Delivery/Outbound/Sent.antt =====
-- What has been checked, and what the receiver can check, of a request that is sent.
use go_webhook_delivery.Common.{
  ℕ, ◌+◌, ◌*◌, ◌/◌, ◌≤◌, ◌<◌, ◌≡◌, ◌≢◌, refl, ap, sym, ◌∙◌, Option, none, some, [], arith,
  if◌then◌else◌, true, false, Bool-cases, inl, inr, ◌⊎◌, Bytes, bytes, is_empty, bytes_eq_iff, ℤ,
  pos, Result, ok, err, bind-ok, require-ok, All,
}
use go_webhook_delivery.Golang.Decimal.{format_int}
use go_webhook_delivery.Golang.Time.{second, unix_seconds}
use go_webhook_delivery.Signing.{Hmac, verify}
use go_webhook_delivery.Signing.Headers.{IsPlain}
use go_webhook_delivery.Signing.Accepts.{verify-one, verify-rotation}
use go_webhook_delivery.Outboundhttp.{is_production}
use go_webhook_delivery.Delivery.Types.{Claim, ClaimSecret}
use go_webhook_delivery.Delivery.Results.{permanent_result}
use go_webhook_delivery.Delivery.Requests.{
  Request, OpenedClaim, Platform, Runner, Times, destination_policy, open_claim, target_text,
  target_url, signed_entry, signature_header, build_request, prepare,
}
use go_webhook_delivery.Delivery.Outbound.{finish_delivery, deliver}

-- The request of an opened claim: to the claim's authority and the opened path, with the opened
-- payload and the signature header of the opened secrets for the printed time.
abbrev pub signed_request : Platform → ℤ → Claim → Option ClaimSecret → OpenedClaim → Request
signed_request p now c retiring o = record {
  url = target_text p c o.path;
  content_type = bytes "application/json";
  signature_version = bytes "v1";
  timestamp = format_int (unix_seconds now);
  event_id = p.uuid_string c.event_id;
  delivery_id = p.uuid_string c.delivery_id;
  signature = signature_header p (unix_seconds now) c o retiring;
  body = o.payload;
}

-- Scheme https, or http where it is allowed and the profile is not production.
abbrev pub SchemeAllowed : Runner → Claim → Type 0
SchemeAllowed r c =
    (c.scheme ≡ bytes "https")
    ⊎ ((c.scheme ≡ bytes "http") × (r.allow_http ≡ true) × (is_production r.profile ≡ false))

-- All that the attempt has passed before it sends the request.
pub record Sent (p : Platform) (r : Runner) (t : Times) (c : Claim) (request : Request)
    : Type 0 where
  pub scheme : SchemeAllowed r c
  pub opened : OpenedClaim
  pub opens : open_claim p r c ≡ ok opened
  pub valid : p.valid_uri (target_text p c opened.path) ≡ true
  pub made : request ≡ signed_request p t.signed c c.retiring opened

destination_policy-nil :
    (r : Runner) (c : Claim) → is_empty (destination_policy r c) ≡ true → SchemeAllowed r c
unfolding destination_policy
destination_policy-nil r c h =
    ground (arith, bytes_eq_iff c.scheme (bytes "http"), bytes_eq_iff c.scheme (bytes "https"))

module _ (p : Platform) where
  target_url-ok :
      (c : Claim) (path target : Bytes)
      → target_url p c path ≡ ok target
      → (p.valid_uri (target_text p c path) ≡ true) × (target ≡ target_text p c path)
  unfolding target_url
  target_url-ok c path target h = let k = require-ok _ _ _ _ h in (k.0, sym k.1)

  prepare-ok :
      (r : Runner) (t : Times) (c : Claim) (request : Request)
      → prepare p r t c ≡ ok request
      → is_empty (destination_policy r c) ≡ true
      → Sent p r t c request
  unfolding prepare build_request
  prepare-ok r t c request h policy =
      let (opened, opens, h') = bind-ok _ _ _ h in
      let (target, made, h'') = bind-ok _ _ _ h' in
      let fields = (require-ok _ _ _ _ h'').1 in
      record {
        scheme = destination_policy-nil r c policy;
        opened = opened;
        opens = opens;
        valid = (target_url-ok c opened.path target made).0;
        made =
            sym fields
            ∙ ap (λ u. record (signed_request p t.signed c c.retiring opened) { url = u })
                (target_url-ok c opened.path target made).1;
      }

  finish_delivery-sent :
      (r : Runner) (t : Times) (m : Result Bytes Request) (request : Request)
      → (finish_delivery p r t m).1 ≡ some request
      → m ≡ ok request
  unfolding finish_delivery
  finish_delivery-sent r t (ok q) request h = cc
  finish_delivery-sent r t (err e) request h = absurd cc

  -- A request is only sent to a destination with scheme https, or http where it is allowed and the
  -- profile is not production; after every envelope of the claim was opened; to the claim's
  -- authority and the opened path, with the opened payload as its body and the signature header of
  -- the opened secrets for the printed timestamp.
  pub deliver-Sent :
      (r : Runner) (t : Times) (c : Claim) (request : Request)
      → (deliver p r t c).1 ≡ some request
      → Sent p r t c request
  unfolding deliver
  deliver-Sent r t c request h = elim (Bool-cases (is_empty (destination_policy r c))) [
    | inl e ↦
        prepare-ok r t c request
          (finish_delivery-sent r t (prepare p r t c) request (
            sym (
              ap
                (λ b.
                  (if b
                    then finish_delivery p r t (prepare p r t c)
                    else (permanent_result none (pos 0) (destination_policy r c), none)).1)
                e)
            ∙ h))
          e
    | inr e ↦ absurd (ground arith)
  ]

-- The receiver's clock `now` lies within the skew `k` of the time of signing `at`.
pub record InTime (now k at : ℕ) : Type 0 where
  pub positive : 0 < k
  pub small : k ≤ 900 * second
  pub range : at / second < 9000000000000000000
  pub late : now ≤ (at / second) * second + k
  pub early : (at / second) * second ≤ now + k

-- Key identifiers as the program makes them: non-empty, of plain characters, and distinct.
abbrev pub PlainKeys : Bytes → Option ClaimSecret → Type 0
PlainKeys key_id none = All IsPlain key_id × (key_id ≢ [])
PlainKeys key_id (some s) =
    All IsPlain key_id
    × (key_id ≢ [])
    × All IsPlain s.key_id
    × (s.key_id ≢ [])
    × (key_id ≢ s.key_id)

-- The receiver's check of the request, under a key and its secret.
abbrev pub Verifies : Hmac → ℕ → ℕ → Request → Bytes → Bytes → Type 0
Verifies h now k q key_id secret =
    verify h secret (pos now) (pos k) q.timestamp q.event_id q.delivery_id key_id q.signature q.body
    ≡ ok tt

-- It passes under the active key, and under the retiring one where there is one.
abbrev pub VerifiesAll : Hmac → ℕ → ℕ → Request → OpenedClaim → Bytes → Option ClaimSecret → Type 0
VerifiesAll h now k q o key_id none = Verifies h now k q key_id o.secret
VerifiesAll h now k q o key_id (some s) =
    Verifies h now k q key_id o.secret × Verifies h now k q s.key_id o.retiring

module _ (p : Platform) where
  signature_header-Verifies :
      (now k at : ℕ) (c : Claim) (retiring : Option ClaimSecret) (o : OpenedClaim)
      → InTime now k at
      → PlainKeys c.key_id retiring
      → VerifiesAll p.hmac now k (signed_request p (pos at) c retiring o) o c.key_id retiring
  unfolding signature_header signed_entry unix_seconds
  signature_header-Verifies now k at c none o i plain =
      verify-one p.hmac o.secret now (at / second) k _ _ c.key_id o.payload i.positive i.small
        i.range i.late i.early plain.0 plain.1
  signature_header-Verifies now k at c (some s) o i plain =
      verify-rotation p.hmac o.secret o.retiring now (at / second) k _ _ c.key_id s.key_id o.payload
        i.positive i.small i.range i.late i.early plain.0 plain.2 plain.1 plain.3 plain.4 _ refl

  -- A request that is sent is one that its receiver accepts: `Verify` passes on its headers and its
  -- body with the secret of the claim's key, and during a rotation with that of the retiring key as
  -- well, at every time within the allowed skew of the time of signing. The key identifiers are
  -- non-empty, of plain characters, and distinct.
  pub deliver-Verifies :
      (r : Runner) (t : Times) (c : Claim) (request : Request) (now k at : ℕ)
      → (deliver p r t c).1 ≡ some request
      → t.signed ≡ pos at
      → InTime now k at
      → PlainKeys c.key_id c.retiring
      → (o : OpenedClaim) × (open_claim p r c ≡ ok o)
        × VerifiesAll p.hmac now k request o c.key_id c.retiring
  deliver-Verifies r t c request now k at h signed i plain =
      let s = deliver-Sent p r t c request h in
      (
        s.opened,
        s.opens,
        rw (s.made, signed) (signature_header-Verifies now k at c c.retiring s.opened i plain),
      )
