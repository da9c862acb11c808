-- ===== src/Ratelimit/Quota.antt =====
-- internal/ratelimit/ratelimit.go: the quotas of authenticated calls. The stored procedure
-- `wde.consume_quota` is an argument, an operation on the state of the database.
pub mod Rollback
mod Examples
use go_webhook_delivery.Common.{
  ℕ, ◌*◌, ◌%◌, Bool, true, false, not, ◌&&◌, ◌||◌, Option, none, some, List, [], ◌∷◌, ◌++◌, ◌==◌,
  if◌then◌else◌, Bytes, bytes, bytes_eq, ℤ, pos, pos_part, ltb_ℤ, quot, to_uint64, Result, ok, err,
  ◌>>=◌, ◌>>◌, require,
}
use go_webhook_delivery.Golang.BigEndian.{put_uint64}
use go_webhook_delivery.Golang.Time.{second}
use go_webhook_delivery.Signing.{Hmac}
use go_webhook_delivery.Delivery.Types.{nil_uuid}
use go_webhook_delivery.Auth.{Principal}
use go_webhook_delivery.Tenanttx.{Connection, within}

pub record LimitPolicy : Type 0 where
  pub operation : Bytes
  pub global : ℤ
  pub workspace : ℤ
  pub api_key : ℤ
  pub resource : ℤ
  pub window : ℤ

pub record Dimension : Type 0 where
  pub type_name : Bytes
  pub workspace_id : Bytes
  pub api_key_id : Bytes
  pub value : Bytes
  pub limit : ℤ

-- The errors: of the arguments, `exceededError` with its delay, and of a call to the database.
pub data QuotaError : Type 0 where
  invalid : QuotaError
  exceeded : ℤ → QuotaError
  unavailable : QuotaError

-- The arguments of `wde.consume_quota`; an identifier is absent where the code passes NULL.
pub record QuotaCall : Type 0 where
  pub digest : Bytes
  pub type_name : Bytes
  pub operation : Bytes
  pub workspace_id : Option Bytes
  pub api_key_id : Option Bytes
  pub resource_id : Option Bytes
  pub limit : ℤ
  pub seconds : ℤ

unfoldable pub unless_nil : Bytes → Option Bytes
unless_nil id = if bytes_eq id nil_uuid then none else some id

unfoldable pub dimension_digest : Hmac → Bytes → LimitPolicy → Dimension → Bytes
dimension_digest h pepper p d = h.mac pepper (
    bytes "quota:v2"
    ++ (10
        ∷ (d.type_name
            ++ (10
                ∷ (p.operation
                    ++ (10
                        ∷ (d.workspace_id
                            ++ (d.api_key_id
                                ++ (d.value
                                    ++ put_uint64 (to_uint64 (quot p.window second)))))))))))

unfoldable pub call_of : Hmac → Bytes → LimitPolicy → Dimension → QuotaCall
unfolding unless_nil
call_of h pepper p d = record {
  digest = dimension_digest h pepper p d;
  type_name = d.type_name;
  operation = p.operation;
  workspace_id = unless_nil d.workspace_id;
  api_key_id = unless_nil d.api_key_id;
  resource_id = if bytes_eq d.type_name (bytes "delivery") then some d.value else none;
  limit = d.limit;
  seconds = quot p.window second;
}

unfoldable pub dimensions_of : Principal → Bytes → LimitPolicy → List Dimension
dimensions_of principal resource_id p =
    record {
      type_name = bytes "global";
      workspace_id = nil_uuid;
      api_key_id = nil_uuid;
      value = nil_uuid;
      limit = p.global;
    }
    ∷ record {
      type_name = bytes "workspace";
      workspace_id = principal.workspace_id;
      api_key_id = nil_uuid;
      value = principal.workspace_id;
      limit = p.workspace;
    }
    ∷ record {
      type_name = bytes "api_key";
      workspace_id = principal.workspace_id;
      api_key_id = principal.api_key_id;
      value = principal.api_key_id;
      limit = p.api_key;
    }
    ∷ (if ltb_ℤ (pos 0) p.resource && not (bytes_eq resource_id nil_uuid)
        then record {
          type_name = bytes "delivery";
          workspace_id = principal.workspace_id;
          api_key_id = nil_uuid;
          value = resource_id;
          limit = p.resource;
        }
          ∷ []
        else [])

-- Whether the call is allowed, the delay, and the state after it; `none` is an error.
abbrev pub Procedure {ℓ} : Type ℓ → Type ℓ
Procedure S = QuotaCall → S → Option ((Bool × ℤ) × S)

unfoldable pub valid_arguments : Principal → LimitPolicy → Bool
valid_arguments principal p = not (
    bytes_eq principal.workspace_id nil_uuid
    || bytes_eq principal.api_key_id nil_uuid
    || ltb_ℤ p.window (pos second)
    || ltb_ℤ (pos (3600 * second)) p.window
    || not (pos_part p.window % second == 0))

module _ {ℓ} {S : Type ℓ} where
  unfoldable pub consumed : Option ((Bool × ℤ) × S) → Result QuotaError S
  consumed none = err unavailable
  consumed (some ((allowed, retry_after), st)) =
      if not allowed then err (exceeded retry_after) else ok st

  -- The loop over the dimensions.
  unfoldable pub consume_all :
      Procedure S
      → Hmac
      → Bytes
      → LimitPolicy
      → List Dimension
      → S
      → Result QuotaError (Unit {0} × S)
  unfolding consumed
  consume_all procedure h pepper p [] st = ok (tt, st)
  consume_all procedure h pepper p (d ∷ ds) st = do
    require (not (ltb_ℤ d.limit (pos 1))) invalid
    after ← consumed (procedure (call_of h pepper p d) st)
    consume_all procedure h pepper p ds after

  -- `Consume`.
  unfoldable pub consume :
      Procedure S
      → Hmac
      → Bytes
      → Connection
      → Principal
      → Bytes
      → LimitPolicy
      → S
      → Result QuotaError (Unit {0}) × S
  consume procedure h pepper c principal resource_id p st =
      if not (valid_arguments principal p)
      then (err invalid, st)
      else within c unavailable
          (consume_all procedure h pepper p (dimensions_of principal resource_id p)) st

-- What `Middleware` does: a problem of a status, with the value of Retry-After, or the next handler.
pub data Answer : Type 0 where
  problem : ℤ → Option ℤ → Answer
  next : Answer

unfoldable pub answer_of : Result QuotaError (Unit {0}) → Answer
answer_of (ok u) = next
answer_of (err (exceeded retry_after)) = problem (pos 429) (some retry_after)
answer_of (err invalid) = problem (pos 503) none
answer_of (err unavailable) = problem (pos 503) none

unfoldable pub middleware {ℓ} :
    {S : Type ℓ}
    → Procedure S
    → Hmac
    → Bytes
    → Connection
    → LimitPolicy
    → Option Principal
    → Bytes
    → S
    → Answer × S
unfolding answer_of
middleware procedure h pepper c p none resource_id st = (problem (pos 401) none, st)
middleware procedure h pepper c p (some principal) resource_id st =
    let r = consume procedure h pepper c principal resource_id p st in (answer_of r.0, r.1)
