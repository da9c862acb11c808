-- ===== src/Ratelimit/Quota/Examples.antt =====
-- A procedure that counts its calls.
use go_webhook_delivery.Common.{ℕ, ◌+◌, ◌*◌, true, some, [], bytes, pos}
use go_webhook_delivery.Golang.Time.{second}
use go_webhook_delivery.Delivery.Outbound.Examples.{platform}
use go_webhook_delivery.Auth.{Principal}
use go_webhook_delivery.Tenanttx.{Connection, lost}
use go_webhook_delivery.Ratelimit.Quota.{LimitPolicy, Procedure, middleware}
use go_webhook_delivery.Ratelimit.Quota.Rollback.{Consumes, middleware-Consumes}

abbrev counting : Procedure ℕ
counting call n = some ((true, pos 0), n + 1)

abbrev policy : LimitPolicy
policy = record {
  operation = bytes "replay";
  global = pos 1000;
  workspace = pos 10;
  api_key = pos 10;
  resource = pos 2;
  window = pos (60 * second);
}

abbrev caller : Principal
caller = record { api_key_id = bytes "k"; workspace_id = bytes "w"; scopes = [] }

abbrev connection : Connection
connection = record { begins = true; sets_workspace = true; commits = lost }

middleware-Consumes_example :
    Consumes counting platform.hmac (bytes "pepper") connection policy (some caller) (bytes "d") 0 (
      middleware counting platform.hmac
        (bytes "pepper")
        connection
        policy
        (some caller)
        (bytes "d")
        0)
middleware-Consumes_example =
    middleware-Consumes counting platform.hmac (bytes "pepper") connection policy (some caller)
      (bytes "d") 0
