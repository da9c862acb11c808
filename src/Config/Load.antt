-- ===== src/Config/Load.antt =====
-- `Load` of internal/platform/config/config.go.
pub mod Hardened
mod Examples
use go_webhook_delivery.Common.{List, Bytes, Result, ok, ◌>>=◌, ◌>>◌}
use go_webhook_delivery.Config.{Service, Config, ConfigError, defaults}
use go_webhook_delivery.Config.Readers.{Readers, Environment}
use go_webhook_delivery.Config.Environment.{apply_environment}
use go_webhook_delivery.Config.Flags.{apply_flags}
use go_webhook_delivery.Config.Validation.{Checks, validate}

unfoldable pub load :
    Readers → Checks → Environment → Service → List Bytes → Result ConfigError Config
load r k env service args = do
  c0 ← defaults service
  c1 ← apply_environment r env c0
  c2 ← apply_flags r args c1
  validate k c2
  ok c2
