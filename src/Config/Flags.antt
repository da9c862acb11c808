-- ===== src/Config/Flags.antt =====
-- `applyFlags` of internal/platform/config/environment.go.
use go_webhook_delivery.Common.{
  ℕ, Option, none, some, List, Bytes, bytes, ◌==◌, Result, ok, err, ◌>>◌, require,
}
use go_webhook_delivery.Config.{Config, ConfigError, invalid}
use go_webhook_delivery.Config.Readers.{Flags, Readers}

-- `applyFlags`.
unfoldable pub flags_of : Config → Flags
flags_of c = record {
  profile = c.profile;
  http_addr = c.http_addr;
  operational_addr = c.operational_addr;
  database_timeout = c.database_timeout;
  database_local_socket = c.database_local_socket;
  log_level = c.log_level;
  version = c.version;
  ingress_tls = c.ingress_tls_terminated;
  pprof = c.enable_pprof;
  allow_http = c.allow_http_destinations;
  worker_flags = c.worker_settings;
  otlp_endpoint = c.telemetry.otlp_endpoint;
  otlp_timeout = c.telemetry.export_timeout;
  trace_sample_ratio = c.telemetry.trace_sample_ratio;
}

unfoldable pub apply_parsed_flags : Config → Option (Flags × ℕ) → Result ConfigError Config
apply_parsed_flags c none = err (invalid (bytes "flags"))
apply_parsed_flags c (some (f, left)) = do
  require (left == 0) (invalid (bytes "arguments"))
  ok (record c {
    profile = f.profile;
    http_addr = f.http_addr;
    operational_addr = f.operational_addr;
    log_level = f.log_level;
    version = f.version;
    database_timeout = f.database_timeout;
    database_local_socket = f.database_local_socket;
    ingress_tls_terminated = f.ingress_tls;
    enable_pprof = f.pprof;
    allow_http_destinations = f.allow_http;
    worker_settings = f.worker_flags;
    telemetry = record c.telemetry {
      otlp_endpoint = f.otlp_endpoint;
      export_timeout = f.otlp_timeout;
      trace_sample_ratio = f.trace_sample_ratio;
    };
  })

unfoldable pub apply_flags : Readers → List Bytes → Config → Result ConfigError Config
unfolding flags_of apply_parsed_flags
apply_flags r args c = apply_parsed_flags c (r.parse_flags (flags_of c) args)
