-- ===== src/Config.antt =====
-- internal/platform/config/config.go: the configuration of a process and its defaults. Text settings
-- keep the bytes they are given until the validation.
pub mod Readers
pub mod Environment
pub mod Flags
pub mod Secrets
pub mod Validation
pub mod Load
use go_webhook_delivery.Common.{
  ℕ, ◌+◌, ◌*◌, Bool, true, false, Option, none, some, List, [], ◌∷◌, Bytes, bytes, ℤ, pos, Result,
  ok, err,
}
use go_webhook_delivery.Golang.Time.{second}
use go_webhook_delivery.Cryptobox.Keyrings.{Files, KeyringDocument}
use go_webhook_delivery.Delivery.Options.{WorkerConfig}
use go_webhook_delivery.Quotas.{QuotaConfig, default_quotas}

pub data Service : Type 0 where
  api worker console chaoslab : Service
  unknown : Bytes → Service

-- The services behind the TLS of the ingress.
abbrev pub faces_clients : Service → Bool
faces_clients api = true
faces_clients console = true
faces_clients _ = false

pub record EdgeConfig : Type 0 where
  pub max_in_flight : ℤ
  pub edge_global : ℤ
  pub origin : ℤ
  pub prefix : ℤ
  pub max_buckets : ℤ
  pub edge_window : ℤ

-- The ratio is the bit pattern of a float64.
pub record TelemetryConfig : Type 0 where
  pub otlp_endpoint : Bytes
  pub export_timeout : ℤ
  pub trace_sample_ratio : ℕ
  pub allow_private_http : Bool

pub record ConsoleConfig : Type 0 where
  pub console_origin : Bytes
  pub session_idle : ℤ
  pub session_absolute : ℤ

pub record SecretFiles : Type 0 where
  pub auth_pepper_file : Bytes
  pub idempotency_pepper_file : Bytes
  pub fingerprint_pepper_file : Bytes
  pub rate_limit_pepper_file : Bytes
  pub cursor_pepper_file : Bytes
  pub session_pepper_file : Bytes
  pub csrf_pepper_file : Bytes
  pub payload_keyring_file : Bytes
  pub signing_keyring_file : Bytes

-- `Config`. The fields of the worker are `worker_settings`, with the shutdown timeout of all services
-- among them.
pub record Config : Type 0 where
  pub service : Service
  pub profile : Bytes
  pub version : Bytes
  pub log_level : Bytes
  pub http_addr : Bytes
  pub operational_addr : Bytes
  pub database_url : Bytes
  pub database_local_socket : Bool
  pub database_timeout : ℤ
  pub ingress_tls_terminated : Bool
  pub enable_pprof : Bool
  pub allow_http_destinations : Bool
  pub worker_settings : WorkerConfig
  pub edge : EdgeConfig
  pub quotas : QuotaConfig
  pub telemetry : TelemetryConfig
  pub console_settings : ConsoleConfig
  pub secrets : SecretFiles

-- The variable or the rule that an error names.
pub data ConfigError : Type 0 where
  invalid : Bytes → ConfigError

-- What is read of a `url.URL`; `query` gives the values of a key.
pub record ParsedUrl : Type 0 where
  pub scheme : Bytes
  pub username : Option Bytes
  pub has_password : Bool
  pub host : Bytes
  pub path : Bytes
  pub raw_query : Bytes
  pub fragment : Bytes
  pub query : Bytes → List Bytes

abbrev pub default_edge_config : EdgeConfig
default_edge_config = record {
  max_in_flight = pos 256;
  edge_global = pos 60000;
  origin = pos 600;
  prefix = pos 300;
  max_buckets = pos 4096;
  edge_window = pos (60 * second);
}

-- The bits of 0.1.
abbrev pub default_telemetry_config : TelemetryConfig
default_telemetry_config = record {
  otlp_endpoint = [];
  export_timeout = pos (5 * second);
  trace_sample_ratio = 0x3fb999999999999a;
  allow_private_http = false;
}

abbrev pub no_console : ConsoleConfig
no_console = record { console_origin = []; session_idle = pos 0; session_absolute = pos 0 }

abbrev pub default_console_config : ConsoleConfig
default_console_config = record {
  console_origin = bytes "http://127.0.0.1:8082";
  session_idle = pos (900 * second);
  session_absolute = pos (3600 * second);
}

abbrev pub no_secrets : SecretFiles
no_secrets = record {
  auth_pepper_file = [];
  idempotency_pepper_file = [];
  fingerprint_pepper_file = [];
  rate_limit_pepper_file = [];
  cursor_pepper_file = [];
  session_pepper_file = [];
  csrf_pepper_file = [];
  payload_keyring_file = [];
  signing_keyring_file = [];
}

-- The zero values of the worker's fields, and the default shutdown timeout.
abbrev pub no_worker : WorkerConfig
no_worker = record {
  concurrency = pos 0;
  claim_batch_size = pos 0;
  workspace_limit = pos 0;
  endpoint_limit = pos 0;
  poll_interval = pos 0;
  claim_timeout = pos 0;
  request_timeout = pos 0;
  lease_ttl = pos 0;
  retry_base = pos 0;
  retry_cap = pos 0;
  shutdown_timeout = pos (30 * second);
}

abbrev pub default_worker : WorkerConfig
default_worker = record {
  concurrency = pos 8;
  claim_batch_size = pos 8;
  workspace_limit = pos 2;
  endpoint_limit = pos 2;
  poll_interval = pos 250000000;
  claim_timeout = pos 200000000;
  request_timeout = pos (10 * second);
  lease_ttl = pos (30 * second);
  retry_base = pos second;
  retry_cap = pos (900 * second);
  shutdown_timeout = pos (30 * second);
}

abbrev pub common_defaults : Service → Config
common_defaults s = record {
  service = s;
  profile = bytes "local";
  version = bytes "dev";
  log_level = bytes "info";
  http_addr = [];
  operational_addr = [];
  database_url = [];
  database_local_socket = false;
  database_timeout = pos (5 * second);
  ingress_tls_terminated = false;
  enable_pprof = false;
  allow_http_destinations = false;
  worker_settings = no_worker;
  edge = default_edge_config;
  quotas = default_quotas;
  telemetry = default_telemetry_config;
  console_settings = no_console;
  secrets = no_secrets;
}

unfoldable pub defaults : Service → Result ConfigError Config
defaults api = ok (record (common_defaults api) {
  http_addr = bytes ":8080";
  operational_addr = bytes "127.0.0.1:9090";
})
defaults console = ok (record (common_defaults console) {
  http_addr = bytes ":8082";
  operational_addr = bytes "127.0.0.1:9092";
  console_settings = default_console_config;
})
defaults chaoslab = ok (record (common_defaults chaoslab) { http_addr = bytes "127.0.0.1:8081" })
defaults worker = ok (record (common_defaults worker) {
  operational_addr = bytes "127.0.0.1:9091";
  worker_settings = default_worker;
})
defaults (unknown name) = err (invalid (bytes "service"))
