-- ===== src/Config/Readers.antt =====
-- internal/platform/config/environment.go: how a variable is read, and `applySecretPaths` of secrets.go.
use go_webhook_delivery.Common.{
  ℕ, Bool, Option, none, some, List, [], Bytes, bytes, ℤ, Result, ok, err,
}
use go_webhook_delivery.Golang.Strings.{trim_space}
use go_webhook_delivery.Golang.Decimal.{atoi}
use go_webhook_delivery.Delivery.Options.{WorkerConfig}
use go_webhook_delivery.Config.{Service, worker, console, chaoslab, Config, ConfigError, invalid}

-- `strconv.ParseBool`, `time.ParseDuration` and `strconv.ParseFloat`, and the `flag` package: given the
-- defaults and the arguments it gives the values and how many arguments are left. The shutdown timeout
-- is among the worker's settings.
pub record Flags : Type 0 where
  pub profile : Bytes
  pub http_addr : Bytes
  pub operational_addr : Bytes
  pub database_timeout : ℤ
  pub database_local_socket : Bool
  pub log_level : Bytes
  pub version : Bytes
  pub ingress_tls : Bool
  pub pprof : Bool
  pub allow_http : Bool
  pub worker_flags : WorkerConfig
  pub otlp_endpoint : Bytes
  pub otlp_timeout : ℤ
  pub trace_sample_ratio : ℕ

pub record Readers : Type 0 where
  pub parse_bool : Bytes → Option Bool
  pub parse_duration : Bytes → Option ℤ
  pub parse_float : Bytes → Option ℕ
  pub parse_flags : Flags → List Bytes → Option (Flags × ℕ)

abbrev pub Environment : Type 0
Environment = Bytes → Option Bytes

unfoldable pub parsed {ℓ} : {A : Type ℓ} → Bytes → Option A → Result ConfigError A
parsed name none = err (invalid name)
parsed name (some a) = ok a

unfoldable pub read_env {ℓ} :
    {A : Type ℓ} → (Bytes → Option A) → Bytes → Option Bytes → A → Result ConfigError A
unfolding parsed
read_env parse name none fallback = ok fallback
read_env parse name (some value) fallback = parsed name (parse value)

unfoldable pub bool_env : Readers → Environment → Bytes → Bool → Result ConfigError Bool
unfolding read_env
bool_env r env name fallback = read_env r.parse_bool name (env name) fallback

unfoldable pub duration_env : Readers → Environment → Bytes → ℤ → Result ConfigError ℤ
unfolding read_env
duration_env r env name fallback = read_env r.parse_duration name (env name) fallback

unfoldable pub int_env : Environment → Bytes → ℤ → Result ConfigError ℤ
unfolding read_env
int_env env name fallback = read_env atoi name (env name) fallback

unfoldable pub assigned : Option Bytes → Bytes → Bytes
assigned none target = target
assigned (some value) target = value

unfoldable pub trimmed : Option Bytes → Bytes
trimmed none = []
trimmed (some value) = trim_space value

unfoldable pub http_addr_variable : Service → Bytes
http_addr_variable chaoslab = bytes "WDE_CHAOSLAB_HTTP_ADDR"
http_addr_variable console = bytes "WDE_CONSOLE_HTTP_ADDR"
http_addr_variable _ = bytes "WDE_API_HTTP_ADDR"

unfoldable pub operational_addr_variable : Service → Bytes
operational_addr_variable worker = bytes "WDE_WORKER_OPERATIONAL_ADDR"
operational_addr_variable console = bytes "WDE_CONSOLE_OPERATIONAL_ADDR"
operational_addr_variable _ = bytes "WDE_API_OPERATIONAL_ADDR"

unfoldable pub apply_string_environment : Environment → Config → Config
unfolding assigned http_addr_variable operational_addr_variable
apply_string_environment env c = record c {
  profile = assigned (env (bytes "WDE_PROFILE")) c.profile;
  version = assigned (env (bytes "WDE_VERSION")) c.version;
  log_level = assigned (env (bytes "WDE_LOG_LEVEL")) c.log_level;
  database_url = assigned (env (bytes "WDE_DATABASE_URL")) c.database_url;
  http_addr = assigned (env (http_addr_variable c.service)) c.http_addr;
  operational_addr = assigned (env (operational_addr_variable c.service)) c.operational_addr;
}

unfoldable pub apply_secret_paths : Environment → Config → Config
unfolding trimmed
apply_secret_paths env c = record c {
  secrets = record {
    auth_pepper_file = trimmed (env (bytes "WDE_AUTH_PEPPER_FILE"));
    idempotency_pepper_file = trimmed (env (bytes "WDE_IDEMPOTENCY_PEPPER_FILE"));
    fingerprint_pepper_file = trimmed (env (bytes "WDE_FINGERPRINT_PEPPER_FILE"));
    rate_limit_pepper_file = trimmed (env (bytes "WDE_RATE_LIMIT_PEPPER_FILE"));
    cursor_pepper_file = trimmed (env (bytes "WDE_CURSOR_PEPPER_FILE"));
    session_pepper_file = trimmed (env (bytes "WDE_CONSOLE_SESSION_PEPPER_FILE"));
    csrf_pepper_file = trimmed (env (bytes "WDE_CONSOLE_CSRF_PEPPER_FILE"));
    payload_keyring_file = trimmed (env (bytes "WDE_PAYLOAD_KEYRING_FILE"));
    signing_keyring_file = trimmed (env (bytes "WDE_SIGNING_KEYRING_FILE"));
  };
}
