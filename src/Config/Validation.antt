-- ===== src/Config/Validation.antt =====
-- internal/platform/config/validation.go, with its parts in edge.go, telemetry.go and console.go: what a
-- configuration must satisfy. The URL parser, `strings.ToLower`, the test of a float and the files are
-- arguments.
use go_webhook_delivery.Common.{
  ℕ, ◌*◌, ◌%◌, Bool, true, false, not, ◌&&◌, ◌||◌, Option, none, some, List, [], ◌∷◌, ◌==◌,
  if◌then◌else◌, Bytes, bytes, bytes_eq, is_empty, length, pos, pos_part, ltb_ℤ, leb_ℤ, eq_ℤ,
  Result, ok, err, ◌>>◌, require,
}
use go_webhook_delivery.Golang.Strings.{trim_space}
use go_webhook_delivery.Golang.Time.{second}
use go_webhook_delivery.Cryptobox.Keyrings.{Files, KeyringDocument}
use go_webhook_delivery.Delivery.Options.{validate_worker}
use go_webhook_delivery.Quotas.{validate_quotas}
use go_webhook_delivery.Config.{
  Service, api, worker, console, chaoslab, EdgeConfig, Config, ConfigError, invalid, ParsedUrl,
  faces_clients,
}
use go_webhook_delivery.Config.Secrets.{validate_secret_path, validate_production_secrets}

pub record Checks : Type 0 where
  pub parse_url : Bytes → Option ParsedUrl
  pub to_lower : Bytes → Bytes
  -- neither NaN nor infinite, and between 0 and 1
  pub in_unit : ℕ → Bool
  pub files : Files
  pub decode_json : Bytes → Option KeyringDocument

abbrev pub is_production : Bytes → Bool
is_production profile = bytes_eq profile (bytes "production")

abbrev pub is_profile : Bytes → Bool
is_profile p =
    bytes_eq p (bytes "local") || bytes_eq p (bytes "test") || bytes_eq p (bytes "production")

unfoldable pub validate_edge_config : EdgeConfig → Bool
validate_edge_config e = not (
    ltb_ℤ e.max_in_flight (pos 1)
    || ltb_ℤ (pos 10000) e.max_in_flight
    || ltb_ℤ e.edge_global (pos 1)
    || ltb_ℤ (pos 1000000) e.edge_global
    || ltb_ℤ e.origin (pos 1)
    || ltb_ℤ e.edge_global e.origin
    || ltb_ℤ e.prefix (pos 1)
    || ltb_ℤ e.edge_global e.prefix
    || ltb_ℤ e.max_buckets (pos 16)
    || ltb_ℤ (pos 65536) e.max_buckets
    || ltb_ℤ e.edge_window (pos second)
    || ltb_ℤ (pos (3600 * second)) e.edge_window
    || not (pos_part e.edge_window % second == 0))

-- `query.Get` of a key that has exactly one value, which is the given one.
unfoldable pub only_value : List Bytes → Bytes → Bool
only_value (v ∷ []) expected = bytes_eq v expected
only_value _ expected = false

unfoldable pub has_user : Option Bytes → Bool
has_user none = false
has_user (some name) = not (is_empty name)

unfoldable pub first_value : List Bytes → Bytes
first_value [] = []
first_value (v ∷ vs) = v

abbrev pub is_http : Bytes → Bool
is_http s = bytes_eq s (bytes "http") || bytes_eq s (bytes "https")

abbrev pub serves_http : Service → Bool
serves_http api = true
serves_http console = true
serves_http chaoslab = true
serves_http _ = false

-- The services with an operational address and a database.
abbrev pub uses_database : Service → Bool
uses_database api = true
uses_database worker = true
uses_database console = true
uses_database _ = false

abbrev pub is_worker : Service → Bool
is_worker worker = true
is_worker _ = false

abbrev pub is_console : Service → Bool
is_console console = true
is_console _ = false

abbrev pub is_chaoslab : Service → Bool
is_chaoslab chaoslab = true
is_chaoslab _ = false

module _ (k : Checks) where
  open k use {parse_url, to_lower, in_unit, files, decode_json}

  unfoldable pub valid_log_level : Bytes → Bool
  valid_log_level level =
      bytes_eq (to_lower level) (bytes "debug")
      || bytes_eq (to_lower level) (bytes "info")
      || bytes_eq (to_lower level) (bytes "warn")
      || bytes_eq (to_lower level) (bytes "error")

  unfoldable pub valid_otlp : Config → Bytes → Option ParsedUrl → Bool
  valid_otlp c endpoint none = false
  valid_otlp c endpoint (some u) =
      not (is_empty u.host)
      && no_user u.username
      && is_empty u.raw_query
      && is_empty u.fragment
      && is_http u.scheme
      && not (
          is_production c.profile
          && not (bytes_eq u.scheme (bytes "https"))
          && not (
              c.telemetry.allow_private_http
              && bytes_eq endpoint (bytes "http://otel-collector:4318")
              && is_empty u.path))
    where
      no_user : Option Bytes → Bool
      no_user none = true
      no_user (some name) = false

  unfoldable pub validate_telemetry : Config → Bool
  unfolding valid_otlp
  validate_telemetry c =
      let endpoint = trim_space c.telemetry.otlp_endpoint in
      not (
        ltb_ℤ c.telemetry.export_timeout (pos 100000000)
        || ltb_ℤ (pos (10 * second)) c.telemetry.export_timeout)
      && in_unit c.telemetry.trace_sample_ratio
      && (is_empty endpoint || valid_otlp c endpoint (parse_url endpoint))

  unfoldable pub valid_origin : Bytes → Option ParsedUrl → Bool
  valid_origin profile none = false
  valid_origin profile (some u) =
      not (is_empty u.host)
      && no_user u.username
      && is_empty u.raw_query
      && is_empty u.fragment
      && is_empty u.path
      && is_http u.scheme
      && not (is_production profile && not (bytes_eq u.scheme (bytes "https")))
    where
      no_user : Option Bytes → Bool
      no_user none = true
      no_user (some name) = false

  unfoldable pub validate_console : Config → Bool
  unfolding valid_origin
  validate_console c =
      not (is_console c.service)
      || eq_ℤ c.console_settings.session_idle (pos (900 * second))
        && eq_ℤ c.console_settings.session_absolute (pos (3600 * second))
        && valid_origin c.profile (parse_url (trim_space c.console_settings.console_origin))

  -- A connection over the Unix socket of the host.
  unfoldable pub check_socket : ParsedUrl → Result ConfigError (Unit {0})
  check_socket u = do
    require
        (is_empty u.host
          && only_value (u.query (bytes "host")) (bytes "/var/run/postgresql")
          && only_value (u.query (bytes "sslmode")) (bytes "disable")
          && length (u.query (bytes "passfile")) == 1)
        (invalid (bytes "database socket"))
    validate_secret_path files (bytes "database passfile")
        (first_value (u.query (bytes "passfile")))

  unfoldable pub check_network : Bytes → ParsedUrl → Result ConfigError (Unit {0})
  check_network profile u = do
    require (not (is_empty u.host) && is_empty (u.query (bytes "host")))
        (invalid (bytes "WDE_DATABASE_URL"))
    require
        (not (
          is_production profile
          && not (only_value (u.query (bytes "sslmode")) (bytes "verify-full"))))
        (invalid (bytes "WDE_DATABASE_URL"))

  unfoldable pub check_database : Bytes → Bool → Option ParsedUrl → Result ConfigError (Unit {0})
  unfolding check_socket check_network
  check_database profile local_socket none = err (invalid (bytes "WDE_DATABASE_URL"))
  check_database profile local_socket (some u) = do
    require
        ((bytes_eq u.scheme (bytes "postgres") || bytes_eq u.scheme (bytes "postgresql"))
          && has_user u.username
          && bytes_eq u.path (bytes "/wde")
          && is_empty u.fragment)
        (invalid (bytes "WDE_DATABASE_URL"))
    require (not (is_production profile && u.has_password)) (invalid (bytes "WDE_DATABASE_URL"))
    (if local_socket then check_socket u else check_network profile u)

  unfoldable pub validate_database_url : Bytes → Bytes → Bool → Result ConfigError (Unit {0})
  unfolding check_database
  validate_database_url raw profile local_socket = do
    require (not (is_empty (trim_space raw))) (invalid (bytes "WDE_DATABASE_URL"))
    check_database profile local_socket (parse_url raw)

  unfoldable pub validate_addresses : Config → Result ConfigError (Unit {0})
  validate_addresses c = do
    require (not (serves_http c.service && is_empty (trim_space c.http_addr)))
        (invalid (bytes "HTTP address"))
    require (not (uses_database c.service && is_empty (trim_space c.operational_addr)))
        (invalid (bytes "operational address"))
    (if uses_database c.service
        then validate_database_url c.database_url c.profile c.database_local_socket
        else ok tt)

  unfoldable pub validate_common : Config → Result ConfigError (Unit {0})
  validate_common c = do
    require (is_profile c.profile) (invalid (bytes "WDE_PROFILE"))
    require (not (is_empty (trim_space c.version))) (invalid (bytes "WDE_VERSION"))
    require (valid_log_level c.log_level) (invalid (bytes "WDE_LOG_LEVEL"))
    require
        (not (
          leb_ℤ c.worker_settings.shutdown_timeout (pos 0)
          || ltb_ℤ (pos (30 * second)) c.worker_settings.shutdown_timeout))
        (invalid (bytes "WDE_SHUTDOWN_TIMEOUT"))
    require (not (leb_ℤ c.database_timeout (pos 0) || ltb_ℤ (pos (30 * second)) c.database_timeout))
        (invalid (bytes "WDE_DATABASE_TIMEOUT"))
    require (not (is_worker c.service) || validate_worker c.worker_settings)
        (invalid (bytes "worker"))
    require (validate_quotas c.quotas) (invalid (bytes "quotas"))
    require (validate_edge_config c.edge) (invalid (bytes "edge"))
    require (validate_telemetry c) (invalid (bytes "telemetry"))
    require (validate_console c) (invalid (bytes "console"))
    validate_addresses c

  unfoldable pub validate_production : Config → Result ConfigError (Unit {0})
  validate_production c = do
    require (not (is_chaoslab c.service)) (invalid (bytes "chaoslab"))
    require (not (faces_clients c.service && not c.ingress_tls_terminated))
        (invalid (bytes "WDE_INGRESS_TLS_TERMINATED"))
    require (not c.enable_pprof) (invalid (bytes "WDE_ENABLE_PPROF"))
    require (not c.allow_http_destinations) (invalid (bytes "WDE_ALLOW_HTTP_DESTINATIONS"))
    validate_production_secrets files decode_json c

  -- `Validate`.
  unfoldable pub validate : Config → Result ConfigError (Unit {0})
  validate c = do
    validate_common c
    (if is_production c.profile then validate_production c else ok tt)
