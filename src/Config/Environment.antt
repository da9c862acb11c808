-- ===== src/Config/Environment.antt =====
-- `applyEnvironment` of internal/platform/config/environment.go, with its parts in quota.go, edge.go,
-- telemetry.go and console.go.
use go_webhook_delivery.Common.{ℕ, false, Option, none, some, ◌++◌, Bytes, bytes, Result, ok, ◌>>=◌}
use go_webhook_delivery.Golang.Strings.{trim_space}
use go_webhook_delivery.Delivery.Options.{WorkerConfig}
use go_webhook_delivery.Quotas.{QuotaPolicy}
use go_webhook_delivery.Config.{Service, worker, console, ConsoleConfig, Config, ConfigError}
use go_webhook_delivery.Config.Readers.{
  Readers, Environment, parsed, bool_env, duration_env, int_env, assigned, apply_string_environment,
  apply_secret_paths,
}

module _ (r : Readers) (env : Environment) where
  -- The loop over the policies and their values, for one policy.
  unfoldable pub quota_environment : Bytes → QuotaPolicy → Result ConfigError QuotaPolicy
  quota_environment prefix p = do
    global ← int_env env (prefix ++ bytes "_GLOBAL") p.global
    workspace ← int_env env (prefix ++ bytes "_WORKSPACE") p.workspace
    api_key ← int_env env (prefix ++ bytes "_API_KEY") p.api_key
    resource ← int_env env (prefix ++ bytes "_RESOURCE") p.resource
    window ← duration_env r env (prefix ++ bytes "_WINDOW") p.window
    ok (record {
      global = global;
      workspace = workspace;
      api_key = api_key;
      resource = resource;
      window = window;
    })

  unfoldable pub apply_quota_environment : Config → Result ConfigError Config
  apply_quota_environment c = do
    ingest ← quota_environment (bytes "WDE_QUOTA_INGEST") c.quotas.ingest
    endpoint_write ← quota_environment (bytes "WDE_QUOTA_ENDPOINT_WRITE") c.quotas.endpoint_write
    query ← quota_environment (bytes "WDE_QUOTA_QUERY") c.quotas.query
    replay ← quota_environment (bytes "WDE_QUOTA_REPLAY") c.quotas.replay
    ok (record c {
      quotas = record {
        ingest = ingest;
        endpoint_write = endpoint_write;
        query = query;
        replay = replay;
      };
    })

  unfoldable pub apply_edge_environment : Config → Result ConfigError Config
  apply_edge_environment c = do
    max_in_flight ← int_env env (bytes "WDE_EDGE_MAX_IN_FLIGHT") c.edge.max_in_flight
    edge_global ← int_env env (bytes "WDE_EDGE_GLOBAL") c.edge.edge_global
    origin ← int_env env (bytes "WDE_EDGE_ORIGIN") c.edge.origin
    prefix ← int_env env (bytes "WDE_EDGE_PREFIX") c.edge.prefix
    max_buckets ← int_env env (bytes "WDE_EDGE_MAX_BUCKETS") c.edge.max_buckets
    edge_window ← duration_env r env (bytes "WDE_EDGE_WINDOW") c.edge.edge_window
    ok (record c {
      edge = record {
        max_in_flight = max_in_flight;
        edge_global = edge_global;
        origin = origin;
        prefix = prefix;
        max_buckets = max_buckets;
        edge_window = edge_window;
      };
    })

  unfoldable pub ratio_env : Option Bytes → ℕ → Result ConfigError ℕ
  unfolding parsed
  ratio_env none fallback = ok fallback
  ratio_env (some raw) fallback =
      parsed (bytes "WDE_OTEL_TRACE_SAMPLE_RATIO") (r.parse_float (trim_space raw))

  unfoldable pub apply_telemetry_environment : Config → Result ConfigError Config
  unfolding ratio_env assigned
  apply_telemetry_environment c = do
    timeout ← duration_env r env (bytes "WDE_OTEL_EXPORT_TIMEOUT") c.telemetry.export_timeout
    ratio ← ratio_env (env (bytes "WDE_OTEL_TRACE_SAMPLE_RATIO")) c.telemetry.trace_sample_ratio
    private ← bool_env r env (bytes "WDE_OTEL_ALLOW_PRIVATE_HTTP") false
    ok (record c {
      telemetry = record {
        otlp_endpoint =
            assigned (env (bytes "WDE_OTEL_EXPORTER_OTLP_ENDPOINT")) c.telemetry.otlp_endpoint;
        export_timeout = timeout;
        trace_sample_ratio = ratio;
        allow_private_http = private;
      };
    })

  unfoldable pub console_environment : Service → ConsoleConfig → Result ConfigError ConsoleConfig
  unfolding assigned
  console_environment console k = do
    idle ← duration_env r env (bytes "WDE_CONSOLE_SESSION_IDLE") k.session_idle
    absolute ← duration_env r env (bytes "WDE_CONSOLE_SESSION_ABSOLUTE") k.session_absolute
    ok (record {
      console_origin = assigned (env (bytes "WDE_CONSOLE_ORIGIN")) k.console_origin;
      session_idle = idle;
      session_absolute = absolute;
    })
  console_environment _ k = ok k

  unfoldable pub worker_environment : Service → WorkerConfig → Result ConfigError WorkerConfig
  worker_environment worker w = do
    concurrency ← int_env env (bytes "WDE_WORKER_CONCURRENCY") w.concurrency
    batch ← int_env env (bytes "WDE_WORKER_CLAIM_BATCH_SIZE") w.claim_batch_size
    workspace ← int_env env (bytes "WDE_WORKER_WORKSPACE_BATCH_LIMIT") w.workspace_limit
    endpoint ← int_env env (bytes "WDE_WORKER_ENDPOINT_BATCH_LIMIT") w.endpoint_limit
    poll ← duration_env r env (bytes "WDE_WORKER_POLL_INTERVAL") w.poll_interval
    claim ← duration_env r env (bytes "WDE_WORKER_CLAIM_TIMEOUT") w.claim_timeout
    request ← duration_env r env (bytes "WDE_WORKER_REQUEST_TIMEOUT") w.request_timeout
    lease ← duration_env r env (bytes "WDE_WORKER_LEASE_TTL") w.lease_ttl
    base ← duration_env r env (bytes "WDE_WORKER_RETRY_BASE") w.retry_base
    cap ← duration_env r env (bytes "WDE_WORKER_RETRY_CAP") w.retry_cap
    ok (record {
      concurrency = concurrency;
      claim_batch_size = batch;
      workspace_limit = workspace;
      endpoint_limit = endpoint;
      poll_interval = poll;
      claim_timeout = claim;
      request_timeout = request;
      lease_ttl = lease;
      retry_base = base;
      retry_cap = cap;
      shutdown_timeout = w.shutdown_timeout;
    })
  worker_environment _ w = ok w

  -- The settings of all services that are not texts.
  unfoldable pub apply_common_environment : Config → Result ConfigError Config
  apply_common_environment c = do
    shutdown ← duration_env r env (bytes "WDE_SHUTDOWN_TIMEOUT") c.worker_settings.shutdown_timeout
    timeout ← duration_env r env (bytes "WDE_DATABASE_TIMEOUT") c.database_timeout
    socket ← bool_env r env (bytes "WDE_DATABASE_LOCAL_SOCKET") false
    tls ← bool_env r env (bytes "WDE_INGRESS_TLS_TERMINATED") false
    pprof ← bool_env r env (bytes "WDE_ENABLE_PPROF") false
    allow_http ← bool_env r env (bytes "WDE_ALLOW_HTTP_DESTINATIONS") false
    ok (record c {
      worker_settings = record c.worker_settings { shutdown_timeout = shutdown };
      database_timeout = timeout;
      database_local_socket = socket;
      ingress_tls_terminated = tls;
      enable_pprof = pprof;
      allow_http_destinations = allow_http;
    })

  unfoldable pub apply_environment : Config → Result ConfigError Config
  unfolding console_environment worker_environment
  apply_environment c = do
    c1 ← apply_common_environment (apply_string_environment env c)
    c2 ← apply_quota_environment c1
    c3 ← apply_edge_environment c2
    c4 ← apply_telemetry_environment c3
    console_settings ← console_environment c4.service c4.console_settings
    worker_settings ← worker_environment c4.service c4.worker_settings
    ok (
        apply_secret_paths env
          (record c4 { console_settings = console_settings; worker_settings = worker_settings }))
