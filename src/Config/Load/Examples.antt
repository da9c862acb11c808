-- ===== src/Config/Load/Examples.antt =====
-- An API in production.
use go_webhook_delivery.Common.{
  ◌≡◌, refl, true, false, Option, none, some, List, [], ◌∷◌, ◌++◌, if◌then◌else◌, Bytes, bytes,
  bytes_eq, drop, pos, ok, eq_ℤ,
}
use go_webhook_delivery.Golang.Base64.{base64_decode}
use go_webhook_delivery.Golang.Strings.{trim_space, cut_prefix, has_prefix}
use go_webhook_delivery.Cryptobox.Keyrings.{Files, contains}
use go_webhook_delivery.Endpoint.{Fresh}
use go_webhook_delivery.Quotas.{validate_quotas, valid_policy}
use go_webhook_delivery.Config.{api, Config, common_defaults, defaults}
use go_webhook_delivery.Config.Readers.{
  Readers, Environment, parsed, read_env, bool_env, duration_env, int_env, assigned, trimmed,
  http_addr_variable, operational_addr_variable, apply_string_environment, apply_secret_paths,
}
use go_webhook_delivery.Config.Environment.{
  quota_environment, apply_quota_environment, apply_edge_environment, ratio_env,
  apply_telemetry_environment, console_environment, worker_environment, apply_common_environment,
  apply_environment,
}
use go_webhook_delivery.Config.Flags.{flags_of, apply_parsed_flags, apply_flags}
use go_webhook_delivery.Config.Secrets.{
  checked_info, same_file, sized, pepper_material, decode_pepper, all_distinct, has_version,
  validate_keyring_key, keyring_materials, checked_keyring, disjoint, validate_secret_path,
  read_secret_file, validate_pepper_file, api_peppers, validate_api_peppers, validate_keyring_file,
  service_peppers, validate_production_secrets,
}
use go_webhook_delivery.Config.Validation.{
  Checks, validate_edge_config, only_value, has_user, valid_log_level, validate_telemetry,
  validate_console, check_network, check_database, validate_database_url, validate_addresses,
  validate_common, validate_production, validate,
}
use go_webhook_delivery.Config.Load.{load}
use go_webhook_delivery.Config.Load.Hardened.{Hardened, load-Hardened, load-Fresh}

-- The variables that are set.
abbrev settings : List (Bytes × Bytes)
settings =
    (bytes "WDE_PROFILE", bytes "production")
    ∷ (bytes "WDE_DATABASE_URL", bytes "postgres://u@db/wde")
    ∷ (bytes "WDE_INGRESS_TLS_TERMINATED", bytes "true")
    ∷ (bytes "WDE_AUTH_PEPPER_FILE", bytes "E")
    ∷ (bytes "WDE_IDEMPOTENCY_PEPPER_FILE", bytes "I")
    ∷ (bytes "WDE_FINGERPRINT_PEPPER_FILE", bytes "M")
    ∷ (bytes "WDE_RATE_LIMIT_PEPPER_FILE", bytes "Q")
    ∷ (bytes "WDE_CURSOR_PEPPER_FILE", bytes "U")
    ∷ (bytes "WDE_PAYLOAD_KEYRING_FILE", bytes "Y")
    ∷ (bytes "WDE_SIGNING_KEYRING_FILE", bytes "c")
    ∷ []

look_up : List (Bytes × Bytes) → Bytes → Option Bytes
look_up [] name = none
look_up ((n, value) ∷ more) name = if bytes_eq n name then some value else look_up more name

environment : Environment
unfolding look_up
environment = look_up settings

abbrev readers : Readers
readers = record {
  parse_bool = λ s. some (bytes_eq s (bytes "true"));
  parse_duration = λ s. none;
  parse_float = λ s. none;
  parse_flags = λ f args. some (f, 0);
}

-- The 32 bytes of the material in the file of a name differ in the last one.
abbrev material : Bytes → Bytes
material path = bytes "v1:AAAAAAAAAAAAAAAAAAAAAAAAAAAAAAAAAAAAAAAAAA" ++ path

abbrev disk : Files
disk = record {
  euid = 7;
  lstat = λ path. some (record { is_symlink = false; is_regular = true; perm = 384; uid = some 7 });
  opened = λ path. some (some true);
  content = λ path n. some (material path);
}

abbrev query_of : Bytes → List Bytes
query_of key = if bytes_eq key (bytes "sslmode") then bytes "verify-full" ∷ [] else []

abbrev checks : Checks
checks = record {
  parse_url = λ raw. some (record {
    scheme = bytes "postgres";
    username = some (bytes "u");
    has_password = false;
    host = bytes "db";
    path = bytes "/wde";
    raw_query = [];
    fragment = [];
    query = query_of;
  });
  to_lower = λ s. s;
  in_unit = λ n. true;
  files = disk;
  decode_json = λ raw. some (record {
    format = pos 1;
    primary_key_version = pos 1;
    entries = record { version = pos 1; material = drop 3 raw } ∷ [];
  });
}

abbrev config : Config
config = record (common_defaults api) {
  profile = bytes "production";
  http_addr = bytes ":8080";
  operational_addr = bytes "127.0.0.1:9090";
  database_url = bytes "postgres://u@db/wde";
  ingress_tls_terminated = true;
  secrets = record {
    auth_pepper_file = bytes "E";
    idempotency_pepper_file = bytes "I";
    fingerprint_pepper_file = bytes "M";
    rate_limit_pepper_file = bytes "Q";
    cursor_pepper_file = bytes "U";
    session_pepper_file = [];
    csrf_pepper_file = [];
    payload_keyring_file = bytes "Y";
    signing_keyring_file = bytes "c";
  };
}

abbrev api_defaults : Config
api_defaults = record (common_defaults api) {
  http_addr = bytes ":8080";
  operational_addr = bytes "127.0.0.1:9090";
}

loads_environment : apply_environment readers environment api_defaults ≡ ok config
unfolding apply_environment apply_common_environment apply_string_environment
    apply_quota_environment quota_environment apply_edge_environment apply_telemetry_environment
    ratio_env console_environment worker_environment apply_secret_paths trimmed assigned
    http_addr_variable operational_addr_variable int_env duration_env bool_env read_env parsed
    look_up environment bytes_eq trim_space
loads_environment = refl

valid_common : validate_common checks config ≡ ok tt
unfolding validate_common valid_log_level validate_edge_config validate_telemetry validate_console
    validate_addresses validate_database_url check_database check_network only_value has_user
    validate_quotas valid_policy bytes_eq trim_space
valid_common = refl

valid_peppers : service_peppers disk api config.secrets ≡ ok tt
unfolding service_peppers validate_api_peppers api_peppers validate_pepper_file read_secret_file
    validate_secret_path checked_info same_file sized decode_pepper pepper_material all_distinct
    contains base64_decode cut_prefix has_prefix trim_space bytes_eq
valid_peppers = refl

valid_keyrings : validate_production_secrets disk checks.decode_json config ≡ ok tt
unfolding validate_production_secrets validate_keyring_file read_secret_file validate_secret_path
    checked_info same_file sized checked_keyring keyring_materials validate_keyring_key
    pepper_material has_version disjoint contains base64_decode trim_space bytes_eq eq_ℤ
valid_keyrings = rw valid_peppers refl

valid_config : validate checks config ≡ ok tt
unfolding validate validate_production bytes_eq
valid_config = rw (valid_common, valid_keyrings) refl

loads : load readers checks environment api [] ≡ ok config
unfolding load defaults apply_flags flags_of apply_parsed_flags
loads = rw (loads_environment, valid_config) refl

production : bytes_eq config.profile (bytes "production") ≡ true
unfolding bytes_eq
production = refl

load-Hardened_example : Hardened checks config
load-Hardened_example = load-Hardened checks readers environment api [] config loads production

load-Fresh_example :
    (materials : List Bytes) × (api_peppers disk config.secrets ≡ ok materials) × Fresh [] materials
load-Fresh_example = load-Fresh checks readers environment api [] config loads production refl
