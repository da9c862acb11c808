-- ===== src/Config/Secrets.antt =====
-- internal/platform/config/secrets.go and keyring.go: the check of the secret files in production. The
-- file system and the JSON decoder are arguments.
pub mod Distinct
use go_webhook_delivery.Common.{
  ℕ, ◌+◌, ◌%◌, Bool, true, false, not, ◌&&◌, ◌||◌, Option, none, some, List, [], ◌∷◌, ◌++◌, ltb,
  ◌==◌, if◌then◌else◌, Bytes, bytes, bytes_eq, is_empty, length, ℤ, pos, leb_ℤ, eq_ℤ, Result, ok,
  err, ◌>>=◌, ◌>>◌, require,
}
use go_webhook_delivery.Golang.Base64.{base64_decode}
use go_webhook_delivery.Golang.Strings.{trim_space, cut_prefix}
use go_webhook_delivery.Cryptobox.Keyrings.{
  FileInfo, Files, Entry, KeyringDocument, max_secret, contains,
}
use go_webhook_delivery.Config.{Service, api, console, SecretFiles, Config, ConfigError, invalid}

unfoldable pub checked_info : Bytes → ℕ → Option FileInfo → Result ConfigError (Unit {0})
checked_info name euid none = err (invalid name)
checked_info name euid (some info) = do
  require (not (info.is_symlink || not info.is_regular)) (invalid name)
  -- the six low bits are the rights of the group and of all others
  require (info.perm % 64 == 0) (invalid name)
  require (owned info.uid) (invalid name)
  where
    owned : Option ℕ → Bool
    owned none = false
    owned (some uid) = uid == euid

unfoldable pub same_file : Option (Option Bool) → Bool
same_file (some (some same)) = same
same_file _ = false

unfoldable pub sized : Bytes → Option Bytes → Result ConfigError Bytes
sized name none = err (invalid name)
sized name (some contents) = do
  require (not (is_empty contents || ltb max_secret (length contents))) (invalid name)
  ok contents

unfoldable pub pepper_material : Bytes → Option Bytes → Result ConfigError Bytes
pepper_material name none = err (invalid name)
pepper_material name (some decoded) = do require (length decoded == 32) (invalid name); ok decoded

unfoldable pub decode_pepper : Bytes → Option Bytes → Result ConfigError Bytes
unfolding pepper_material
decode_pepper name none = err (invalid name)
decode_pepper name (some encoded) = pepper_material name (base64_decode encoded)

-- The loop over the materials of the API's peppers.
unfoldable pub all_distinct : List Bytes → List Bytes → Bool
all_distinct seen [] = true
all_distinct seen (m ∷ ms) = not (contains m seen) && all_distinct (m ∷ seen) ms

-- `validateKeyringKeys`: versions and materials so far, and whether the primary version was found.
unfoldable pub has_version : ℤ → List ℤ → Bool
has_version v [] = false
has_version v (w ∷ ws) = eq_ℤ w v || has_version v ws

unfoldable pub validate_keyring_key : Bytes → Entry → List ℤ → List Bytes → Result ConfigError Bytes
unfolding pepper_material
validate_keyring_key name e versions materials = do
  require (not (leb_ℤ e.version (pos 0))) (invalid name)
  require (not (has_version e.version versions)) (invalid name)
  material ← pepper_material name (base64_decode e.material)
  require (not (contains material materials)) (invalid name)
  ok material

unfoldable pub keyring_materials :
    Bytes → ℤ → List Entry → List ℤ → List Bytes → Bool → Result ConfigError (List Bytes)
keyring_materials name primary [] versions materials found = do
  require found (invalid name)
  ok materials
keyring_materials name primary (e ∷ es) versions materials found = do
  material ← validate_keyring_key name e versions materials
  keyring_materials name primary es (e.version ∷ versions) (material ∷ materials)
      (found || eq_ℤ e.version primary)

unfoldable pub checked_keyring : Bytes → Option KeyringDocument → Result ConfigError (List Bytes)
unfolding keyring_materials
checked_keyring name none = err (invalid name)
checked_keyring name (some d) = do
  require
      (not (
        not (eq_ℤ d.format (pos 1))
        || leb_ℤ d.primary_key_version (pos 0)
        || is_empty d.entries
        || ltb 8 (length d.entries)))
      (invalid name)
  keyring_materials name d.primary_key_version d.entries [] [] false

unfoldable pub disjoint : List Bytes → List Bytes → Bool
disjoint [] signing = true
disjoint (m ∷ ms) signing = not (contains m signing) && disjoint ms signing

module _ (fs : Files) where
  unfoldable pub validate_secret_path : Bytes → Bytes → Result ConfigError (Unit {0})
  unfolding checked_info
  validate_secret_path name path = do
    require (not (is_empty (trim_space path))) (invalid name)
    checked_info name fs.euid (fs.lstat path)

  unfoldable pub read_secret_file : Bytes → Bytes → Result ConfigError Bytes
  unfolding same_file sized
  read_secret_file name path = do
    validate_secret_path name path
    require (same_file (fs.opened path)) (invalid name)
    sized name (fs.content path (max_secret + 1))

  unfoldable pub validate_pepper_file : Bytes → Bytes → Result ConfigError Bytes
  unfolding decode_pepper
  validate_pepper_file name path = do
    contents ← read_secret_file name path
    decode_pepper name (cut_prefix (trim_space contents) (bytes "v1:"))

  -- The materials of the five peppers.
  unfoldable pub api_peppers : SecretFiles → Result ConfigError (List Bytes)
  api_peppers files = do
    auth ← validate_pepper_file (bytes "WDE_AUTH_PEPPER_FILE") files.auth_pepper_file
    idempotency ←
        validate_pepper_file (bytes "WDE_IDEMPOTENCY_PEPPER_FILE") files.idempotency_pepper_file
    fingerprint ←
        validate_pepper_file (bytes "WDE_FINGERPRINT_PEPPER_FILE") files.fingerprint_pepper_file
    rate_limit ←
        validate_pepper_file (bytes "WDE_RATE_LIMIT_PEPPER_FILE") files.rate_limit_pepper_file
    cursor ← validate_pepper_file (bytes "WDE_CURSOR_PEPPER_FILE") files.cursor_pepper_file
    ok (auth ∷ idempotency ∷ fingerprint ∷ rate_limit ∷ cursor ∷ [])

  unfoldable pub validate_api_peppers : SecretFiles → Result ConfigError (Unit {0})
  validate_api_peppers files = do
    materials ← api_peppers files
    require (all_distinct [] materials) (invalid (bytes "peppers"))

  -- The second reading of the five peppers.
  unfoldable pub console_base : SecretFiles → Result ConfigError (List Bytes)
  console_base files = do
    auth ← validate_pepper_file (bytes "console pepper") files.auth_pepper_file
    idempotency ← validate_pepper_file (bytes "console pepper") files.idempotency_pepper_file
    fingerprint ← validate_pepper_file (bytes "console pepper") files.fingerprint_pepper_file
    rate_limit ← validate_pepper_file (bytes "console pepper") files.rate_limit_pepper_file
    cursor ← validate_pepper_file (bytes "console pepper") files.cursor_pepper_file
    ok (cursor ∷ rate_limit ∷ fingerprint ∷ idempotency ∷ auth ∷ [])

  unfoldable pub validate_console_peppers : SecretFiles → Result ConfigError (Unit {0})
  validate_console_peppers files = do
    validate_api_peppers files
    session ←
        validate_pepper_file (bytes "WDE_CONSOLE_SESSION_PEPPER_FILE") files.session_pepper_file
    csrf ← validate_pepper_file (bytes "WDE_CONSOLE_CSRF_PEPPER_FILE") files.csrf_pepper_file
    base ← console_base files
    require (not (bytes_eq session csrf)) (invalid (bytes "console peppers"))
    require (not (contains session base)) (invalid (bytes "session pepper"))
    require (not (contains csrf base)) (invalid (bytes "CSRF pepper"))

  -- `decode_json` is the strict JSON decoder: one document, no unknown field, nothing behind it.
  unfoldable pub validate_keyring_file :
      (Bytes → Option KeyringDocument) → Bytes → Bytes → Result ConfigError (List Bytes)
  unfolding checked_keyring
  validate_keyring_file decode_json name path = do
    contents ← read_secret_file name path
    checked_keyring name (decode_json contents)

  -- The peppers that the service needs.
  unfoldable pub service_peppers : Service → SecretFiles → Result ConfigError (Unit {0})
  service_peppers api files = validate_api_peppers files
  service_peppers console files = validate_console_peppers files
  service_peppers _ files = ok tt

  unfoldable pub validate_production_secrets :
      (Bytes → Option KeyringDocument) → Config → Result ConfigError (Unit {0})
  unfolding service_peppers
  validate_production_secrets decode_json c = do
    service_peppers c.service c.secrets
    payload ←
        validate_keyring_file decode_json (bytes "WDE_PAYLOAD_KEYRING_FILE")
          c.secrets.payload_keyring_file
    signing ←
        validate_keyring_file decode_json (bytes "WDE_SIGNING_KEYRING_FILE")
          c.secrets.signing_keyring_file
    require (disjoint payload signing) (invalid (bytes "keyrings"))
