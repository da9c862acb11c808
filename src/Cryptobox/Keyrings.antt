-- ===== src/Cryptobox/Keyrings.antt =====
-- internal/platform/cryptobox/materials.go and secretfile.go: the key material that is read at the
-- start. The file system and the JSON decoder are arguments.
pub mod Loaded
use go_webhook_delivery.Common.{
  ℕ, ◌+◌, ◌-◌, ◌%◌, ◌≤◌, Bool, true, false, not, ◌&&◌, ◌||◌, Option, none, some, List, [], ◌∷◌, ltb,
  leb, ◌==◌, if◌then◌else◌, Bytes, bytes, bytes_eq, is_empty, length, drop, ℤ, pos, leb_ℤ, ltb_ℤ,
  eq_ℤ, int16, Result, ok, err, ◌>>=◌, ◌>>◌, require,
}
use mathlib.Core.List.{reverse}
use go_webhook_delivery.Golang.Base64.{base64_decode}
use go_webhook_delivery.Golang.Strings.{cut_prefix}
use go_webhook_delivery.Cryptobox.{Keyring, lookup_key}

pub data LoadError : Type 0 where
  unsafe_secret_file unsafe_secret_owner cannot_open_secret_file : LoadError
  secret_file_changed invalid_secret_size : LoadError
  cannot_read_pepper invalid_pepper cannot_read_keyring invalid_keyring : LoadError
  invalid_keyring_key duplicate_key_version duplicate_key_material missing_primary_key : LoadError
  payload_keyring_unavailable signing_keyring_unavailable : LoadError

-- What `os.Lstat` tells of a file: `uid` is absent where the system does not give it.
pub record FileInfo : Type 0 where
  pub is_symlink : Bool
  pub is_regular : Bool
  pub perm : ℕ
  pub uid : Option ℕ

-- The calls of `os`. `opened` opens the file and says whether it is the one that `lstat` saw;
-- `content` reads up to the given number of bytes.
pub record Files : Type 0 where
  pub euid : ℕ
  pub lstat : Bytes → Option FileInfo
  pub opened : Bytes → Option (Option Bool)
  pub content : Bytes → ℕ → Option Bytes

abbrev pub max_secret : ℕ
max_secret = 65536

safe_mode : Option FileInfo → Result LoadError FileInfo
safe_mode none = err unsafe_secret_file
safe_mode (some info) =
    -- the six low bits are the rights of the group and of all others
    if info.is_symlink || not info.is_regular || not (info.perm % 64 == 0)
    then err unsafe_secret_file
    else ok info

safe_owner : ℕ → Option ℕ → Result LoadError (Unit {0})
safe_owner euid none = err unsafe_secret_owner
safe_owner euid (some uid) = if uid == euid then ok tt else err unsafe_secret_owner

same_file : Option (Option Bool) → Result LoadError (Unit {0})
same_file none = err cannot_open_secret_file
same_file (some none) = err secret_file_changed
same_file (some (some same)) = require same secret_file_changed

sized : Option Bytes → Result LoadError Bytes
sized none = err invalid_secret_size
sized (some raw) =
    if is_empty raw || ltb max_secret (length raw) then err invalid_secret_size else ok raw

unfoldable pub secure_read : Files → Bytes → Result LoadError Bytes
unfolding safe_mode safe_owner same_file sized
secure_read fs path = do
  info ← safe_mode (fs.lstat path)
  safe_owner fs.euid info.uid
  same_file (fs.opened path)
  sized (fs.content path (max_secret + 1))

-- The loop of `trimV1` takes line ends and blanks off the end of the text, given in reverse.
drop_blanks : Bytes → Bytes
drop_blanks [] = []
drop_blanks (c ∷ s) =
    let rest = drop_blanks s in if c == 10 || c == 13 || c == 32 then rest else c ∷ s

after_version : Option Bytes → Bytes
after_version none = []
after_version (some rest) = rest

unfoldable pub trim_v1 : Bytes → Bytes
unfolding drop_blanks after_version
trim_v1 value = after_version (cut_prefix (reverse (drop_blanks (reverse value))) (bytes "v1:"))

pepper_of : Option Bytes → Result LoadError Bytes
pepper_of none = err invalid_pepper
pepper_of (some decoded) = if length decoded == 32 then ok decoded else err invalid_pepper

with_pepper : Result LoadError Bytes → Result LoadError Bytes
unfolding pepper_of
with_pepper (ok raw) = pepper_of (base64_decode (trim_v1 raw))
with_pepper (err e) = err cannot_read_pepper

unfoldable pub read_pepper : Files → Bytes → Result LoadError Bytes
unfolding with_pepper
read_pepper fs path = with_pepper (secure_read fs path)

pub record Entry : Type 0 where
  pub version : ℤ
  pub material : Bytes

pub record KeyringDocument : Type 0 where
  pub format : ℤ
  pub primary_key_version : ℤ
  pub entries : List Entry

key_of : ℤ → Option Bytes → Result LoadError Bytes
key_of version none = err invalid_keyring_key
key_of version (some decoded) =
    if not (length decoded == 32) || leb_ℤ version (pos 0) || ltb_ℤ (pos 32767) version
    then err invalid_keyring_key
    else ok decoded

unfoldable pub decode_key : ℤ → Bytes → Result LoadError Bytes
unfolding key_of
decode_key version material = key_of version (base64_decode material)

is_some {ℓ} : {A : Type ℓ} → Option A → Bool
is_some none = false
is_some (some a) = true

unfoldable pub contains : Bytes → List Bytes → Bool
contains key [] = false
contains key (k ∷ ks) = bytes_eq k key || contains key ks

-- The loop of `keyring`, over the keys and the set of materials so far.
add_entries : List Entry → List (ℤ × Bytes) → List Bytes → Result LoadError (List (ℤ × Bytes))
unfolding is_some
add_entries [] keys materials = ok keys
add_entries (e ∷ es) keys materials = do
  key ← decode_key e.version e.material
  require (not (is_some (lookup_key (int16 e.version) keys))) duplicate_key_version
  require (not (contains key materials)) duplicate_key_material
  add_entries es ((int16 e.version, key) ∷ keys) (key ∷ materials)

unfoldable pub keyring : KeyringDocument → Result LoadError Keyring
unfolding add_entries is_some
keyring document = do
  keys ← add_entries document.entries [] []
  require (is_some (lookup_key (int16 document.primary_key_version) keys)) missing_primary_key
  ok (record { primary = int16 document.primary_key_version; keys = keys })

-- `decode_json` is the strict JSON decoder: one document, no unknown field, nothing behind it.
checked_document : Option KeyringDocument → Result LoadError KeyringDocument
checked_document none = err invalid_keyring
checked_document (some document) =
    if not (eq_ℤ document.format (pos 1))
      || ltb (length document.entries) 1
      || ltb 8 (length document.entries)
    then err invalid_keyring
    else ok document

read_raw : Result LoadError Bytes → Result LoadError Bytes
read_raw (ok raw) = ok raw
read_raw (err e) = err cannot_read_keyring

unfoldable pub read_keyring :
    Files → (Bytes → Option KeyringDocument) → Bytes → Result LoadError Keyring
unfolding read_raw checked_document
read_keyring fs decode_json path = do
  raw ← read_raw (secure_read fs path)
  document ← checked_document (decode_json raw)
  keyring document

pub record Materials : Type 0 where
  pub auth_pepper : Bytes
  pub idempotency_pepper : Bytes
  pub fingerprint_pepper : Bytes
  pub rate_limit_pepper : Bytes
  pub cursor_pepper : Bytes
  pub session_pepper : Bytes
  pub csrf_pepper : Bytes
  pub payload : Keyring
  pub signing : Keyring

usable : Keyring → Bool
unfolding is_some
usable ring = is_some (lookup_key ring.primary ring.keys) && not (leb_ℤ ring.primary (pos 0))

-- `Ready`.
unfoldable pub ready : Materials → Result LoadError (Unit {0})
unfolding usable
ready m = do
  require (usable m.payload) payload_keyring_unavailable
  require (usable m.signing) signing_keyring_unavailable
