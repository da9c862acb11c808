-- ===== src/Cryptobox.antt =====
-- internal/platform/cryptobox/cryptobox.go: versioned authenticated encryption.
pub mod Aad
pub mod Sealing
pub mod Keyrings
mod Examples
use go_webhook_delivery.Common.{
  ℕ, ◌<◌, ◌≤◌, ◌≡◌, ◌+◌, Bool, ◌&&◌, ◌||◌, Option, none, some, List, [], ◌∷◌, ◌++◌, ltb, ◌==◌,
  if◌then◌else◌, Bytes, length, ℤ, pos, eq_ℤ, ltb_ℤ, leb_ℤ, not, Result, ok, err, ◌>>=◌, ◌>>◌,
  require, ◌%◌,
}
use go_webhook_delivery.Golang.BigEndian.{put_uint32}

pub data Error : Type 0 where
  primary_key_unavailable initialize_cipher generate_nonce : Error
  invalid_envelope key_unavailable authentication_failed : Error

abbrev pub legacy_format_version : ℤ
legacy_format_version = pos 1

abbrev pub format_version : ℤ
format_version = pos 2

pub record Envelope : Type 0 where
  pub version : ℤ
  pub kek_version : ℤ
  pub nonce : Bytes
  pub ciphertext : Bytes

-- The `Keys` map as an association list, and its primary version.
pub record Keyring : Type 0 where
  pub primary : ℤ
  pub keys : List (ℤ × Bytes)

unfoldable pub lookup_key : ℤ → List (ℤ × Bytes) → Option Bytes
lookup_key v [] = none
lookup_key v ((w, key) ∷ keys) = if eq_ℤ w v then some key else lookup_key v keys

-- AES-GCM of `crypto/cipher`: key, nonce, text, associated data. A ciphertext ends in a tag of
-- sixteen bytes.
pub record Aead : Type 0 where
  pub encrypt : Bytes → Bytes → Bytes → Bytes → Bytes
  pub decrypt : Bytes → Bytes → Bytes → Bytes → Option Bytes
  pub decrypt-encrypt :
      (key nonce text aad : Bytes) → decrypt key nonce (encrypt key nonce text aad) aad ≡ some text
  pub tag_fits : (key nonce text aad : Bytes) → 16 ≤ length (encrypt key nonce text aad)

-- `rand.Read` into a slice of the given length; `none` is its error.
abbrev pub Random : Type 0
Random = ℕ → Option Bytes

-- `aes.NewCipher` wants a key of 16, 24 or 32 bytes; the GCM of such a cipher is its key here.
unfoldable pub new_cipher : Bytes → Result Error Bytes
new_cipher key =
    if length key == 16 || length key == 24 || length key == 32
    then ok key
    else err initialize_cipher

cipher_for : ℤ → Option Bytes → Result Error (Bytes × ℤ)
unfolding new_cipher
cipher_for version none = err primary_key_unavailable
cipher_for version (some key) = do gcm ← new_cipher key; ok (gcm, version)

primary_cipher : Keyring → Result Error (Bytes × ℤ)
unfolding cipher_for
primary_cipher ring = cipher_for ring.primary (lookup_key ring.primary ring.keys)

abbrev pub nonce_size : ℕ
nonce_size = 12

fill_envelope : Aead → Bytes × ℤ → Bytes → Bytes → Option Bytes → Result Error Envelope
fill_envelope aead cipher plaintext aad none = err generate_nonce
fill_envelope aead (gcm, key_version) plaintext aad (some nonce) = ok (record {
  version = format_version;
  kek_version = key_version;
  nonce = nonce;
  ciphertext = aead.encrypt gcm nonce plaintext aad;
})

unfoldable pub seal : Aead → Random → Keyring → Bytes → Bytes → Result Error Envelope
unfolding primary_cipher fill_envelope
seal aead random ring plaintext aad = do
  cipher ← primary_cipher ring
  fill_envelope aead cipher plaintext aad (random nonce_size)

unfoldable pub validate : Envelope → Result Error (Unit {0})
validate e =
    if not (eq_ℤ e.version legacy_format_version) && not (eq_ℤ e.version format_version)
      || leb_ℤ e.kek_version (pos 0)
      || not (length e.nonce == 12)
      || ltb (length e.ciphertext) 16
    then err invalid_envelope
    else ok tt

unfoldable pub decrypted : Option Bytes → Result Error Bytes
decrypted none = err authentication_failed
decrypted (some plaintext) = ok plaintext

unfoldable pub open_with : Aead → Envelope → Bytes → Option Bytes → Result Error Bytes
unfolding new_cipher decrypted
open_with aead e aad none = err key_unavailable
open_with aead e aad (some key) = do
  gcm ← new_cipher key
  decrypted (aead.decrypt gcm e.nonce e.ciphertext aad)

-- `Open`.
unfoldable pub unseal : Aead → Keyring → Envelope → Bytes → Result Error Bytes
unfolding open_with
unseal aead ring e aad = do validate e; open_with aead e aad (lookup_key e.kek_version ring.keys)

-- `AAD`: each part behind its length as a uint32.
unfoldable pub associated_data : List Bytes → Bytes
associated_data [] = []
associated_data (part ∷ parts) =
    put_uint32 (length part % 4294967296) ++ (part ++ associated_data parts)
