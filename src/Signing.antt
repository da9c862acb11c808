-- ===== src/Signing.antt =====
-- internal/signing/signing.go: the signature of a delivery and its check.

pub mod Headers
pub mod Accepts
pub mod Sound
mod Examples
use go_webhook_delivery.Common.{
  ℕ, ◌+◌, ◌*◌, ◌≤◌, ◌≡◌, Bool, true, false, not, ◌&&◌, ◌||◌, Option, none, some, List, [], ◌∷◌,
  ◌++◌, ◌==◌, if◌then◌else◌, Bytes, bytes, bytes_eq, is_empty, length, All, ℤ, pos, negsuc, ◌+ℤ◌,
  ◌-ℤ◌, ◌*ℤ◌, int64, ltb_ℤ, leb_ℤ, Result, ok, err, ◌>>=◌, ◌>>◌, require,
}
use go_webhook_delivery.Golang.Decimal.{format_int, parse_int, int64_bound}
use go_webhook_delivery.Golang.Strings.{trim_space, cut_prefix, split}
use go_webhook_delivery.Golang.Base64.{base64_encode, base64_decode}
use go_webhook_delivery.Golang.Base64.RoundTrip.{IsByte}
use go_webhook_delivery.Golang.Time.{unix_time, time_sub, second}

-- `hmac.New(sha256.New, key)`: 32 bytes for each message.
pub record Hmac : Type 0 where
  pub mac : Bytes → Bytes → Bytes
  pub mac_size : (key message : Bytes) → length (mac key message) ≡ 32
  pub mac_bytes : (key message : Bytes) → All IsByte (mac key message)

pub data SigningError : Type 0 where
  invalid : SigningError

unfoldable pub canonical : ℤ → Bytes → Bytes → Bytes → Bytes → Bytes
canonical timestamp event_id delivery_id key_id body =
    bytes "v1\n"
    ++ (format_int timestamp
        ++ (bytes "\n"
            ++ (event_id
                ++ (bytes "\n"
                    ++ (delivery_id ++ (bytes "\n" ++ (key_id ++ (bytes "\n" ++ body))))))))

unfoldable pub header_value : Bytes → Bytes → Bytes
header_value key_id signature = bytes "key_id=" ++ (key_id ++ (bytes ",v1=" ++ signature))

-- One entry of the header: the signature, if the entry is for the key.
entry_signature : Bytes → Option Bytes → Option Bytes → Option Bytes
entry_signature key_id (some kid) (some sig) =
    if bytes_eq kid key_id && not (is_empty kid) && not (is_empty sig) then some sig else none
entry_signature key_id _ _ = none

read_entry : Bytes → List Bytes → Option Bytes
unfolding entry_signature
read_entry key_id (a ∷ b ∷ []) =
    entry_signature key_id (cut_prefix a (bytes "key_id=")) (cut_prefix b (bytes "v1="))
read_entry key_id _ = none

first_of_two : Option Bytes → Option Bytes → Option Bytes
first_of_two none later = later
first_of_two (some s) later = some s

find_entry : Bytes → List Bytes → Option Bytes
unfolding read_entry first_of_two
find_entry key_id [] = none
find_entry key_id (entry ∷ entries) =
    first_of_two (read_entry key_id (split b',' (trim_space entry))) (find_entry key_id entries)

unfoldable pub signature_for_key : Bytes → Bytes → Option Bytes
unfolding find_entry
signature_for_key value key_id = find_entry key_id (split b';' value)

-- Where `None` is an error of the callee, so is the whole.
abbrev pub or_invalid {ℓ} : {A : Type ℓ} → Option A → Result SigningError A
or_invalid none = err invalid
or_invalid (some a) = ok a

-- The distance of the two times, as the code computes it in int64.
unfoldable pub skew : ℤ → ℤ → ℤ
skew now seconds =
    let delta = time_sub now (unix_time seconds) in
    if ltb_ℤ delta (pos 0) then int64 (pos 0 -ℤ delta) else delta

pub decoded_signature : Option Bytes → Result SigningError Bytes
decoded_signature none = err invalid
decoded_signature (some decoded) = if length decoded == 32 then ok decoded else err invalid

-- `expectedRaw, _ :=` is empty where the decoding fails.
pub raw_or_empty : Option Bytes → Bytes
raw_or_empty none = []
raw_or_empty (some raw) = raw

module _ (h : Hmac) where
  unfoldable pub sign : Bytes → ℤ → Bytes → Bytes → Bytes → Bytes → Bytes
  sign secret timestamp event_id delivery_id key_id body =
      base64_encode (h.mac secret (canonical timestamp event_id delivery_id key_id body))

  unfoldable pub verify :
      Bytes → ℤ → ℤ → Bytes → Bytes → Bytes → Bytes → Bytes → Bytes → Result SigningError (Unit {0})
  unfolding decoded_signature raw_or_empty
  verify secret now max_skew timestamp event_id delivery_id key_id header body = do
    require (not (leb_ℤ max_skew (pos 0) || ltb_ℤ (pos (900 * second)) max_skew)) invalid
    seconds ← or_invalid (parse_int int64_bound timestamp)
    require (not (ltb_ℤ max_skew (skew now seconds))) invalid
    signature ← or_invalid (signature_for_key header key_id)
    decoded ← decoded_signature (base64_decode signature)
    let expected = sign secret seconds event_id delivery_id key_id body
    require (bytes_eq decoded (raw_or_empty (base64_decode expected))) invalid
