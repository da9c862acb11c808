-- ===== src/Golang/Hex.antt =====
-- `encoding/hex`: two digits to a byte. Both cases are read, lower case is written.
use go_webhook_delivery.Common.{
  ◌≢◌, ℕ, ◌+◌, ◌-◌, ◌*◌, ◌/◌, ◌%◌, ◌&&◌, Option, none, some, [], ◌∷◌, ltb, leb, if◌then◌else◌,
  Bytes, ◌≡◌, refl, ◌<◌, All, arith, ◌≤◌, length,
}
use go_webhook_delivery.Golang.Base64.RoundTrip.{IsByte}

hex_digit : ℕ → ℕ
hex_digit v = if ltb v 10 then b'0' + v else b'a' + (v - 10)

hex_value : ℕ → Option ℕ
hex_value c =
    if leb b'0' c && leb c b'9'
    then some (c - b'0')
    else if leb b'a' c && leb c b'f'
    then some (c - b'a' + 10)
    else if leb b'A' c && leb c b'F'
    then some (c - b'A' + 10)
    else none

unfoldable pub hex_encode : Bytes → Bytes
unfolding hex_digit
hex_encode [] = []
hex_encode (b ∷ s) = hex_digit (b / 16) ∷ hex_digit (b % 16) ∷ hex_encode s

pair : Option ℕ → Option ℕ → Option Bytes → Option Bytes
pair (some x) (some y) (some s) = some ((x * 16 + y) ∷ s)
pair _ _ _ = none

unfoldable pub hex_decode : Bytes → Option Bytes
unfolding hex_value pair
hex_decode [] = some []
hex_decode (c ∷ []) = none
hex_decode (c ∷ d ∷ s) = pair (hex_value c) (hex_value d) (hex_decode s)

hex_value-digit : (v : ℕ) → v < 16 → hex_value (hex_digit v) ≡ some v
unfolding hex_value hex_digit
hex_value-digit v h = ground arith

pub hex_decode-encode : (s : Bytes) → All IsByte s → hex_decode (hex_encode s) ≡ some s
unfolding hex_decode hex_encode
hex_decode-encode [] h = refl
hex_decode-encode (b ∷ s) h =
    rw
      (
        hex_value-digit (b / 16) (omega arith),
        hex_value-digit (b % 16) (omega arith),
        hex_decode-encode s h.1,
      )
      (ground arith)

-- What hex digits look like.
abbrev pub IsHexChar : ℕ → Type 0
IsHexChar c = (48 ≤ c) × (c ≤ 102)

hex_digit-IsHexChar :
    (v : ℕ) → v < 16 → (48 ≤ hex_digit v) × (hex_digit v ≤ 102) × (hex_digit v ≡ 95 → ⊥)
unfolding hex_digit
hex_digit-IsHexChar v h = ground arith

pub length-hex_encode : (s : Bytes) → length (hex_encode s) ≡ length s + length s
unfolding hex_encode
length-hex_encode [] = omega arith
length-hex_encode (b ∷ s) = omega (arith, length-hex_encode s)

pub hex_encode-Avoids : (s : Bytes) → All IsByte s → All (λ c. c ≢ 95) (hex_encode s)
unfolding hex_encode
hex_encode-Avoids [] h = tt
hex_encode-Avoids (b ∷ s) h = (
  (hex_digit-IsHexChar (b / 16) (omega (arith, h.0))).2,
  ((hex_digit-IsHexChar (b % 16) (omega arith)).2, hex_encode-Avoids s h.1),
)
