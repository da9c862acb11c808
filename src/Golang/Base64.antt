-- ===== src/Golang/Base64.antt =====
-- `base64.RawURLEncoding`: six bits to a character, no padding. Its strict decoder skips line ends
-- and refuses a last group with bits that no byte takes.
pub mod RoundTrip
use go_webhook_delivery.Common.{
  ℕ, ◌+◌, ◌-◌, ◌*◌, ◌/◌, ◌%◌, Bool, ◌&&◌, ◌||◌, Option, none, some, List, [], ◌∷◌, map, ltb, leb,
  ◌==◌, if◌then◌else◌, Bytes,
}

char_of : ℕ → ℕ
char_of v =
    if ltb v 26
    then b'A' + v
    else if ltb v 52
    then b'a' + (v - 26)
    else if ltb v 62
    then b'0' + (v - 52)
    else if v == 62
    then b'-'
    else b'_'

value_of : ℕ → Option ℕ
value_of c =
    if leb b'A' c && leb c b'Z'
    then some (c - b'A')
    else if leb b'a' c && leb c b'z'
    then some (c - b'a' + 26)
    else if leb b'0' c && leb c b'9'
    then some (c - b'0' + 52)
    else if c == b'-'
    then some 62
    else if c == b'_'
    then some 63
    else none

-- The groups of six bits.
sextets : Bytes → List ℕ
sextets [] = []
sextets (a ∷ []) = (a / 4) ∷ (a % 4 * 16) ∷ []
sextets (a ∷ b ∷ []) = (a / 4) ∷ (a % 4 * 16 + b / 16) ∷ (b % 16 * 4) ∷ []
sextets (a ∷ b ∷ c ∷ r) =
    (a / 4) ∷ (a % 4 * 16 + b / 16) ∷ (b % 16 * 4 + c / 64) ∷ (c % 64) ∷ sextets r

unfoldable pub base64_encode : Bytes → Bytes
unfolding sextets char_of
base64_encode s = map char_of (sextets s)

cons? : Option ℕ → Option (List ℕ) → Option (List ℕ)
cons? none vs = none
cons? (some v) none = none
cons? (some v) (some vs) = some (v ∷ vs)

values : Bytes → Option (List ℕ)
unfolding cons? value_of
values [] = some []
values (c ∷ cs) = cons? (value_of c) (values cs)

more : ℕ → ℕ → ℕ → Option Bytes → Option Bytes
more a b c none = none
more a b c (some r) = some (a ∷ b ∷ c ∷ r)

unpack : List ℕ → Option Bytes
unfolding more
unpack [] = some []
unpack (x ∷ []) = none
unpack (x ∷ y ∷ []) = if y % 16 == 0 then some ((x * 4 + y / 16) ∷ []) else none
unpack (x ∷ y ∷ z ∷ []) =
    if z % 4 == 0 then some ((x * 4 + y / 16) ∷ (y % 16 * 16 + z / 4) ∷ []) else none
unpack (x ∷ y ∷ z ∷ w ∷ r) = more (x * 4 + y / 16) (y % 16 * 16 + z / 4) (z % 4 * 64 + w) (unpack r)

without_line_ends : Bytes → Bytes
without_line_ends [] = []
without_line_ends (c ∷ cs) =
    let rest = without_line_ends cs in if c == 10 || c == 13 then rest else c ∷ rest

unpack? : Option (List ℕ) → Option Bytes
unfolding unpack
unpack? none = none
unpack? (some vs) = unpack vs

unfoldable pub base64_decode : Bytes → Option Bytes
unfolding without_line_ends values unpack?
base64_decode s = unpack? (values (without_line_ends s))
