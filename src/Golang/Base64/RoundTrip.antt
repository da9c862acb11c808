-- ===== src/Golang/Base64/RoundTrip.antt =====
-- What is encoded is decoded, and an encoded text is made of the characters of the alphabet.
use go_webhook_delivery.Common.{
  is_empty, false, ◌≢◌, length, ◌*◌, ◌+◌, ◌≤◌, ℕ, ◌≤◌, ◌<◌, ◌≡◌, ◌≢◌, refl, some, List, [], ◌∷◌,
  map, arith, Bytes, All,
}
use go_webhook_delivery.Golang.Base64.{
  char_of, value_of, sextets, base64_encode, values, unpack, unpack?, without_line_ends,
  base64_decode,
}

abbrev pub IsByte : ℕ → Type 0
IsByte b = b < 256

value_of-char_of : (v : ℕ) → v < 64 → value_of (char_of v) ≡ some v
unfolding value_of char_of
value_of-char_of v h = ground arith

sextets-IsSextet : (s : Bytes) → All IsByte s → All (λ v. v < 64) (sextets s)
unfolding sextets
sextets-IsSextet [] h = tt
sextets-IsSextet (a ∷ []) h = omega arith
sextets-IsSextet (a ∷ b ∷ []) h = omega arith
sextets-IsSextet (a ∷ b ∷ c ∷ r) h =
    (omega arith, (omega arith, (omega arith, (omega arith, sextets-IsSextet r h.1.1.1))))

values-chars : (vs : List ℕ) → All (λ v. v < 64) vs → values (map char_of vs) ≡ some vs
unfolding values
values-chars [] h = refl
values-chars (v ∷ vs) h = rw (value_of-char_of v h.0, values-chars vs h.1) refl

unpack-sextets : (s : Bytes) → All IsByte s → unpack (sextets s) ≡ some s
unfolding unpack sextets
unpack-sextets [] h = refl
unpack-sextets (a ∷ []) h = ground arith
unpack-sextets (a ∷ b ∷ []) h = ground arith
unpack-sextets (a ∷ b ∷ c ∷ r) h = rw (unpack-sextets r h.1.1.1) (ground arith)

-- The alphabet: letters, digits, dash and underscore.
abbrev pub IsUrlChar : ℕ → Type 0
IsUrlChar c = (45 ≤ c) × (c ≤ 122) × (c ≢ 59) × (c ≢ 46) × (c ≢ 47)

char_of-IsUrlChar : (v : ℕ) → v < 64 → IsUrlChar (char_of v)
unfolding char_of
char_of-IsUrlChar v h = ground arith

chars-IsUrlChar : (vs : List ℕ) → All (λ v. v < 64) vs → All IsUrlChar (map char_of vs)
chars-IsUrlChar [] h = tt
chars-IsUrlChar (v ∷ vs) h = (char_of-IsUrlChar v h.0, chars-IsUrlChar vs h.1)

pub base64_encode-IsUrlChar : (s : Bytes) → All IsByte s → All IsUrlChar (base64_encode s)
unfolding base64_encode
base64_encode-IsUrlChar s h = chars-IsUrlChar (sextets s) (sextets-IsSextet s h)

no_line_ends : (s : Bytes) → All IsUrlChar s → without_line_ends s ≡ s
unfolding without_line_ends
no_line_ends [] h = refl
no_line_ends (c ∷ s) h = rw (no_line_ends s h.1) (ground (arith, h.0))

pub base64_decode-encode : (s : Bytes) → All IsByte s → base64_decode (base64_encode s) ≡ some s
unfolding base64_decode
base64_decode-encode s h = rw (no_line_ends (base64_encode s) (base64_encode-IsUrlChar s h)) (
    unfold base64_encode unpack? in
    rw (values-chars (sextets s) (sextets-IsSextet s h)) (unpack-sextets s h))

length-sextets : (s : Bytes) → length (sextets s) * 3 ≤ length s * 4 + 2
unfolding sextets
length-sextets [] = omega arith
length-sextets (a ∷ []) = omega arith
length-sextets (a ∷ b ∷ []) = omega arith
length-sextets (a ∷ b ∷ c ∷ s) = omega (arith, length-sextets s)

length-map : {A B : Type 0} (f : A → B) (xs : List A) → length (map f xs) ≡ length xs
length-map f [] = refl
length-map f (x ∷ xs) = omega (arith, length-map f xs)

pub length-base64_encode : (s : Bytes) → length (base64_encode s) * 3 ≤ length s * 4 + 2
unfolding base64_encode
length-base64_encode s = omega (arith, length-map char_of (sextets s), length-sextets s)

pub base64_encode-is_empty : (x : ℕ) (xs : Bytes) → is_empty (base64_encode (x ∷ xs)) ≡ false
unfolding base64_encode sextets
base64_encode-is_empty x [] = refl
base64_encode-is_empty x (y ∷ []) = refl
base64_encode-is_empty x (y ∷ z ∷ xs) = refl
