-- ===== src/Cryptobox/Keyrings/Loaded.antt =====
-- What an accepted keyring document gives: keys of 32 bytes under distinct positive versions, and
-- a primary key that `Seal` can use.
use go_webhook_delivery.Common.{
  ℕ, ◌+◌, ◌*◌, ◌%◌, ◌≡◌, refl, true, false, not, Option, none, some, List, [], ◌∷◌, inl, inr, arith,
  Bytes, All, length, ℤ, pos, negsuc, ◌≤ℤ◌, ◌<ℤ◌, int16, ok, Result-cases, eq_ℤ_iff,
}
use go_webhook_delivery.Golang.Base64.{base64_decode}
use go_webhook_delivery.Cryptobox.{Keyring, lookup_key}
use go_webhook_delivery.Cryptobox.Sealing.{HasPrimary}
use go_webhook_delivery.Cryptobox.Keyrings.{
  Entry, KeyringDocument, decode_key, key_of, is_some, contains, add_entries, keyring,
}

abbrev pub IsKey : ℤ × Bytes → Type 0
IsKey (version, key) = (pos 0 <ℤ version) × (version ≤ℤ pos 32767) × (length key ≡ 32)

abbrev pub materials_of : List (ℤ × Bytes) → List Bytes
materials_of [] = []
materials_of ((v, k) ∷ keys) = k ∷ materials_of keys

-- No version and no key material stands twice.
abbrev pub Distinct : List (ℤ × Bytes) → Type 0
Distinct [] = Unit
Distinct ((v, k) ∷ keys) =
    (lookup_key v keys ≡ none) × (contains k (materials_of keys) ≡ false) × Distinct keys

key_of_ok :
    (version : ℤ) (decoded : Option Bytes) (key : Bytes)
    → key_of version decoded ≡ ok key
    → IsKey (version, key)
unfolding key_of
key_of_ok version none key h = cc
key_of_ok version (some d) key h = ground arith

decode_key-IsKey :
    (version : ℤ) (material key : Bytes)
    → decode_key version material ≡ ok key
    → IsKey (version, key)
unfolding decode_key
decode_key-IsKey version material key h = key_of_ok version (base64_decode material) key h

int16_id : (v : ℤ) → pos 0 <ℤ v → v ≤ℤ pos 32767 → int16 v ≡ v
unfolding int16
int16_id (pos n) h le = ground arith
int16_id (negsuc n) h le = absurd (omega arith)

is_some-false : (o : Option Bytes) → not (is_some o) ≡ true → o ≡ none
unfolding is_some
is_some-false none h = refl
is_some-false (some k) h = cc

is_some-true : (o : Option Bytes) → is_some o ≡ true → (k : Bytes) × (o ≡ some k)
unfolding is_some
is_some-true none h = cc
is_some-true (some k) h = (k, refl)

-- One round of the loop that did not fail.
add_entry_ok :
    (e : Entry) (es : List Entry) (keys out : List (ℤ × Bytes)) (ms : List Bytes)
    → add_entries (e ∷ es) keys ms ≡ ok out
    → (key : Bytes) × (decode_key e.version e.material ≡ ok key)
      × (not (is_some (lookup_key (int16 e.version) keys)) ≡ true)
      × (contains key ms ≡ false)
      × (add_entries es ((int16 e.version, key) ∷ keys) (key ∷ ms) ≡ ok out)
unfolding add_entries
add_entry_ok e es keys out ms h = elim (Result-cases (decode_key e.version e.material)) [
  | inl (key, d) ↦ (key, d, ground arith, ground arith, ground arith)
  | inr (x, d) ↦ absurd (ground arith)
]

add_entries_end :
    (keys out : List (ℤ × Bytes)) (ms : List Bytes) → add_entries [] keys ms ≡ ok out → out ≡ keys
unfolding add_entries
add_entries_end keys out ms h = cc

add_entries-keeps :
    (es : List Entry) (keys out : List (ℤ × Bytes))
    → All IsKey keys
    → Distinct keys
    → add_entries es keys (materials_of keys) ≡ ok out
    → (All IsKey out) × Distinct out × (length out ≡ length es + length keys)
add_entries-keeps [] keys out a d h =
    rw (add_entries_end keys out (materials_of keys) h) (a, d, omega arith)
add_entries-keeps (e ∷ es) keys out a d h =
    let (key, decoded, new, fresh, rest) = add_entry_ok e es keys out (materials_of keys) h in
    let good = decode_key-IsKey e.version e.material key decoded in
    let same = int16_id e.version good.0 good.1 in
    let (a', d', n) =
      add_entries-keeps es ((int16 e.version, key) ∷ keys) out (rw same good, a)
        (is_some-false _ new, fresh, d) rest in
    (a', d', omega arith)

lookup_key-IsKey :
    (v : ℤ) (keys : List (ℤ × Bytes)) (key : Bytes)
    → All IsKey keys
    → lookup_key v keys ≡ some key
    → IsKey (v, key)
unfolding lookup_key
lookup_key-IsKey v [] key a h = cc
lookup_key-IsKey v ((w, k) ∷ keys) key a h =
    ground (arith, eq_ℤ_iff w v, lookup_key-IsKey v keys key)

keyring_parts :
    (document : KeyringDocument) (ring : Keyring)
    → keyring document ≡ ok ring
    → (add_entries document.entries [] [] ≡ ok ring.keys)
      × (is_some (lookup_key ring.primary ring.keys) ≡ true)
      × (ring.primary ≡ int16 document.primary_key_version)
unfolding keyring
keyring_parts document ring h = elim (Result-cases (add_entries document.entries [] [])) [
  | inl (keys, e) ↦ ground arith
  | inr (x, e) ↦ absurd (ground arith)
]

-- Whatever document is accepted, the keyring has one key for each entry; every version lies between
-- 1 and 32767 and every key has 32 bytes; no version and no key stands twice; and the primary
-- version, which is that of the document as an int16, names a key that `Seal` can use.
pub keyring-IsUsable :
    (document : KeyringDocument) (ring : Keyring)
    → keyring document ≡ ok ring
    → (All IsKey ring.keys)
      × Distinct ring.keys
      × (length ring.keys ≡ length document.entries)
      × (ring.primary ≡ int16 document.primary_key_version)
      × (key : Bytes) × HasPrimary ring key
keyring-IsUsable document ring h =
    let (added, found, primary) = keyring_parts document ring h in
    let (keys, distinct, count) = add_entries-keeps document.entries [] ring.keys tt tt added in
    let (key, at_primary) = is_some-true (lookup_key ring.primary ring.keys) found in
    let good = lookup_key-IsKey ring.primary ring.keys key keys at_primary in
    (
      keys,
      distinct,
      omega arith,
      primary,
      key,
      record { positive = good.0; found = at_primary; key_size = good.2 },
    )

int16_wraps : (p k : ℕ) → int16 (pos (p + 65536 * k)) ≡ int16 (pos p)
unfolding int16
int16_wraps p k = rw low_bits refl
  where
    low_bits : (p + 65536 * k) % 18446744073709551616 % 65536 ≡ p % 18446744073709551616 % 65536
    low_bits = omega arith

-- The primary version of a document is not checked against the range of int16: one that is too
-- large by a multiple of 65536 is accepted or refused as the version that is left, with the same
-- keyring.
pub keyring-primary_wraps :
    (format : ℤ) (p k : ℕ) (entries : List Entry)
    → keyring
        (record { format = format; primary_key_version = pos (p + 65536 * k); entries = entries })
      ≡ keyring (record { format = format; primary_key_version = pos p; entries = entries })
unfolding keyring
keyring-primary_wraps format p k entries = rw (int16_wraps p k) refl
