-- ===== src/Cryptobox/Examples.antt =====
-- Envelopes and keyrings on concrete values.
use go_webhook_delivery.Common.{
  ◌≡◌, ◌≢◌, refl, true, none, some, List, [], ◌∷◌, ◌++◌, arith, Bytes, bytes, All, length, pos,
  int16, eq_ℤ, ok, err,
}
use go_webhook_delivery.Golang.Strings.{cut_prefix, has_prefix}
use go_webhook_delivery.Golang.Strings.Splits.{cut_prefix-append}
use go_webhook_delivery.Golang.Base64.{base64_decode}
use go_webhook_delivery.Cryptobox.{
  authentication_failed, Envelope, Keyring, Aead, Random, lookup_key, seal, unseal, associated_data,
}
use go_webhook_delivery.Cryptobox.Aad.{associated_data-injective}
use go_webhook_delivery.Cryptobox.Sealing.{HasPrimary, unseal-seal, unseal-other_parts}
use go_webhook_delivery.Cryptobox.Keyrings.{KeyringDocument, keyring, decode_key, contains}
use go_webhook_delivery.Cryptobox.Keyrings.Loaded.{
  IsKey, Distinct, keyring-IsUsable, keyring-primary_wraps,
}

abbrev pub zeros16 : Bytes
zeros16 = 0 ∷ 0 ∷ 0 ∷ 0 ∷ 0 ∷ 0 ∷ 0 ∷ 0 ∷ 0 ∷ 0 ∷ 0 ∷ 0 ∷ 0 ∷ 0 ∷ 0 ∷ 0 ∷ []

-- A cipher that hides nothing and writes the associated data before the text.
abbrev clear_text : Aead
unfolding cut_prefix
clear_text = record {
  encrypt = λ key nonce text aad. (zeros16 ++ length aad ∷ aad) ++ text;
  decrypt = λ key nonce ciphertext aad. cut_prefix ciphertext (zeros16 ++ length aad ∷ aad);
  decrypt-encrypt = λ key nonce text aad. cut_prefix-append (zeros16 ++ length aad ∷ aad) text;
  tag_fits = λ key nonce text aad. omega arith;
}

prefix_eq : (a a' p : Bytes) → length a ≡ length a' → has_prefix (a ++ p) a' ≡ true → a ≡ a'
unfolding has_prefix
prefix_eq [] [] p n h = refl
prefix_eq [] (y ∷ ys) p n h = absurd (omega arith)
prefix_eq (x ∷ xs) [] p n h = absurd (omega arith)
prefix_eq (x ∷ xs) (y ∷ ys) p n h = ground (arith, prefix_eq xs ys p)

clear_text_authenticates :
    (key nonce text aad aad' : Bytes)
    → clear_text.decrypt key nonce (clear_text.encrypt key nonce text aad) aad' ≢ none
    → aad ≡ aad'
unfolding cut_prefix has_prefix
clear_text_authenticates key nonce text aad aad' h = ground (arith, prefix_eq aad aad' text)

abbrev key32 : Bytes
key32 = bytes "abcdefghijklmnopqrstuvwxyz012345"

abbrev ring : Keyring
ring = record { primary = pos 3; keys = (pos 3, key32) ∷ (pos 1, bytes "old") ∷ [] }

abbrev later : Keyring
later = record { primary = pos 4; keys = (pos 4, zeros16 ++ zeros16) ∷ (pos 3, key32) ∷ [] }

abbrev fixed_nonce : Random
fixed_nonce n = some (bytes "twelve bytes")

ring-HasPrimary : HasPrimary ring key32
unfolding lookup_key eq_ℤ
ring-HasPrimary = record { positive = omega arith; found = refl; key_size = refl }

unseal-seal_example :
    (e : Envelope) × (seal clear_text fixed_nonce ring (bytes "text") (bytes "data") ≡ ok e)
    × (unseal clear_text later e (bytes "data") ≡ ok (bytes "text"))
unfolding lookup_key eq_ℤ
unseal-seal_example =
    unseal-seal clear_text fixed_nonce ring later (bytes "text") (bytes "data") ring-HasPrimary refl
      refl refl

abbrev ab_c : List Bytes
ab_c = bytes "ab" ∷ bytes "c" ∷ []

abbrev a_bc : List Bytes
a_bc = bytes "a" ∷ bytes "bc" ∷ []

ab_c-ne-a_bc : ab_c ≢ a_bc
ab_c-ne-a_bc e = ground arith

unseal-other_parts_example :
    (e : Envelope) × (seal clear_text fixed_nonce ring (bytes "text") (associated_data ab_c) ≡ ok e)
    × (unseal clear_text ring e (associated_data a_bc) ≡ err authentication_failed)
unseal-other_parts_example =
    unseal-other_parts clear_text clear_text_authenticates fixed_nonce ring (bytes "text") ab_c a_bc
      ring-HasPrimary refl refl (omega arith) (omega arith) ab_c-ne-a_bc

associated_data-injective_run : ab_c ≡ ab_c
associated_data-injective_run = associated_data-injective ab_c ab_c (omega arith) (omega arith) refl

-- 43 characters of the alphabet for 32 bytes.
abbrev material : Bytes
material = bytes "AAAAAAAAAAAAAAAAAAAAAAAAAAAAAAAAAAAAAAAAAAA"

abbrev document : KeyringDocument
document = record {
  format = pos 1;
  primary_key_version = pos 65538;
  entries = record { version = pos 2; material = material } ∷ [];
}

abbrev loaded : Keyring
loaded = record { primary = pos 2; keys = (pos 2, zeros16 ++ zeros16) ∷ [] }

document_loads : keyring document ≡ ok loaded
unfolding keyring decode_key lookup_key eq_ℤ int16 base64_decode contains
document_loads = refl

keyring-IsUsable_example :
    (All IsKey loaded.keys)
    × Distinct loaded.keys
    × (length loaded.keys ≡ length document.entries)
    × (loaded.primary ≡ int16 document.primary_key_version)
    × (key : Bytes) × HasPrimary loaded key
keyring-IsUsable_example = keyring-IsUsable document loaded document_loads

keyring-primary_wraps_run :
    keyring document ≡ keyring (record document { primary_key_version = pos 2 })
keyring-primary_wraps_run = keyring-primary_wraps (pos 1) 2 1 document.entries
