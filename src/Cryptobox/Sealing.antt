-- ===== src/Cryptobox/Sealing.antt =====
-- What is sealed is opened, under the same associated data only.
use go_webhook_delivery.Common.{
  ◌≡◌, ◌≢◌, refl, sym, false, ◌∙◌, Option, none, some, List, arith, Bytes, All, length, ℤ, pos,
  ◌<ℤ◌, eq_ℤ, ok, err,
}
use go_webhook_delivery.Cryptobox.{
  authentication_failed, Envelope, Keyring, Aead, Random, lookup_key, seal, unseal, validate,
  decrypted, format_version, legacy_format_version, nonce_size, associated_data,
}
use go_webhook_delivery.Cryptobox.Aad.{FitsWord, associated_data-injective}

-- What `Seal` makes of a key, a nonce and a text.
abbrev pub sealed : Aead → ℤ → Bytes → Bytes → Bytes → Bytes → Envelope
sealed aead version key nonce text aad = record {
  version = format_version;
  kek_version = version;
  nonce = nonce;
  ciphertext = aead.encrypt key nonce text aad;
}

-- A keyring whose primary version is positive and names a key of 32 bytes.
pub record HasPrimary (ring : Keyring) (key : Bytes) : Type 0 where
  pub positive : pos 0 <ℤ ring.primary
  pub found : lookup_key ring.primary ring.keys ≡ some key
  pub key_size : length key ≡ 32

module _ (aead : Aead) where
  pub seal_lem :
      (random : Random) (ring : Keyring) (text aad : Bytes) {key nonce : Bytes}
      → HasPrimary ring key
      → random nonce_size ≡ some nonce
      → seal aead random ring text aad ≡ ok (sealed aead ring.primary key nonce text aad)
  unfolding seal
  seal_lem random ring text aad p r = rw (p.found, r) (ground (arith, p.key_size))

  pub sealed-validates :
      (version : ℤ) (key nonce text aad : Bytes)
      → pos 0 <ℤ version
      → length nonce ≡ 12
      → validate (sealed aead version key nonce text aad) ≡ ok tt
  unfolding validate eq_ℤ
  sealed-validates version key nonce text aad positive size =
      ground (arith, aead.tag_fits key nonce text aad)

  -- Opening gets as far as the decryption.
  unseal-sealed :
      (ring : Keyring) (version : ℤ) (key nonce text aad other : Bytes)
      → pos 0 <ℤ version
      → length nonce ≡ 12
      → length key ≡ 32
      → lookup_key version ring.keys ≡ some key
      → unseal aead ring (sealed aead version key nonce text aad) other
        ≡ decrypted (aead.decrypt key nonce (aead.encrypt key nonce text aad) other)
  unfolding unseal
  unseal-sealed ring version key nonce text aad other positive size key_size found =
      rw (sealed-validates version key nonce text aad positive size, found)
        (ground (arith, key_size))

  -- With a positive primary version that names a key of 32 bytes and a random source that gives 12
  -- bytes, `Seal` succeeds, and `Open` of its envelope under the same associated data returns the
  -- text, under every keyring that still has that key at that version.
  pub unseal-seal :
      (random : Random) (ring later : Keyring) (text aad : Bytes) {key nonce : Bytes}
      → HasPrimary ring key
      → random nonce_size ≡ some nonce
      → length nonce ≡ 12
      → lookup_key ring.primary later.keys ≡ some key
      → (e : Envelope) × (seal aead random ring text aad ≡ ok e)
        × (unseal aead later e aad ≡ ok text)
  unseal-seal random ring later text aad {key} {nonce} p r size kept = (
    sealed aead ring.primary key nonce text aad,
    seal_lem random ring text aad p r,
    rw
        (
          unseal-sealed later ring.primary key nonce text aad aad p.positive size p.key_size kept,
          aead.decrypt-encrypt key nonce text aad,
        )
        (unfold decrypted in refl),
  )

  -- The same of an envelope that `Seal` has returned, which is not of the legacy format.
  pub seal-Reopens :
      (random : Random) (ring later : Keyring) (text aad : Bytes) (e : Envelope) {key nonce : Bytes}
      → HasPrimary ring key
      → random nonce_size ≡ some nonce
      → length nonce ≡ 12
      → lookup_key ring.primary later.keys ≡ some key
      → seal aead random ring text aad ≡ ok e
      → (unseal aead later e aad ≡ ok text) × (eq_ℤ e.version legacy_format_version ≡ false)
  unfolding eq_ℤ
  seal-Reopens random ring later text aad e {key} {nonce} p r size kept made =
      let (e', made', opens) = unseal-seal random ring later text aad p r size kept in
      let again = seal_lem random ring text aad p r in
      let same : e' ≡ e = cc in
      let shape : sealed aead ring.primary key nonce text aad ≡ e = cc in
      (rw (sym same) opens, rw (sym shape) refl)

  -- Suppose that the cipher authenticates its associated data. Then an envelope that was sealed for
  -- one sequence of parts cannot be opened for another one: the error is a failed authentication.
  pub unseal-other_parts :
      ((key nonce text aad aad' : Bytes)
        → aead.decrypt key nonce (aead.encrypt key nonce text aad) aad' ≢ none
        → aad ≡ aad')
      → (random : Random) (ring : Keyring) (text : Bytes) (parts others : List Bytes)
        {key nonce : Bytes}
      → HasPrimary ring key
      → random nonce_size ≡ some nonce
      → length nonce ≡ 12
      → All FitsWord parts
      → All FitsWord others
      → parts ≢ others
      → (e : Envelope) × (seal aead random ring text (associated_data parts) ≡ ok e)
        × (unseal aead ring e (associated_data others) ≡ err authentication_failed)
  unseal-other_parts auth random ring text parts others {key} {nonce} p r size fits fits' differ = (
    sealed aead ring.primary key nonce text (associated_data parts),
    seal_lem random ring text (associated_data parts) p r,
    unseal-sealed ring ring.primary key nonce text (associated_data parts) (associated_data others)
          p.positive size p.key_size p.found
        ∙ refused
            (aead.decrypt key nonce (aead.encrypt key nonce text (associated_data parts))
              (associated_data others))
            (λ some_text. differ (
              associated_data-injective parts others fits fits'
                (auth key nonce text (associated_data parts) (associated_data others) some_text))),
  )
    where
      refused : (o : Option Bytes) → ¬ (o ≢ none) → decrypted o ≡ err authentication_failed
      refused none h = unfold decrypted in refl
      refused (some t) h = absurd (h (λ e. cc))
