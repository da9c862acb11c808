-- ===== src/Config/Secrets/Distinct.antt =====
-- What the check of the secret files shows of their materials.
use go_webhook_delivery.Common.{
  ◌≡◌, ◌≢◌, arith, Bool, true, false, Option, List, [], ◌∷◌, Bytes, bytes, bytes_eq, bytes_eq_iff,
  All, Bool-cases, inl, inr, ok, bind-ok, require-true,
}
use go_webhook_delivery.Cryptobox.Keyrings.{Files, KeyringDocument, contains}
use go_webhook_delivery.Endpoint.{Fresh}
use go_webhook_delivery.Config.{
  Service, api, worker, console, chaoslab, unknown, SecretFiles, Config, faces_clients,
}
use go_webhook_delivery.Config.Secrets.{
  all_distinct, disjoint, api_peppers, validate_api_peppers, validate_console_peppers,
  validate_keyring_file, service_peppers, validate_production_secrets,
}

contains-ne : (m : Bytes) (ms : List Bytes) → contains m ms ≡ false → All (λ s. s ≢ m) ms
unfolding contains
contains-ne m [] h = tt
contains-ne m (s ∷ ms) h = elim (Bool-cases (bytes_eq s m)) [
  | inl same ↦ absurd (ground arith)
  | inr differ ↦
      (λ e. absurd (differs ((bytes_eq_iff s m).1 e) differ), contains-ne m ms (ground arith))
]
  where
    differs : {b : Bool} → b ≡ true → b ≡ false → ⊥
    differs t f = absurd cc

all_distinct-Fresh : (seen ms : List Bytes) → all_distinct seen ms ≡ true → Fresh seen ms
unfolding all_distinct
all_distinct-Fresh seen [] h = tt
all_distinct-Fresh seen (m ∷ ms) h = elim (Bool-cases (contains m seen)) [
  | inl again ↦ absurd (ground arith)
  | inr new ↦ (contains-ne m seen new, all_distinct-Fresh (m ∷ seen) ms (ground arith))
]

-- No material of one keyring is one of the other.
abbrev pub Disjoint : List Bytes → List Bytes → Type 0
Disjoint payload signing = All (λ m. All (λ s. s ≢ m) signing) payload

disjoint-Disjoint :
    (payload signing : List Bytes) → disjoint payload signing ≡ true → Disjoint payload signing
unfolding disjoint
disjoint-Disjoint [] signing h = tt
disjoint-Disjoint (m ∷ ms) signing h = elim (Bool-cases (contains m signing)) [
  | inl again ↦ absurd (ground arith)
  | inr new ↦ (contains-ne m signing new, disjoint-Disjoint ms signing (ground arith))
]

-- The keyring files that a production process starts with.
pub record KeyringsDisjoint (fs : Files) (decode_json : Bytes → Option KeyringDocument)
    (files : SecretFiles) : Type 0 where
  pub payload : List Bytes
  pub signing : List Bytes
  pub payload_read :
      validate_keyring_file fs decode_json
        (bytes "WDE_PAYLOAD_KEYRING_FILE")
        files.payload_keyring_file
      ≡ ok payload
  pub signing_read :
      validate_keyring_file fs decode_json
        (bytes "WDE_SIGNING_KEYRING_FILE")
        files.signing_keyring_file
      ≡ ok signing
  pub disjoint : Disjoint payload signing

module _ (fs : Files) (decode_json : Bytes → Option KeyringDocument) where
  pub validate_production_secrets-KeyringsDisjoint :
      (c : Config) (u : Unit {0})
      → validate_production_secrets fs decode_json c ≡ ok u
      → KeyringsDisjoint fs decode_json c.secrets
  unfolding validate_production_secrets
  validate_production_secrets-KeyringsDisjoint c u h =
      let (_, _, h1) = bind-ok (service_peppers fs c.service c.secrets) _ _ h in
      let (payload, payload_read, h2) =
        bind-ok
          (validate_keyring_file fs decode_json (bytes "WDE_PAYLOAD_KEYRING_FILE")
            c.secrets.payload_keyring_file)
          _ _ h1 in
      let (signing, signing_read, h3) =
        bind-ok
          (validate_keyring_file fs decode_json (bytes "WDE_SIGNING_KEYRING_FILE")
            c.secrets.signing_keyring_file)
          _ _ h2 in
      record {
        payload = payload;
        signing = signing;
        payload_read = payload_read;
        signing_read = signing_read;
        disjoint = disjoint-Disjoint payload signing (require-true _ _ u h3);
      }

  -- The check of the API's peppers shows that no two are the same.
  validate_api_peppers-Fresh :
      (files : SecretFiles) (u : Unit {0})
      → validate_api_peppers fs files ≡ ok u
      → (materials : List Bytes) × (api_peppers fs files ≡ ok materials) × Fresh [] materials
  unfolding validate_api_peppers
  validate_api_peppers-Fresh files u h =
      let (materials, read, h1) = bind-ok (api_peppers fs files) _ _ h in
      (materials, read, all_distinct-Fresh [] materials (require-true _ _ u h1))

  validate_console_peppers-api :
      (files : SecretFiles) (u : Unit {0})
      → validate_console_peppers fs files ≡ ok u
      → validate_api_peppers fs files ≡ ok tt
  unfolding validate_console_peppers
  validate_console_peppers-api files u h =
      let (_, read, _) = bind-ok (validate_api_peppers fs files) _ _ h in read

  service_peppers-api :
      (s : Service) (files : SecretFiles) (u : Unit {0})
      → faces_clients s ≡ true
      → service_peppers fs s files ≡ ok u
      → validate_api_peppers fs files ≡ ok tt
  unfolding service_peppers
  service_peppers-api api files u f h = h
  service_peppers-api console files u f h = validate_console_peppers-api files u h
  service_peppers-api worker files u f h = absurd cc
  service_peppers-api chaoslab files u f h = absurd cc
  service_peppers-api (unknown n) files u f h = absurd cc

  pub validate_production_secrets-Fresh :
      (c : Config) (u : Unit {0})
      → faces_clients c.service ≡ true
      → validate_production_secrets fs decode_json c ≡ ok u
      → (materials : List Bytes) × (api_peppers fs c.secrets ≡ ok materials) × Fresh [] materials
  unfolding validate_production_secrets
  validate_production_secrets-Fresh c u f h =
      let (v, peppers, _) = bind-ok (service_peppers fs c.service c.secrets) _ _ h in
      validate_api_peppers-Fresh c.secrets tt (service_peppers-api c.service c.secrets v f peppers)
