-- ===== src/Config/Load/Hardened.antt =====
-- What a production configuration that is loaded satisfies.
use go_webhook_delivery.Common.{
  ◌≡◌, sym, arith, Bool, true, false, not, ◌&&◌, List, [], Bytes, ok, bind-ok, require-then,
  if◌then◌else◌,
}
use go_webhook_delivery.Endpoint.{Fresh}
use go_webhook_delivery.Config.{Service, Config, faces_clients, defaults}
use go_webhook_delivery.Config.Readers.{Readers, Environment}
use go_webhook_delivery.Config.Environment.{apply_environment}
use go_webhook_delivery.Config.Flags.{apply_flags}
use go_webhook_delivery.Config.Secrets.{api_peppers, validate_production_secrets}
use go_webhook_delivery.Config.Secrets.Distinct.{
  KeyringsDisjoint, validate_production_secrets-KeyringsDisjoint, validate_production_secrets-Fresh,
}
use go_webhook_delivery.Config.Validation.{
  Checks, is_production, is_chaoslab, validate_common, validate_production, validate,
}
use go_webhook_delivery.Config.Load.{load}

pub record Hardened (k : Checks) (c : Config) : Type 0 where
  pub no_chaoslab : is_chaoslab c.service ≡ false
  pub behind_tls : (faces_clients c.service && not c.ingress_tls_terminated) ≡ false
  pub no_pprof : c.enable_pprof ≡ false
  pub https_only : c.allow_http_destinations ≡ false
  pub keyrings : KeyringsDisjoint k.files k.decode_json c.secrets

not-true : (b : Bool) → not b ≡ true → b ≡ false
not-true b h = ground arith

when_true : {A : Type 0} (b : Bool) (x y z : A) → b ≡ true → (if b then x else y) ≡ z → x ≡ z
when_true true x y z e h = h
when_true false x y z e h = absurd cc

module _ (k : Checks) where
  production_secrets :
      (c : Config) (u : Unit {0})
      → validate_production k c ≡ ok u
      → ((is_chaoslab c.service ≡ false)
          × ((faces_clients c.service && not c.ingress_tls_terminated) ≡ false)
          × (c.enable_pprof ≡ false)
          × (c.allow_http_destinations ≡ false))
        × (validate_production_secrets k.files k.decode_json c ≡ ok u)
  unfolding validate_production
  production_secrets c u h =
      let (chaos, h1) = require-then (not (is_chaoslab c.service)) _ _ _ h in
      let (tls, h2) =
        require-then (not (faces_clients c.service && not c.ingress_tls_terminated)) _ _ _ h1 in
      let (pprof, h3) = require-then (not c.enable_pprof) _ _ _ h2 in
      let (http, h4) = require-then (not c.allow_http_destinations) _ _ _ h3 in
      ((not-true _ chaos, not-true _ tls, not-true _ pprof, not-true _ http), h4)

  load_validated :
      (r : Readers) (env : Environment) (service : Service) (args : List Bytes) (c : Config)
      → load r k env service args ≡ ok c
      → validate k c ≡ ok tt
  unfolding load
  load_validated r env service args c h =
      let (c0, _, h1) = bind-ok (defaults service) _ _ h in
      let (c1, _, h2) = bind-ok (apply_environment r env c0) _ _ h1 in
      let (c2, _, h3) = bind-ok (apply_flags r args c1) _ _ h2 in
      let (_, valid, h4) = bind-ok (validate k c2) _ _ h3 in
      let same : c2 ≡ c = cc in rw (sym same) valid

  load_production :
      (r : Readers) (env : Environment) (service : Service) (args : List Bytes) (c : Config)
      → load r k env service args ≡ ok c
      → is_production c.profile ≡ true
      → validate_production k c ≡ ok tt
  unfolding validate
  load_production r env service args c h production =
      let (_, _, rest) =
        bind-ok (validate_common k c) _ _ (load_validated r env service args c h) in
      when_true _ _ _ _ production rest

  -- A configuration that is loaded under the profile production is not one of the fault injection
  -- target, declares the termination of TLS if its service faces clients, enables neither profiling
  -- nor destinations over http, and names keyring files that were read and share no key material.
  pub load-Hardened :
      (r : Readers) (env : Environment) (service : Service) (args : List Bytes) (c : Config)
      → load r k env service args ≡ ok c
      → is_production c.profile ≡ true
      → Hardened k c
  load-Hardened r env service args c h production =
      let (rules, secrets) =
        production_secrets c tt (load_production r env service args c h production) in
      record {
        no_chaoslab = rules.0;
        behind_tls = rules.1;
        no_pprof = rules.2;
        https_only = rules.3;
        keyrings = validate_production_secrets-KeyringsDisjoint k.files k.decode_json c tt secrets;
      }

  -- Under a configuration that is loaded with the profile production, for a service that faces
  -- clients, the five pepper files of the API were read, and no two of their peppers are the same.
  pub load-Fresh :
      (r : Readers) (env : Environment) (service : Service) (args : List Bytes) (c : Config)
      → load r k env service args ≡ ok c
      → is_production c.profile ≡ true
      → faces_clients c.service ≡ true
      → (materials : List Bytes) × (api_peppers k.files c.secrets ≡ ok materials)
        × Fresh [] materials
  load-Fresh r env service args c h production faces =
      let (_, secrets) =
        production_secrets c tt (load_production r env service args c h production) in
      validate_production_secrets-Fresh k.files k.decode_json c tt faces secrets
