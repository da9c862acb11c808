-- ===== src/Auth/Access.antt =====
-- Whom the middleware lets pass.
use go_webhook_delivery.Common.{
  ◌≡◌, refl, ap, sym, ◌∙◌, arith, Bool, true, false, Option, none, some, ◌++◌, Bytes, bytes,
  bytes_eq_iff, bytes_eq_refl, length, All, ℤ, ◌<ℤ◌, ok, bind-ok, Option-cases, inl, inr,
}
use go_webhook_delivery.Golang.Base64.RoundTrip.{IsByte}
use go_webhook_delivery.Golang.Hex.{hex_encode}
use go_webhook_delivery.Golang.Strings.{cut_prefix}
use go_webhook_delivery.Golang.Strings.Splits.{cut_prefix-append}
use go_webhook_delivery.Signing.{Hmac}
use go_webhook_delivery.Auth.{
  Principal, Record, Lookup, found, missing, failed, token_prefix, bearer, bearer_token,
  with_prefix, expired, verifier_of, check_record, lookup_token, authenticate_token,
  authenticate_bearer, authenticate, generate, has_scope, authorize, middleware,
}
use go_webhook_delivery.Auth.Tokens.{token_of, token_prefix-token_of, length-token_of}

abbrev pub NotExpired : ℤ → Option ℤ → Type 0
NotExpired now none = Unit
NotExpired now (some at) = now <ℤ at

-- An active record that belongs to the token.
pub record Owns (h : Hmac) (pepper : Bytes) (now : ℤ) (token : Bytes) (r : Record) : Type 0 where
  pub verifier : r.verifier ≡ h.mac pepper token
  pub active : r.status ≡ bytes "active"
  pub workspace_active : r.workspace_status ≡ bytes "active"
  pub unexpired : NotExpired now r.expires_at

abbrev pub principal_of : Record → Principal
principal_of r = record {
  api_key_id = r.api_key_id;
  workspace_id = r.workspace_id;
  scopes = r.scopes;
}

-- What was found in order to let the principal pass.
pub record Admitted (h : Hmac) (pepper : Bytes) (lookup : Bytes → Lookup) (now : ℤ)
    (scope header : Bytes) (principal : Principal) : Type 0 where
  pub token : Bytes
  pub prefix : Bytes
  pub stored : Record
  pub presented : bearer header ≡ some (token, prefix)
  pub recognized : token_prefix token ≡ some prefix
  pub looked_up : lookup prefix ≡ found stored
  pub owns : Owns h pepper now token stored
  pub is_principal : principal ≡ principal_of stored
  pub in_scope : has_scope scope stored.scopes ≡ true

expired_iff : (now : ℤ) (at : Option ℤ) → expired now at ≡ false → NotExpired now at
unfolding expired
expired_iff now none e = tt
expired_iff now (some at) e = ground arith

not_expired : (now : ℤ) (at : Option ℤ) → NotExpired now at → expired now at ≡ false
unfolding expired
not_expired now none e = refl
not_expired now (some at) e = ground arith

module _ (h : Hmac) (pepper : Bytes) where
  check_record-ok :
      (now : ℤ) (token : Bytes) (l : Lookup) (principal : Principal)
      → check_record h pepper now (h.mac pepper token) l ≡ ok principal
      → (r : Record) × (l ≡ found r) × Owns h pepper now token r × (principal ≡ principal_of r)
  unfolding check_record
  check_record-ok now token failed principal e = absurd cc
  check_record-ok now token missing principal e = absurd cc
  check_record-ok now token (found r) principal e = (
    r,
    refl,
    (record {
      verifier = ground (arith, bytes_eq_iff (h.mac pepper token) r.verifier);
      active = ground (arith, bytes_eq_iff r.status (bytes "active"));
      workspace_active = ground (arith, bytes_eq_iff r.workspace_status (bytes "active"));
      unexpired = expired_iff now r.expires_at (ground arith);
    }),
    ground arith,
  )

  check_record-Owns :
      (now : ℤ) (token : Bytes) (r : Record)
      → Owns h pepper now token r
      → check_record h pepper now (h.mac pepper token) (found r) ≡ ok (principal_of r)
  unfolding check_record
  check_record-Owns now token r o =
      rw
        (
          o.verifier,
          h.mac_size pepper token,
          o.active,
          o.workspace_active,
          not_expired now r.expires_at o.unexpired,
          bytes_eq_refl (h.mac pepper token),
        )
        (ground (arith, bytes_eq_refl (bytes "active")))

  authorize-ok :
      (scope : Bytes) (p q : Principal)
      → authorize scope (some p) ≡ ok q
      → (has_scope scope p.scopes ≡ true) × (p ≡ q)
  unfolding authorize
  authorize-ok scope p q e = (ground arith, ground arith)

  bearer_parts :
      (cut : Option Bytes) (token prefix : Bytes)
      → bearer_token cut ≡ some (token, prefix)
      → token_prefix token ≡ some prefix
  unfolding bearer_token with_prefix
  bearer_parts none token prefix e = absurd cc
  bearer_parts (some text) token prefix e = elim (Option-cases (token_prefix text)) [
    | inl f ↦ absurd (ground arith)
    | inr (found_prefix, f) ↦ ground arith
  ]

  bearer-recognized :
      (header token prefix : Bytes)
      → bearer header ≡ some (token, prefix)
      → token_prefix token ≡ some prefix
  unfolding bearer
  bearer-recognized header token prefix e =
      bearer_parts (cut_prefix header (bytes "Bearer ")) token prefix (ground arith)

  authenticate-ok :
      (lookup : Bytes → Lookup) (now : ℤ) (header : Bytes) (principal : Principal)
      → authenticate h pepper lookup now header ≡ ok principal
      → (token : Bytes) × (prefix : Bytes) × (bearer header ≡ some (token, prefix))
        × (authenticate_token h pepper lookup now token ≡ ok principal)
  unfolding authenticate authenticate_bearer
  authenticate-ok lookup now header principal e = elim (Option-cases (bearer header)) [
    | inl f ↦ absurd (ground arith)
    | inr ((token, prefix), f) ↦ (token, prefix, f, ground arith)
  ]

  -- Whoever passes the middleware for a scope has presented a token in a bearer header whose prefix
  -- belongs to a stored record with the token's own HMAC as its verifier; key and workspace are
  -- active, the key has not expired, the principal is the record's, and it has the scope.
  pub middleware-Admitted :
      (lookup : Bytes → Lookup) (now : ℤ) (scope header : Bytes) (principal : Principal)
      → middleware h pepper lookup now scope header ≡ ok principal
      → Admitted h pepper lookup now scope header principal
  unfolding middleware authenticate_token lookup_token verifier_of
  middleware-Admitted lookup now scope header principal e =
      let (p, authenticated, authorized) = bind-ok _ _ _ e in
      let (in_scope, same) = authorize-ok scope p principal authorized in
      let (token, prefix, presented, by_token) =
        authenticate-ok lookup now header p authenticated in
      let recognized = bearer-recognized header token prefix presented in
      let (r, looked_up, owns, is) =
        check_record-ok now token (lookup prefix) p
          (sym (ap (lookup_token h pepper lookup now token) recognized) ∙ by_token) in
      record {
        token = token;
        prefix = prefix;
        stored = r;
        presented = presented;
        recognized = recognized;
        looked_up = looked_up;
        owns = owns;
        is_principal = sym same ∙ is;
        in_scope = rw (sym (ap (λ q. q.scopes) is)) in_scope;
      }

  bearer-token_of :
      (test : Bool) (prefix_raw secret : Bytes)
      → length prefix_raw ≡ 8
      → length secret ≡ 32
      → All IsByte prefix_raw
      → All IsByte secret
      → bearer (bytes "Bearer " ++ token_of test prefix_raw secret)
        ≡ some (token_of test prefix_raw secret, hex_encode prefix_raw)
  unfolding bearer bearer_token with_prefix
  bearer-token_of test prefix_raw secret p8 s32 pb sb =
      rw
        (
          cut_prefix-append (bytes "Bearer ") (token_of test prefix_raw secret),
          token_prefix-token_of test prefix_raw secret p8 s32 pb sb,
        )
        (ground (arith, length-token_of test prefix_raw secret p8 s32 pb sb))

  authenticate-token_of :
      (test : Bool) (prefix_raw secret : Bytes) (lookup : Bytes → Lookup) (now : ℤ) (r : Record)
      → length prefix_raw ≡ 8
      → length secret ≡ 32
      → All IsByte prefix_raw
      → All IsByte secret
      → lookup (hex_encode prefix_raw) ≡ found r
      → Owns h pepper now (token_of test prefix_raw secret) r
      → authenticate h pepper lookup now (bytes "Bearer " ++ token_of test prefix_raw secret)
        ≡ ok (principal_of r)
  unfolding authenticate authenticate_bearer authenticate_token lookup_token verifier_of
  authenticate-token_of test prefix_raw secret lookup now r p8 s32 pb sb looked_up owns =
      rw
        (
          bearer-token_of test prefix_raw secret p8 s32 pb sb,
          token_prefix-token_of test prefix_raw secret p8 s32 pb sb,
          looked_up,
        )
        (check_record-Owns now (token_of test prefix_raw secret) r owns)

  -- A token that was generated from 8 and 32 random bytes authenticates in a bearer header, as the
  -- principal of the record that is stored under its prefix with its verifier, while key and
  -- workspace are active and the key has not expired.
  pub authenticate-generate :
      (test : Bool) (prefix_raw secret token prefix verifier : Bytes) (lookup : Bytes → Lookup)
      (now : ℤ) (r : Record)
      → length prefix_raw ≡ 8
      → length secret ≡ 32
      → All IsByte prefix_raw
      → All IsByte secret
      → generate h pepper test (some prefix_raw) (some secret) ≡ ok (token, prefix, verifier)
      → lookup prefix ≡ found r
      → r.verifier ≡ verifier
      → r.status ≡ bytes "active"
      → r.workspace_status ≡ bytes "active"
      → NotExpired now r.expires_at
      → authenticate h pepper lookup now (bytes "Bearer " ++ token) ≡ ok (principal_of r)
  unfolding generate verifier_of
  authenticate-generate test prefix_raw secret token prefix verifier lookup now r p8 s32 pb sb made
        looked_up same active workspace_active unexpired =
      let token_eq : token_of test prefix_raw secret ≡ token = cc in
      let prefix_eq : hex_encode prefix_raw ≡ prefix = cc in
      let verifier_eq : h.mac pepper (token_of test prefix_raw secret) ≡ verifier = cc in
      rw (← token_eq) (
        authenticate-token_of test prefix_raw secret lookup now r p8 s32 pb sb
          (ap lookup prefix_eq ∙ looked_up)
          (record {
            verifier = same ∙ sym verifier_eq;
            active = active;
            workspace_active = workspace_active;
            unexpired = unexpired;
          }))
