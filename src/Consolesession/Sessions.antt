-- ===== src/Consolesession/Sessions.antt =====
-- Whose session a token opens.
use go_webhook_delivery.Common.{
  ◌≤◌, ◌≡◌, ◌↔◌, refl, ap, sym, ◌∙◌, arith, true, Option, none, some, [], ◌∷◌, ◌++◌, Bytes, bytes,
  bytes_eq, bytes_eq_iff, bytes_eq_refl, length, length-append, All, Result, ok, Result-cases,
  Option-cases, inl, inr,
}
use go_webhook_delivery.Golang.Base64.{base64_encode}
use go_webhook_delivery.Golang.Base64.RoundTrip.{IsByte, base64_decode-encode, length-base64_encode}
use go_webhook_delivery.Golang.Hex.{
  hex_encode, hex_decode-encode, length-hex_encode, hex_encode-Avoids,
}
use go_webhook_delivery.Golang.Strings.{split_n, trim_space}
use go_webhook_delivery.Golang.Strings.Splits.{split_n-cons}
use go_webhook_delivery.Signing.{Hmac}
use go_webhook_delivery.Auth.{Principal, AuthError}
use go_webhook_delivery.Consolesession.{
  LookupRecord, SessionLookup, stored, absent, lookup_failed, SessionStore, Session, is_hex,
  is_secret, session_parts, parse_token, generate_token, resumed, session_verifier, check_session,
  session_of, authenticate_session, login, csrf, valid_csrf,
}

abbrev pub session_token : Bytes → Bytes → Bytes
session_token prefix_raw secret =
    bytes "wds_" ++ (hex_encode prefix_raw ++ (bytes "_" ++ base64_encode secret))

module _ (prefix_raw secret : Bytes) (p8 : length prefix_raw ≡ 8) (s32 : length secret ≡ 32)
    (pb : All IsByte prefix_raw) (sb : All IsByte secret) where
  split-session_token :
      split_n 95 2 (session_token prefix_raw secret)
      ≡ bytes "wds" ∷ hex_encode prefix_raw ∷ base64_encode secret ∷ []
  unfolding split_n
  split-session_token =
      split_n-cons 95 1 (bytes "wds") (hex_encode prefix_raw ++ 95 ∷ base64_encode secret)
        (omega arith)
      ∙ ap (◌∷◌ (bytes "wds")) (
          split_n-cons 95 0 (hex_encode prefix_raw) (base64_encode secret)
            (hex_encode-Avoids prefix_raw pb))

  length-session_token : length (session_token prefix_raw secret) ≤ 64
  length-session_token = ground (
    arith,
    length-append (hex_encode prefix_raw) (bytes "_" ++ base64_encode secret),
    length-hex_encode prefix_raw,
    length-base64_encode secret,
  )

  parse_token-session_token :
      parse_token (session_token prefix_raw secret) ≡ some (hex_encode prefix_raw)
  unfolding parse_token session_parts is_hex is_secret bytes_eq
  parse_token-session_token =
      rw
        (
          split-session_token,
          hex_decode-encode prefix_raw pb,
          base64_decode-encode secret sb,
          length-hex_encode prefix_raw,
          p8,
          s32,
        )
        (ground (arith, length-session_token))

-- What stands behind an open session.
pub record Opened (h : Hmac) (pepper : Bytes) (s : SessionStore) (token : Bytes) (session : Session)
    : Type 0 where
  pub prefix : Bytes
  pub parsed : parse_token token ≡ some prefix
  pub row : LookupRecord
  pub looked_up : s.lookup prefix ≡ stored row
  pub verified : row.verifier ≡ h.mac pepper token
  pub same_id : session.id ≡ row.id
  pub same_token : session.token ≡ token
  pub resumes : s.resume row.id ≡ some session.principal

module _ (h : Hmac) (pepper : Bytes) (s : SessionStore) where
  resumed-ok :
      (id token : Bytes) (p : Option Principal) (session : Session)
      → resumed id token p ≡ ok session
      → (session.id ≡ id) × (session.token ≡ token) × (p ≡ some session.principal)
  unfolding resumed
  resumed-ok id token none session e = absurd cc
  resumed-ok id token (some q) session e = (ground arith, ground arith, ground arith)

  check_session-ok :
      (token : Bytes) (l : SessionLookup) (session : Session)
      → check_session h pepper s token l ≡ ok session
      → (r : LookupRecord) × (l ≡ stored r)
        × (r.verifier ≡ h.mac pepper token)
        × (session.id ≡ r.id)
        × (session.token ≡ token)
        × (s.resume r.id ≡ some session.principal)
  unfolding check_session session_verifier
  check_session-ok token lookup_failed session e = absurd cc
  check_session-ok token absent session e = absurd cc
  check_session-ok token (stored r) session e =
      let found = resumed-ok r.id token (s.resume r.id) session (ground arith) in
      (
        r,
        refl,
        ground (arith, bytes_eq_iff (h.mac pepper token) r.verifier),
        found.0,
        found.1,
        found.2,
      )

  -- A session that is authenticated belongs to a stored row under the token's prefix whose verifier
  -- is the HMAC of this token, and its principal is what the store resumes for that row.
  pub authenticate_session-Opened :
      (token : Bytes) (session : Session)
      → authenticate_session h pepper s token ≡ ok session
      → Opened h pepper s token session
  unfolding authenticate_session session_of
  authenticate_session-Opened token session e = elim (Option-cases (parse_token token)) [
    | inl f ↦ absurd (ground arith)
    | inr (prefix, f) ↦
        let (r, l, v, i, t, p) =
          check_session-ok token (s.lookup prefix) session
            (sym (ap (session_of h pepper s token) f) ∙ e) in
        record {
          prefix = prefix;
          parsed = f;
          row = r;
          looked_up = l;
          verified = v;
          same_id = i;
          same_token = t;
          resumes = p;
        }
  ]

  login-ok :
      (authenticate_key : Bytes → Result AuthError Principal) (prefix_raw secret api_key : Bytes)
      (session : Session)
      → login h pepper s authenticate_key (some prefix_raw) (some secret) api_key ≡ ok session
      → session.token ≡ session_token prefix_raw secret
  unfolding login generate_token session_verifier
  login-ok authenticate_key prefix_raw secret api_key session e =
      elim (Result-cases (authenticate_key (trim_space api_key))) [
        | inr (x, f) ↦ absurd (ground arith)
        | inl (p, f) ↦
            elim (Result-cases (
              s.create p (hex_encode prefix_raw)
                (h.mac pepper (session_token prefix_raw secret)))) [
                  | inr (x, g) ↦ absurd (ground arith)
                  | inl (id, g) ↦ ground arith
                ]
      ]

-- Let a login from 8 and 32 random bytes succeed. Under every later store that has the session's row
-- under the token's prefix, with the token's HMAC as its verifier, and that resumes the row as the
-- session's principal, the token authenticates as the same session.
pub authenticate_session-login :
    (h : Hmac) (pepper : Bytes) (s later : SessionStore)
    (authenticate_key : Bytes → Result AuthError Principal) (prefix_raw secret api_key : Bytes)
    (session : Session)
    → length prefix_raw ≡ 8
    → length secret ≡ 32
    → All IsByte prefix_raw
    → All IsByte secret
    → login h pepper s authenticate_key (some prefix_raw) (some secret) api_key ≡ ok session
    → later.lookup (hex_encode prefix_raw)
      ≡ stored (record { id = session.id; verifier = h.mac pepper session.token })
    → later.resume session.id ≡ some session.principal
    → authenticate_session h pepper later session.token ≡ ok session
unfolding authenticate_session session_of check_session session_verifier resumed
authenticate_session-login h pepper s later authenticate_key prefix_raw secret api_key session p8
      s32 pb sb logged_in kept resumes =
    rw
      (
        ap parse_token
              (login-ok h pepper s authenticate_key prefix_raw secret api_key session logged_in)
            ∙ parse_token-session_token prefix_raw secret p8 s32 pb sb,
        kept,
        h.mac_size pepper session.token,
        bytes_eq_refl (h.mac pepper session.token),
        resumes,
      )
      refl

-- A supplied value passes exactly if it is the token's own.
pub valid_csrf_iff :
    (h : Hmac) (csrf_pepper token supplied : Bytes)
    → (valid_csrf h csrf_pepper token supplied ≡ true) ↔ (csrf h csrf_pepper token ≡ supplied)
unfolding valid_csrf
valid_csrf_iff h csrf_pepper token supplied = bytes_eq_iff (csrf h csrf_pepper token) supplied
