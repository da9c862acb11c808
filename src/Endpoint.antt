-- ===== src/Endpoint.antt =====
-- internal/endpoint/validation.go: the event types that an endpoint subscribes to.
pub mod Service
pub mod Rotation
pub mod Examples
use go_webhook_delivery.Common.{
  ℕ, ◌≤◌, ◌≡◌, ◌≢◌, refl, ap, arith, Bool, true, false, not, ◌&&◌, ◌||◌, List, [], ◌∷◌, ltb, leb,
  ◌==◌, if◌then◌else◌, Bytes, bytes_eq, bytes_eq_iff, length, All, Bool-cases, inl, inr, Result, ok,
  err, ◌>>=◌, bind-ok,
}

unfoldable pub is_alphanumeric : ℕ → Bool
is_alphanumeric c =
    (leb b'0' c && leb c b'9') || (leb b'A' c && leb c b'Z') || (leb b'a' c && leb c b'z')

unfoldable pub all_type_chars : Bytes → Bool
unfolding is_alphanumeric
all_type_chars [] = true
all_type_chars (c ∷ cs) =
    (is_alphanumeric c || c == b'.' || c == b'_' || c == b':' || c == b'-') && all_type_chars cs

-- `eventTypePattern`.
unfoldable pub matches_event_type : Bytes → Bool
unfolding is_alphanumeric all_type_chars
matches_event_type [] = false
matches_event_type (c ∷ cs) = is_alphanumeric c && all_type_chars cs

pub data EndpointError : Type 0 where
  invalid not_found rotation_conflict rotation_in_progress rotation_expired : EndpointError
  -- an error of a call
  failed : EndpointError

was_seen : Bytes → List Bytes → Bool
was_seen value [] = false
was_seen value (s ∷ seen) = bytes_eq s value || was_seen value seen

prepend : Bytes → Result EndpointError (List Bytes) → Result EndpointError (List Bytes)
prepend value (err e) = err e
prepend value (ok values) = ok (value ∷ values)

check_types : List Bytes → List Bytes → Result EndpointError (List Bytes)
unfolding matches_event_type was_seen prepend
check_types seen [] = ok []
check_types seen (value ∷ values) =
    let rest = check_types (value ∷ seen) values in
    if ltb 128 (length value) || not (matches_event_type value)
    then err invalid
    else if was_seen value seen
    then err invalid
    else prepend value rest

pub validate_event_types : List Bytes → Result EndpointError (List Bytes)
unfolding check_types
validate_event_types values =
    if length values == 0 || ltb 100 (length values) then err invalid else check_types [] values

-- A text that the pattern takes, of at most 128 bytes.
abbrev pub IsEventType : Bytes → Type 0
IsEventType value = (length value ≤ 128) × (matches_event_type value ≡ true)

-- None of the values is among those seen, nor twice among themselves.
abbrev pub Fresh : List Bytes → List Bytes → Type 0
Fresh seen [] = Unit
Fresh seen (value ∷ values) = All (λ s. s ≢ value) seen × Fresh (value ∷ seen) values

unseen :
    (value : Bytes) (seen : List Bytes) → was_seen value seen ≡ false → All (λ s. s ≢ value) seen
unfolding was_seen
unseen value [] h = tt
unseen value (s ∷ seen) h = (ground (arith, bytes_eq_iff s value), unseen value seen (ground arith))

prepend-ok :
    (value : Bytes) (m : Result EndpointError (List Bytes)) (result : List Bytes)
    → prepend value m ≡ ok result
    → (rest : List Bytes) × (m ≡ ok rest) × (result ≡ value ∷ rest)
unfolding prepend
prepend-ok value (err e) result h = absurd cc
prepend-ok value (ok values) result h = (values, refl, cc)

check_types-ok :
    (seen values result : List Bytes)
    → check_types seen values ≡ ok result
    → (result ≡ values) × All IsEventType values × Fresh seen values
unfolding check_types
check_types-ok seen [] result h = (cc, tt, tt)
check_types-ok seen (value ∷ values) result h =
    let (rest, checked, made) =
      prepend-ok value (check_types (value ∷ seen) values) result (ground arith) in
    let (same, types, fresh) = check_types-ok (value ∷ seen) values rest checked in
    (cc, ((ground arith, ground arith), types), (unseen value seen (ground arith), fresh))

-- Event types that are accepted are returned as they are: between 1 and 100 of them, each of at most
-- 128 bytes and as the pattern wants, and no two the same.
pub validate_event_types-Fresh :
    (values result : List Bytes)
    → validate_event_types values ≡ ok result
    → (result ≡ values)
      × (1 ≤ length values)
      × (length values ≤ 100)
      × All IsEventType values
      × Fresh [] values
unfolding validate_event_types
validate_event_types-Fresh values result h =
    let (same, types, fresh) = check_types-ok [] values result (ground arith) in
    (same, ground arith, ground arith, types, fresh)
