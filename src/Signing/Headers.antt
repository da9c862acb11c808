-- ===== src/Signing/Headers.antt =====
-- The signature header: what is written under a key is found under that key.
use go_webhook_delivery.Common.{
  ℕ, ◌≤◌, ◌≡◌, ◌≢◌, refl, ap, ◌∙◌, none, some, [], ◌∷◌, ◌++◌, arith, Bytes, bytes, bytes_eq_refl,
  bytes_eq_iff, All, All-append,
}
use go_webhook_delivery.Golang.Strings.{trim_space, split}
use go_webhook_delivery.Golang.Strings.Splits.{split-Avoids, split-cons, cut_prefix-append, Avoids}
use go_webhook_delivery.Golang.Strings.Trimmed.{IsVisible, trim_space-visible}
use go_webhook_delivery.Signing.{
  header_value, signature_for_key, read_entry, entry_signature, first_of_two,
}

-- A character that an entry of the header can hold.
abbrev pub IsPlain : ℕ → Type 0
IsPlain c = (33 ≤ c) × (c ≤ 126) × (c ≢ 44) × (c ≢ 59)

IsPlain-IsVisible : (s : Bytes) → All IsPlain s → All IsVisible s
IsPlain-IsVisible [] h = tt
IsPlain-IsVisible (c ∷ s) h = ((h.0.0, h.0.1), IsPlain-IsVisible s h.1)

no_comma : (s : Bytes) → All IsPlain s → Avoids 44 s
no_comma [] h = tt
no_comma (c ∷ s) h = (h.0.2, no_comma s h.1)

no_semicolon : (s : Bytes) → All IsPlain s → Avoids 59 s
no_semicolon [] h = tt
no_semicolon (c ∷ s) h = (h.0.3, no_semicolon s h.1)

module _ (key_id sig : Bytes) (plain_key : All IsPlain key_id) (plain_sig : All IsPlain sig) where
  header_value-IsVisible : All IsVisible (header_value key_id sig)
  unfolding header_value
  header_value-IsVisible =
      All-append IsVisible (bytes "key_id=") (key_id ++ (bytes ",v1=" ++ sig)) (omega arith) (
        All-append IsVisible key_id (bytes ",v1=" ++ sig) (IsPlain-IsVisible key_id plain_key)
          (All-append IsVisible (bytes ",v1=") sig (omega arith) (IsPlain-IsVisible sig plain_sig)))

  pub header_value-Avoids : Avoids 59 (header_value key_id sig)
  unfolding header_value
  header_value-Avoids =
      All-append (λ c. c ≢ 59) (bytes "key_id=") (key_id ++ (bytes ",v1=" ++ sig)) (omega arith)
        (All-append (λ c. c ≢ 59) key_id (bytes ",v1=" ++ sig) (no_semicolon key_id plain_key)
          (All-append (λ c. c ≢ 59) (bytes ",v1=") sig (omega arith) (no_semicolon sig plain_sig)))

  -- The two halves of an entry.
  split-header_value :
      split 44 (trim_space (header_value key_id sig))
      ≡ (bytes "key_id=" ++ key_id) ∷ (bytes "v1=" ++ sig) ∷ []
  split-header_value = rw (trim_space-visible (header_value key_id sig) header_value-IsVisible) (
      unfold header_value in
      (split-cons 44 (bytes "key_id=" ++ key_id) (bytes "v1=" ++ sig) (
          All-append (λ c. c ≢ 44) (bytes "key_id=") key_id (omega arith)
            (no_comma key_id plain_key))
        ∙ ap (λ t. (bytes "key_id=" ++ key_id) ∷ t)
            (split-Avoids 44 (bytes "v1=" ++ sig)
              (All-append (λ c. c ≢ 44) (bytes "v1=") sig (omega arith) (no_comma sig plain_sig)))))

  -- An entry is found for its own key, and passed over for another one.
  read_entry-header_value :
      (wanted : Bytes)
      → read_entry wanted (split 44 (trim_space (header_value key_id sig)))
        ≡ entry_signature wanted (some key_id) (some sig)
  unfolding read_entry
  read_entry-header_value wanted =
      rw split-header_value
        (rw (cut_prefix-append (bytes "key_id=") key_id, cut_prefix-append (bytes "v1=") sig) refl)

-- A single entry under the wanted key.
pub signature_for_key-one :
    (key_id sig : Bytes)
    → All IsPlain key_id
    → All IsPlain sig
    → key_id ≢ []
    → sig ≢ []
    → signature_for_key (header_value key_id sig) key_id ≡ some sig
unfolding signature_for_key
signature_for_key-one key_id sig pk ps nk ns =
    rw
      (
        split-Avoids 59 (header_value key_id sig) (header_value-Avoids key_id sig pk ps),
        read_entry-header_value key_id sig pk ps key_id,
      )
      (ground (arith, bytes_eq_refl key_id))

entry_signature_own :
    (k sig : Bytes) → k ≢ [] → sig ≢ [] → entry_signature k (some k) (some sig) ≡ some sig
unfolding entry_signature
entry_signature_own k sig nk ns = ground (arith, bytes_eq_refl k)

entry_signature_other :
    (k wanted sig : Bytes) → k ≢ wanted → entry_signature wanted (some k) (some sig) ≡ none
unfolding entry_signature
entry_signature_other k wanted sig h = ground (arith, bytes_eq_iff k wanted)

-- Two entries, the active key's and the retiring one's.
module _ (k k' s s' : Bytes) (pk : All IsPlain k) (pk' : All IsPlain k') (ps : All IsPlain s)
    (ps' : All IsPlain s') where
  two_entries :
      (wanted : Bytes)
      → signature_for_key (header_value k s ++ 59 ∷ header_value k' s') wanted
        ≡ first_of_two
            (entry_signature wanted (some k) (some s))
            (first_of_two (entry_signature wanted (some k') (some s')) none)
  unfolding signature_for_key
  two_entries wanted =
      rw
        (
          split-cons 59 (header_value k s) (header_value k' s') (header_value-Avoids k s pk ps),
          split-Avoids 59 (header_value k' s') (header_value-Avoids k' s' pk' ps'),
          read_entry-header_value k s pk ps wanted,
          read_entry-header_value k' s' pk' ps' wanted,
        )
        refl

  pub signature_for_key-first :
      k ≢ [] → s ≢ [] → signature_for_key (header_value k s ++ 59 ∷ header_value k' s') k ≡ some s
  signature_for_key-first nk ns =
      rw (two_entries k, entry_signature_own k s nk ns) (unfold first_of_two in refl)

  pub signature_for_key-second :
      k ≢ k'
      → k' ≢ []
      → s' ≢ []
      → signature_for_key (header_value k s ++ 59 ∷ header_value k' s') k' ≡ some s'
  signature_for_key-second ne nk ns =
      rw (two_entries k', entry_signature_other k k' s ne, entry_signature_own k' s' nk ns)
        (unfold first_of_two in refl)
