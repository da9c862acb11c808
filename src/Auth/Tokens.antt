-- ===== src/Auth/Tokens.antt =====
-- A generated token is recognized by its prefix.
use go_webhook_delivery.Common.{
  ℕ, ◌≤◌, ◌≡◌, ap, ◌∙◌, arith, Bool, true, false, some, [], ◌∷◌, ◌++◌, if◌then◌else◌, Bytes, bytes,
  bytes_eq, length, length-append, All,
}
use go_webhook_delivery.Golang.Base64.{base64_encode}
use go_webhook_delivery.Golang.Base64.RoundTrip.{IsByte, base64_decode-encode, length-base64_encode}
use go_webhook_delivery.Golang.Hex.{
  hex_encode, hex_decode-encode, length-hex_encode, hex_encode-Avoids,
}
use go_webhook_delivery.Golang.Strings.{split_n}
use go_webhook_delivery.Golang.Strings.Splits.{split_n-cons, Avoids}
use go_webhook_delivery.Auth.{decodes, decodes_to_32, prefix_of_parts, token_prefix}

abbrev pub environment : Bool → Bytes
environment test = if test then bytes "test" else bytes "live"

abbrev pub token_of : Bool → Bytes → Bytes → Bytes
token_of test prefix_raw secret =
    bytes "wde_"
    ++ (environment test
        ++ (bytes "_" ++ (hex_encode prefix_raw ++ (bytes "_" ++ base64_encode secret))))

split_in_four :
    (sep : ℕ) (a b c d : Bytes)
    → Avoids sep a
    → Avoids sep b
    → Avoids sep c
    → split_n sep 3 (a ++ sep ∷ (b ++ sep ∷ (c ++ sep ∷ d))) ≡ a ∷ b ∷ c ∷ d ∷ []
unfolding split_n
split_in_four sep a b c d ha hb hc =
    split_n-cons sep 2 a (b ++ sep ∷ (c ++ sep ∷ d)) ha
    ∙ ap (◌∷◌ a) (split_n-cons sep 1 b (c ++ sep ∷ d) hb ∙ ap (◌∷◌ b) (split_n-cons sep 0 c d hc))

environment-Avoids : (test : Bool) → Avoids 95 (environment test)
environment-Avoids true = omega arith
environment-Avoids false = omega arith

split-token :
    (test : Bool) (prefix_raw secret : Bytes)
    → All IsByte prefix_raw
    → split_n 95 3 (token_of test prefix_raw secret)
      ≡ bytes "wde" ∷ environment test ∷ hex_encode prefix_raw ∷ base64_encode secret ∷ []
split-token test prefix_raw secret h =
    split_in_four 95 (bytes "wde") (environment test) (hex_encode prefix_raw) (base64_encode secret)
      (omega arith) (environment-Avoids test) (hex_encode-Avoids prefix_raw h)

module _ (test : Bool) (prefix_raw secret : Bytes) (p8 : length prefix_raw ≡ 8)
    (s32 : length secret ≡ 32) (pb : All IsByte prefix_raw) (sb : All IsByte secret) where
  pub length-token_of : length (token_of test prefix_raw secret) ≤ 69
  length-token_of = ground (
    arith,
    length-append (hex_encode prefix_raw) (bytes "_" ++ base64_encode secret),
    length-hex_encode prefix_raw,
    length-base64_encode secret,
  )

  parts_pass :
      prefix_of_parts
        (bytes "wde" ∷ environment test ∷ hex_encode prefix_raw ∷ base64_encode secret ∷ [])
      ≡ some (hex_encode prefix_raw)
  unfolding prefix_of_parts decodes decodes_to_32 bytes_eq
  parts_pass =
      rw
        (
          hex_decode-encode prefix_raw pb,
          base64_decode-encode secret sb,
          length-hex_encode prefix_raw,
          p8,
          s32,
        )
        (ground arith)

  pub token_prefix-token_of :
      token_prefix (token_of test prefix_raw secret) ≡ some (hex_encode prefix_raw)
  unfolding token_prefix
  token_prefix-token_of =
      rw (split-token test prefix_raw secret pb, parts_pass) (ground (arith, length-token_of))
