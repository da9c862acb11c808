-- ===== src/Cryptobox/Aad.antt =====
-- The associated data of an envelope determines its parts.
use go_webhook_delivery.Common.{
  ◌+◌, ◌%◌, ◌<◌, ◌≡◌, refl, sym, ap, ◌∙◌, List, [], ◌∷◌, ◌++◌, arith, Bytes, length, take, drop,
  take-append, drop-append, All, length-append,
}
use go_webhook_delivery.Golang.BigEndian.{
  put_uint32, length-put_uint32, from_be, from_be-put_uint32,
}
use go_webhook_delivery.Cryptobox.{associated_data}

-- The part fits the length word.
abbrev pub FitsWord : Bytes → Type 0
FitsWord part = length part < 4294967296

frame : Bytes → Bytes → Bytes
frame part rest = put_uint32 (length part % 4294967296) ++ (part ++ rest)

frame-length :
    (p q r s : Bytes) → FitsWord p → FitsWord q → frame p r ≡ frame q s → length p ≡ length q
unfolding frame
frame-length p q r s hp hq e = omega (
  arith,
  from_be-put_uint32 (length p % 4294967296),
  from_be-put_uint32 (length q % 4294967296),
  ap (from_be 0) (
      sym (take-append 4 (put_uint32 (length p % 4294967296)) (p ++ r) (length-put_uint32 _))
      ∙ ap (take 4) e
      ∙ take-append 4 (put_uint32 (length q % 4294967296)) (q ++ s) (length-put_uint32 _)),
)

frame_body : (p q r s : Bytes) → frame p r ≡ frame q s → p ++ r ≡ q ++ s
unfolding frame
frame_body p q r s e =
    sym (drop-append 4 (put_uint32 (length p % 4294967296)) (p ++ r) (length-put_uint32 _))
    ∙ ap (drop 4) e
    ∙ drop-append 4 (put_uint32 (length q % 4294967296)) (q ++ s) (length-put_uint32 _)

append_cancel : (p q r s : Bytes) → length p ≡ length q → p ++ r ≡ q ++ s → (p ≡ q) × (r ≡ s)
append_cancel p q r s n e = (
  sym (take-append (length p) p r refl)
      ∙ ap (take (length p)) e
      ∙ take-append (length p) q s (sym n),
  sym (drop-append (length p) p r refl)
      ∙ ap (drop (length p)) e
      ∙ drop-append (length p) q s (sym n),
)

frame-injective :
    (p q r s : Bytes) → FitsWord p → FitsWord q → frame p r ≡ frame q s → (p ≡ q) × (r ≡ s)
frame-injective p q r s hp hq e =
    append_cancel p q r s (frame-length p q r s hp hq e) (frame_body p q r s e)

length-frame : (p r : Bytes) → length (frame p r) ≡ 4 + length p + length r
unfolding frame
length-frame p r = omega (
  arith,
  length-append (put_uint32 (length p % 4294967296)) (p ++ r),
  length-append p r,
  length-put_uint32 (length p % 4294967296),
)

-- Two sequences of parts, each shorter than 4 GiB, that have the same associated data are the same
-- sequence: the encoding is unambiguous, whatever the number of the parts.
pub associated_data-injective :
    (ps qs : List Bytes)
    → All FitsWord ps
    → All FitsWord qs
    → associated_data ps ≡ associated_data qs
    → ps ≡ qs
unfolding associated_data frame
associated_data-injective [] [] hp hq e = refl
associated_data-injective [] (q ∷ qs) hp hq e =
    absurd (omega (arith, ap length e, length-frame q (associated_data qs)))
associated_data-injective (p ∷ ps) [] hp hq e =
    absurd (omega (arith, ap length e, length-frame p (associated_data ps)))
associated_data-injective (p ∷ ps) (q ∷ qs) hp hq e =
    let (head, tail) = frame-injective p q (associated_data ps) (associated_data qs) hp.0 hq.0 e in
    cc (head, associated_data-injective ps qs hp.1 hq.1 tail)
