-- ===== src/Golang/Strings.antt =====
-- `strings` on bytes. White space is Unicode's, in its UTF-8 encoding.
pub mod Trimmed
pub mod Splits
use mathlib.Core.List.{reverse}
use go_webhook_delivery.Common.{
  ℕ, zero, suc, Bool, true, false, ◌&&◌, ◌||◌, Option, none, some, List, [], ◌∷◌, ◌++◌, leb, ◌==◌,
  if◌then◌else◌, Bytes, bytes_eq, length, drop,
}

unfoldable pub has_prefix : Bytes → Bytes → Bool
has_prefix s [] = true
has_prefix [] (p ∷ ps) = false
has_prefix (c ∷ cs) (p ∷ ps) = (c == p) && has_prefix cs ps

-- `strings.CutPrefix(s, prefix)`: the rest, where the prefix is there.
unfoldable pub cut_prefix : Bytes → Bytes → Option Bytes
unfolding has_prefix
cut_prefix s p = if has_prefix s p then some (drop (length p) s) else none

-- `strings.TrimSuffix`: without the suffix, where it is there.
unfoldable pub trim_suffix : Bytes → Bytes → Bytes
trim_suffix [] p = []
trim_suffix (c ∷ cs) p = let rest = trim_suffix cs p in if bytes_eq (c ∷ cs) p then [] else c ∷ rest

-- The ASCII white space: tab, line feed, vertical tab, form feed, carriage return, space.
abbrev pub is_ascii_space : ℕ → Bool
is_ascii_space c = (leb 9 c && leb c 13) || c == 32

-- The number of bytes of the white space character that the text begins with, 0 if it begins with
-- another. The longer ones are U+0085, U+00A0, U+1680, U+2000 to U+200A, U+2028, U+2029, U+202F,
-- U+205F and U+3000.
wide_space3 : ℕ → ℕ → ℕ → Bool
wide_space3 a b c =
    (a == 0xe1 && b == 0x9a && c == 0x80)
    || (a == 0xe2 && b == 0x80 && (leb 0x80 c && leb c 0x8a || c == 0xa8 || c == 0xa9 || c == 0xaf))
    || (a == 0xe2 && b == 0x81 && c == 0x9f)
    || (a == 0xe3 && b == 0x80 && c == 0x80)

wide_space2 : ℕ → ℕ → Bool
wide_space2 a b = a == 0xc2 && (b == 0x85 || b == 0xa0)

space_width : Bytes → ℕ
unfolding wide_space2 wide_space3
space_width [] = 0
space_width (a ∷ []) = if is_ascii_space a then 1 else 0
space_width (a ∷ b ∷ []) = if is_ascii_space a then 1 else if wide_space2 a b then 2 else 0
space_width (a ∷ b ∷ c ∷ r) =
    if is_ascii_space a
    then 1
    else if wide_space2 a b
    then 2
    else if wide_space3 a b c
    then 3
    else 0

-- The same at the end of the text, which is given in reverse.
space_width_back : Bytes → ℕ
unfolding wide_space2 wide_space3
space_width_back [] = 0
space_width_back (a ∷ []) = if is_ascii_space a then 1 else 0
space_width_back (b ∷ a ∷ []) = if is_ascii_space b then 1 else if wide_space2 a b then 2 else 0
space_width_back (c ∷ b ∷ a ∷ r) =
    if is_ascii_space c
    then 1
    else if wide_space2 b c
    then 2
    else if wide_space3 a b c
    then 3
    else 0

-- Each round takes one character off, so the length of the text is fuel enough.
strip : (Bytes → ℕ) → ℕ → Bytes → Bytes
strip width zero s = s
strip width (suc f) s =
    let rest = strip width f (drop (width s) s) in if width s == 0 then s else rest

unfoldable pub trim_space : Bytes → Bytes
unfolding strip space_width space_width_back
trim_space s =
    let left = strip space_width (length s) s in
    reverse (strip space_width_back (length left) (reverse left))

-- `strings.Split(s, sep)` with a separator of one byte.
unfoldable pub split : ℕ → Bytes → List Bytes
split sep [] = [] ∷ []
split sep (c ∷ cs) =
    let rest = split sep cs in
    if c == sep
    then [] ∷ rest
    else elim rest [ [] ↦ (c ∷ []) ∷ [] | field ∷ fields ↦ (c ∷ field) ∷ fields ]

-- `strings.SplitN(s, sep, suc n)`: at most `n` cuts.
unfoldable pub split_n : ℕ → ℕ → Bytes → List Bytes
split_n sep zero s = s ∷ []
split_n sep (suc n) [] = [] ∷ []
split_n sep (suc n) (c ∷ cs) =
    let cut = split_n sep n cs in
    let rest = split_n sep (suc n) cs in
    if c == sep
    then [] ∷ cut
    else elim rest [ [] ↦ (c ∷ []) ∷ [] | field ∷ fields ↦ (c ∷ field) ∷ fields ]
