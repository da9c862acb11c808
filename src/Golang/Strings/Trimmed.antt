-- ===== src/Golang/Strings/Trimmed.antt =====
-- A text of visible ASCII characters has no white space to trim.
use mathlib.Core.List.{reverse, reverse-reverse, reverse-cons}
use go_webhook_delivery.Common.{
  ℕ, zero, suc, ◌≤◌, ◌≡◌, refl, [], ◌∷◌, arith, Bytes, All, All-append, length,
}
use go_webhook_delivery.Golang.Strings.{space_width, space_width_back, strip, trim_space}

abbrev pub IsVisible : ℕ → Type 0
IsVisible c = (33 ≤ c) × (c ≤ 126)

All-reverse : (s : Bytes) → All IsVisible s → All IsVisible (reverse s)
All-reverse [] h = tt
All-reverse (c ∷ s) h =
    rw reverse-cons (All-append IsVisible (reverse s) (c ∷ []) (All-reverse s h.1) (h.0, tt))

space_width-visible : (s : Bytes) → All IsVisible s → space_width s ≡ 0
unfolding space_width
space_width-visible [] h = refl
space_width-visible (a ∷ []) h = ground arith
space_width-visible (a ∷ b ∷ []) h = ground arith
space_width-visible (a ∷ b ∷ c ∷ r) h = ground arith

space_width_back-visible : (s : Bytes) → All IsVisible s → space_width_back s ≡ 0
unfolding space_width_back
space_width_back-visible [] h = refl
space_width_back-visible (a ∷ []) h = ground arith
space_width_back-visible (a ∷ b ∷ []) h = ground arith
space_width_back-visible (a ∷ b ∷ c ∷ r) h = ground arith

strip_stops : (width : Bytes → ℕ) (f : ℕ) (s : Bytes) → width s ≡ 0 → strip width f s ≡ s
unfolding strip
strip_stops width zero s h = refl
strip_stops width (suc f) s h = rw h refl

pub trim_space-visible : (s : Bytes) → All IsVisible s → trim_space s ≡ s
unfolding trim_space
trim_space-visible s h =
    rw
      (
        strip_stops space_width (length s) s (space_width-visible s h),
        strip_stops space_width_back (length s) (reverse s)
            (space_width_back-visible (reverse s) (All-reverse s h)),
      )
      (reverse-reverse s)
