-- ===== src/Golang/Strings/Splits.antt =====
-- Cutting a text at a separator that its parts do not hold.
use go_webhook_delivery.Common.{
  ℕ, suc, ◌≡◌, ◌≢◌, refl, [], ◌∷◌, ◌++◌, arith, Bytes, All, length, true, some, drop-append,
  ==_self,
}
use go_webhook_delivery.Golang.Strings.{has_prefix, cut_prefix, split, split_n}

-- No byte of the text is the separator.
abbrev pub Avoids : ℕ → Bytes → Type 0
Avoids sep = All (λ c. c ≢ sep)

pub split-Avoids : (sep : ℕ) (s : Bytes) → Avoids sep s → split sep s ≡ s ∷ []
unfolding split
split-Avoids sep [] h = refl
split-Avoids sep (c ∷ cs) h = rw (split-Avoids sep cs h.1) (ground (arith, h.0))

pub split-cons : (sep : ℕ) (s t : Bytes) → Avoids sep s → split sep (s ++ sep ∷ t) ≡ s ∷ split sep t
unfolding split
split-cons sep [] t h = rw (==_self sep) refl
split-cons sep (c ∷ cs) t h = rw (split-cons sep cs t h.1) (ground (arith, h.0))

pub split_n-cons :
    (sep n : ℕ) (s t : Bytes)
    → Avoids sep s
    → split_n sep (suc n) (s ++ sep ∷ t) ≡ s ∷ split_n sep n t
unfolding split_n
split_n-cons sep n [] t h = rw (==_self sep) refl
split_n-cons sep n (c ∷ cs) t h = rw (split_n-cons sep n cs t h.1) (ground (arith, h.0))

has_prefix-append : (p t : Bytes) → has_prefix (p ++ t) p ≡ true
unfolding has_prefix
has_prefix-append [] t = refl
has_prefix-append (c ∷ cs) t = rw (==_self c, has_prefix-append cs t) refl

pub cut_prefix-append : (p t : Bytes) → cut_prefix (p ++ t) p ≡ some t
unfolding cut_prefix
cut_prefix-append p t = rw (has_prefix-append p t, drop-append (length p) p t refl) refl
