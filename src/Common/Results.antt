-- ===== src/Common/Results.antt =====
-- A call that may return an error.
use mathlib.Core.Path.{◌≡◌, refl, ap}
use mathlib.Core.Logic.{◌⊎◌, inl, inr}
use mathlib.Core.Bool.{Bool, true, false}

pub data Result {ℓ κ} (E : Type ℓ) (A : Type κ) : Type (ℓ ⊔ κ) where
  ok : A → Result E A
  err : E → Result E A

infixl 5 ◌>>=◌ ◌>>◌
abbrev pub ◌>>=◌ {ℓ κ μ} :
    {E : Type ℓ} {A : Type κ} {B : Type μ} → Result E A → (A → Result E B) → Result E B
ok a >>= f = f a
err e >>= f = err e

abbrev pub ◌>>◌ {ℓ κ} : {E : Type ℓ} {B : Type κ} → Result E (Unit {0}) → Result E B → Result E B
m >> k = m >>= λ _. k

-- Return the error unless the test passes.
abbrev pub require {ℓ} : {E : Type ℓ} → Bool → E → Result E (Unit {0})
require true e = ok tt
require false e = err e

-- What another package returns, under an error of this one.
abbrev pub map_err {ℓ κ μ} :
    {E : Type ℓ} {F : Type κ} {A : Type μ} → (E → F) → Result E A → Result F A
map_err f (ok a) = ok a
map_err f (err e) = err (f e)

pub Result-cases {ℓ κ} :
    {E : Type ℓ} {A : Type κ} (r : Result E A) → ((a : A) × (r ≡ ok a)) ⊎ ((e : E) × (r ≡ err e))
Result-cases (ok a) = inl (a, refl)
Result-cases (err e) = inr (e, refl)

-- The error, if there is one, satisfies `P`.
abbrev pub FailsWith {ℓ κ μ} : {E : Type ℓ} {A : Type κ} → (E → Type μ) → Result E A → Type μ
FailsWith P (ok a) = Unit
FailsWith P (err e) = P e

pub FailsWith-bind {ℓ κ μ ν} :
    {E : Type ℓ} {A : Type κ} {B : Type μ} (P : E → Type ν) (m : Result E A) (f : A → Result E B)
    → FailsWith P m
    → ((a : A) → FailsWith P (f a))
    → FailsWith P (m >>= f)
FailsWith-bind P (ok a) f h k = k a
FailsWith-bind P (err e) f h k = h

pub FailsWith-require {ℓ ν} :
    {E : Type ℓ} (P : E → Type ν) (b : Bool) (e : E) → P e → FailsWith P (require b e)
FailsWith-require P true e h = tt
FailsWith-require P false e h = h

-- A chain that ends well went well at each step.
pub bind-ok {ℓ κ μ} :
    {E : Type ℓ} {A : Type κ} {B : Type μ} (m : Result E A) (f : A → Result E B) (b : B)
    → (m >>= f) ≡ ok b
    → (a : A) × (m ≡ ok a) × (f a ≡ ok b)
bind-ok (ok a) f b h = (a, refl, h)
bind-ok (err e) f b h = absurd cc

pub require-ok {ℓ κ} :
    {E : Type ℓ} {A : Type κ} (b : Bool) (e : E) (a a' : A)
    → (require b e >> ok a) ≡ ok a'
    → (b ≡ true) × (a ≡ a')
require-ok true e a a' h = (refl, cc)
require-ok false e a a' h = absurd cc

pub require-then {ℓ κ} :
    {E : Type ℓ} {A : Type κ} (b : Bool) (e : E) (m : Result E A) (a : A)
    → (require b e >> m) ≡ ok a
    → (b ≡ true) × (m ≡ ok a)
require-then true e m a h = (refl, h)
require-then false e m a h = absurd cc

pub require-true {ℓ} :
    {E : Type ℓ} (b : Bool) (e : E) (u : Unit {0}) → require b e ≡ ok u → b ≡ true
require-true true e u h = refl
require-true false e u h = absurd cc

pub ok-injective {ℓ κ} :
    {E : Type ℓ} {A : Type κ} (a b : A) → ◌≡◌ {A = Result E A} (ok a) (ok b) → a ≡ b
ok-injective a b h = cc

pub map_err-ok {ℓ κ μ} :
    {E : Type ℓ} {F : Type κ} {A : Type μ} (f : E → F) (x : Result E A) (a : A)
    → map_err f x ≡ ok a
    → x ≡ ok a
map_err-ok f (ok b) a h = let same : b ≡ a = cc in ap ok same
map_err-ok f (err e) a h = absurd cc
