-- ===== src/Base/Result.antt =====
-- Computations that may throw: a value, or the exception.
use mathlib.Core.Path.{◌≡◌, refl, subst}
use mathlib.Core.Bool.{Bool, true, false}
use remill_tester.Base.Tests.{if◌then◌else◌}
use native.Mathlib.Omega.{arith}

pub data Result {ℓ κ} (E : Type ℓ) (A : Type κ) : Type (ℓ ⊔ κ) where
  ok : A → Result E A
  err : E → Result E A

infixl 5 ◌>>=◌
abbrev pub ◌>>=◌ {ℓ κ μ} :
    {E : Type ℓ} {A : Type κ} {B : Type μ} → Result E A → (A → Result E B) → Result E B
ok a >>= f = f a
err e >>= f = err e

-- Inversion of a successful chain.
pub bind-eq-ok {ℓ κ μ} :
    {E : Type ℓ} {A : Type κ} {B : Type μ} (m : Result E A) (f : A → Result E B) {b : B}
    → (m >>= f) ≡ ok b
    → (a : A) × (m ≡ ok a) × (f a ≡ ok b)
bind-eq-ok (ok a) f h = (a, refl, h)
bind-eq-ok (err e) f h = absurd (ground arith)

-- What holds of the value, if there is one.
abbrev pub Holds {ℓ κ μ} : {E : Type ℓ} {A : Type κ} → (A → Type μ) → Result E A → Type μ
Holds P (ok a) = P a
Holds P (err e) = Unit

pub Holds-bind {ℓ κ λ' μ ν} :
    {E : Type ℓ} {A : Type κ} {B : Type λ'} (P : A → Type μ) (Q : B → Type ν) (m : Result E A)
    (f : A → Result E B)
    → Holds P m
    → ((a : A) → P a → Holds Q (f a))
    → Holds Q (m >>= f)
Holds-bind P Q (ok a) f h k = k a h
Holds-bind P Q (err e) f h k = tt

pub Holds-ok {ℓ κ μ} :
    {E : Type ℓ} {A : Type κ} (P : A → Type μ) {m : Result E A} (a : A) → m ≡ ok a → Holds P m → P a
Holds-ok P a e h = subst (Holds P) e h

pub Holds-after {ℓ κ λ' ν} :
    {E : Type ℓ} {A : Type κ} {B : Type λ'} (Q : B → Type ν) (m : Result E A) (f : A → Result E B)
    → ((a : A) → Holds Q (f a))
    → Holds Q (m >>= f)
Holds-after Q (ok a) f k = k a
Holds-after Q (err e) f k = tt

pub Holds-if {ℓ κ μ} :
    {E : Type ℓ} {A : Type κ} (P : A → Type μ) (b : Bool) (left right : Result E A)
    → (b ≡ true → Holds P left)
    → (b ≡ false → Holds P right)
    → Holds P (if b then left else right)
Holds-if P true left right on off = on refl
Holds-if P false left right on off = off refl

pub Holds-run {ℓ κ} : {E : Type ℓ} {A : Type κ} (m : Result E A) → Holds (λ (a : A). m ≡ ok a) m
Holds-run (ok a) = refl
Holds-run (err e) = tt

pub Holds-map {ℓ κ μ ν} :
    {E : Type ℓ} {A : Type κ} (P : A → Type μ) (Q : A → Type ν) (m : Result E A)
    → ((a : A) → P a → Q a)
    → Holds P m
    → Holds Q m
Holds-map P Q (ok a) f h = f a h
Holds-map P Q (err e) f h = tt

pub Holds-both {ℓ κ μ ν} :
    {E : Type ℓ} {A : Type κ} (P : A → Type μ) (Q : A → Type ν) (m : Result E A)
    → Holds P m
    → Holds Q m
    → Holds (λ (a : A). P a × Q a) m
Holds-both P Q (ok a) h k = (h, k)
Holds-both P Q (err e) h k = tt

-- There is a value, and it satisfies `P`.
abbrev pub Yields {ℓ κ} : {E : Type ℓ} {A : Type κ} → (A → Type 0) → Result E A → Type 0
Yields P (ok a) = P a
Yields P (err e) = ⊥

pub Yields-bind {ℓ κ λ'} :
    {E : Type ℓ} {A : Type κ} {B : Type λ'} (P : A → Type 0) (Q : B → Type 0) (m : Result E A)
    (f : A → Result E B)
    → Yields P m
    → ((a : A) → P a → Yields Q (f a))
    → Yields Q (m >>= f)
Yields-bind P Q (ok a) f h k = k a h
Yields-bind P Q (err e) f h k = elim h [ ]

pub Yields-run {ℓ κ} :
    {E : Type ℓ} {A : Type κ} (P : A → Type 0) (m : Result E A)
    → Yields P m
    → (a : A) × (m ≡ ok a) × P a
Yields-run P (ok a) h = (a, refl, h)
Yields-run P (err e) h = elim h [ ]

abbrev pub map_error {ℓ κ μ} :
    {E : Type ℓ} {F : Type κ} {A : Type μ} → (E → F) → Result E A → Result F A
map_error f (ok a) = ok a
map_error f (err e) = err (f e)

pub Holds-map_error {ℓ κ μ ν} :
    {E : Type ℓ} {F : Type κ} {A : Type μ} (P : A → Type ν) (f : E → F) (m : Result E A)
    → Holds P m
    → Holds P (map_error f m)
Holds-map_error P f (ok a) h = h
Holds-map_error P f (err e) h = tt
