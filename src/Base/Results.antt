-- ===== src/Base/Results.antt =====
-- A Go pair `(value, error)`, of which exactly one is meaningful.
use mathlib.Core.Path.{◌≡◌, refl}
use mathlib.Core.Logic.{◌⊎◌, inl, inr}
use mathlib.Core.Bool.{Bool, true, false}
use mathlib.Core.Option.{Option, none, some}

pub data Result {ℓ κ} (E : Type ℓ) (A : Type κ) : Type (ℓ ⊔ κ) where
  ok : A → Result E A
  err : E → Result E A

module _ {ℓ κ} {E : Type ℓ} {A : Type κ} where
  pub Result-cases : (r : Result E A) → ((a : A) × (r ≡ ok a)) ⊎ ((e : E) × (r ≡ err e))
  Result-cases (ok a) = inl (a, refl)
  Result-cases (err e) = inr (e, refl)

-- `if err != nil { return zero, err }` before the rest.
infixl 5 ◌>>=◌
abbrev pub ◌>>=◌ {ℓ κ μ} :
    {E : Type ℓ} {A : Type κ} {B : Type μ} → Result E A → (A → Result E B) → Result E B
err e >>= next = err e
ok a >>= next = next a

-- A check whose value is not used.
infixl 5 ◌>>◌
abbrev pub ◌>>◌ {ℓ κ} : {E : Type ℓ} {B : Type κ} → Result E (Unit {0}) → Result E B → Result E B
m >> k = m >>= λ _. k

-- `if !holds { return e }`
abbrev pub require {ℓ} : {E : Type ℓ} → Bool → E → Result E (Unit {0})
require true e = ok tt
require false e = err e

-- An error of the callee turned into one of the caller.
abbrev pub or_else {ℓ κ μ} : {E : Type ℓ} {F : Type κ} {A : Type μ} → F → Result E A → Result F A
or_else f (ok a) = ok a
or_else f (err e) = err f

-- A call that may fail before it answers.
abbrev pub unless_fault {ℓ κ} : {E : Type ℓ} {A : Type κ} → Option E → Result E A → Result E A
unless_fault none r = r
unless_fault (some e) r = err e

-- What a chain that succeeds says of its first step and of the rest.
module _ {ℓ κ μ} {E : Type ℓ} {A : Type κ} {B : Type μ} (next : A → Result E B) {b : B} where
  bound : (r : Result E A) → (r >>= next) ≡ ok b → (a : A) × (r ≡ ok a) × (next a ≡ ok b)
  bound (err e) h = cc
  bound (ok a) h = (a, refl, h)

pub >>=-eq-ok {ℓ κ μ} :
    {E : Type ℓ} {A : Type κ} {B : Type μ} (r : Result E A) (next : A → Result E B) {b : B}
    → (r >>= next) ≡ ok b
    → (a : A) × (r ≡ ok a) × (next a ≡ ok b)
>>=-eq-ok r next = bound next r

pub require-eq-ok {ℓ κ} :
    {E : Type ℓ} {B : Type κ} (t : Bool) (e : E) (m : Result E B) {b : B}
    → (require t e >> m) ≡ ok b
    → (t ≡ true) × (m ≡ ok b)
require-eq-ok true e m h = (refl, h)
require-eq-ok false e m h = cc

pub or_else-eq-ok {ℓ κ μ} :
    {E : Type ℓ} {F : Type κ} {A : Type μ} (f : F) (m : Result E A) {a : A}
    → or_else f m ≡ ok a
    → m ≡ ok a
or_else-eq-ok f (ok a) h = cc
or_else-eq-ok f (err e) h = cc

-- A step whose error is turned into one of the caller, before the rest.
pub or_else->>= {ℓ κ μ ν} :
    {E : Type ℓ} {F : Type κ} {A : Type μ} {B : Type ν} (e : F) (m : Result E A)
    (f : A → Result F B) {b : B}
    → (or_else e m >>= f) ≡ ok b
    → (a : A) × (m ≡ ok a) × (f a ≡ ok b)
or_else->>= e (ok a) f h = (a, refl, h)
or_else->>= e (err d) f h = cc

-- An operation that may fail before it does anything.
abbrev pub attempt {ℓ κ μ} :
    {E : Type ℓ} {A : Type κ} {S : Type μ} → Option E → (S → Result E A × S) → S → Result E A × S
attempt none op s = op s
attempt (some e) op s = (err e, s)
