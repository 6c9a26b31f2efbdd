-- ===== src/Base/Errors.antt =====
-- A value or the exception that was raised. Each module has its own data type of exceptions, with
-- a constructor for each `raise`.
use mathlib.Core.Option.{Option, none, some}
use mathlib.Core.Path.{◌≡◌, refl, ap}
use mathlib.Core.Bool.{Bool, true, false, not}
use ztna_lab.Base.Tests.{if◌then◌else◌}

pub data Result {ℓ} (E A : Type ℓ) : Type ℓ where
  ok : A → Result E A
  err : E → Result E A

infixl 5 ◌>>=◌ ◌>>◌
abbrev pub ◌>>=◌ {ℓ} : {E A B : Type ℓ} → Result E A → (A → Result E B) → Result E B
ok a >>= f = f a
err e >>= f = err e

abbrev pub ◌>>◌ {ℓ} : {E A B : Type ℓ} → Result E A → Result E B → Result E B
m >> k = m >>= λ _. k

-- A chain of calls that may give nothing, and nothing as an exception.
infixl 5 ◌>>?◌
abbrev pub ◌>>?◌ {ℓ κ} : {A : Type ℓ} {B : Type κ} → Option A → (A → Option B) → Option B
some a >>? f = f a
none >>? f = none

abbrev pub or_raise {ℓ} : {E A : Type ℓ} → E → Option A → Result E A
or_raise e (some a) = ok a
or_raise e none = err e

-- What a chain that gives a value has passed.
pub >>=-eq-ok {ℓ} :
    {E A B : Type ℓ} (first : Result E A) (next : A → Result E B) {last : B}
    → (first >>= next) ≡ ok last
    → (middle : A) × (first ≡ ok middle) × (next middle ≡ ok last)
>>=-eq-ok (ok middle) next given = (middle, refl, given)
>>=-eq-ok (err e) next given = cc given

pub or_raise-eq-ok {ℓ} :
    {E A : Type ℓ} (e : E) (o : Option A) {a : A} → or_raise e o ≡ ok a → o ≡ some a
or_raise-eq-ok e (some a) h = cc h
or_raise-eq-ok e none h = cc h

pub passed {ℓ} :
    {E A : Type ℓ} (b : Bool) (e : E) (r : Result E A) {a : A}
    → (if not b then err e else r) ≡ ok a
    → (b ≡ true) × (r ≡ ok a)
passed true e r h = (refl, h)
passed false e r h = cc h

pub pass {ℓ} :
    {E A : Type ℓ} (b : Bool) (e : E) (r : Result E A) → b ≡ true → (if not b then err e else r) ≡ r
pass b e r h = ap (λ (c : Bool). if not c then err e else r) h

pub >>?-eq-some {ℓ κ} :
    {A : Type ℓ} {B : Type κ} (first : Option A) (next : A → Option B) {last : B}
    → (first >>? next) ≡ some last
    → (middle : A) × (first ≡ some middle) × (next middle ≡ some last)
>>?-eq-some (some middle) next given = (middle, refl, given)
>>?-eq-some none next given = cc given
