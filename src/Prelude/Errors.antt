-- ===== src/Prelude/Errors.antt =====
-- Go's `(value, error)` results: a value or the first error.
use mathlib.Core.Path.{◌≡◌, refl}
use mathlib.Core.Bool.{Bool, true, false}
use mathlib.Core.List.{List, [], ◌∷◌}

pub data Result {ℓ} (E : Type 0) (A : Type ℓ) : Type ℓ where
  ok : A → Result E A
  err : E → Result E A

-- a function that returns only an error
abbrev pub Check : Type 0 → Type 0
Check E = Result E (Unit {0})

-- `if err != nil { return err }`
infixl 5 ◌>>=◌ ◌>>◌
abbrev pub ◌>>=◌ {ℓ κ} :
    {E : Type 0} {A : Type ℓ} {B : Type κ} → Result E A → (A → Result E B) → Result E B
ok a >>= f = f a
err e >>= f = err e

abbrev pub ◌>>◌ {ℓ} : {E : Type 0} {B : Type ℓ} → Check E → Result E B → Result E B
m >> k = m >>= λ _. k

-- `if !test { return e }`
abbrev pub require : {E : Type 0} → Bool → E → Check E
require true e = ok tt
require false e = err e

-- `if test { return e }`
abbrev pub refuse : {E : Type 0} → Bool → E → Check E
refuse true e = err e
refuse false e = ok tt

-- `if err := m; err != nil { return wrap(err) }`
abbrev pub wrap {ℓ} : {E F : Type 0} {A : Type ℓ} → (E → F) → Result E A → Result F A
wrap f (ok a) = ok a
wrap f (err e) = err (f e)

module _ {ℓ} {E : Type 0} {A : Type ℓ} where
  -- `for _, x := range xs { if err := f(x); err != nil { return err } }`
  abbrev pub each : (A → Check E) → List A → Check E
  each f [] = ok tt
  each f (x ∷ xs) = f x >>= λ _. each f xs

-- The inversion of a sequence of checks.
pub >>-ok {ℓ} :
    {E : Type 0} {B : Type ℓ} (m : Check E) (k : Result E B) {b : B}
    → (m >> k) ≡ ok b
    → (m ≡ ok tt) × (k ≡ ok b)
>>-ok (ok tt) k h = (refl, h)
>>-ok (err e) k h = cc

pub require-ok : {E : Type 0} (t : Bool) (e : E) → require t e ≡ ok tt → t ≡ true
require-ok true e h = refl
require-ok false e h = cc

pub refuse-ok : {E : Type 0} (t : Bool) (e : E) → refuse t e ≡ ok tt → t ≡ false
refuse-ok true e h = cc
refuse-ok false e h = refl
