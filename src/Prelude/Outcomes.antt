-- ===== src/Prelude/Outcomes.antt =====
-- What a fallible step returns: an error or a value, with the chain of steps that stops at the
-- first error.
use mathlib.Core.Path.{◌≡◌, refl}
use mathlib.Core.Option.{Option, none, some}

pub data Outcome {κ} (E : Type 0) (V : Type κ) : Type κ where
  err : E → Outcome E V
  ok : V → Outcome E V

infixl 5 ◌>>=◌
abbrev pub ◌>>=◌ {ℓ κ} :
    {E : Type 0} {V : Type ℓ} {W : Type κ} → Outcome E V → (V → Outcome E W) → Outcome E W
err why >>= next = err why
ok v >>= next = next v

-- a missing value as an error
abbrev pub or_fail {κ} : {E : Type 0} {V : Type κ} → Option V → E → Outcome E V
or_fail none why = err why
or_fail (some v) why = ok v

pub >>=-eq-ok {ℓ κ} :
    {E : Type 0} {V : Type ℓ} {W : Type κ} (first : Outcome E V) (next : V → Outcome E W) {w : W}
    → (first >>= next) ≡ ok w
    → (v : V) × (first ≡ ok v) × (next v ≡ ok w)
>>=-eq-ok (err why) next h = cc
>>=-eq-ok (ok v) next h = (v, refl, h)

pub or_fail-eq-ok {κ} :
    {E : Type 0} {V : Type κ} (o : Option V) (why : E) {v : V} → or_fail o why ≡ ok v → o ≡ some v
or_fail-eq-ok none why h = cc
or_fail-eq-ok (some u) why h = cc
