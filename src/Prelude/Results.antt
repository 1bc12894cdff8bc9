-- ===== src/Prelude/Results.antt =====
-- Fallible code: a value or an error, with `do` blocks.
use mathlib.Core.Path.{◌≡◌, refl}
use mathlib.Core.Bool.{Bool, true, false}

pub data Result (Error : Type 0) (Value : Type 0) : Type 0 where
  err : Error → Result Error Value
  ok : Value → Result Error Value

-- The error of a callee, wrapped by the caller.
abbrev pub wrap :
    {Inner Outer Value : Type 0} → (Inner → Outer) → Result Inner Value → Result Outer Value
wrap outer (err e) = err (outer e)
wrap outer (ok v) = ok v

-- The early return of an error.
abbrev pub refuse_if : {Error : Type 0} → Bool → Error → Result Error (Unit {0})
refuse_if false e = ok tt
refuse_if true e = err e

infixl 5 ◌>>=◌ ◌>>◌
abbrev pub ◌>>=◌ : {Error V W : Type 0} → Result Error V → (V → Result Error W) → Result Error W
err e >>= next = err e
ok v >>= next = next v

abbrev pub ◌>>◌ : {Error W : Type 0} → Result Error (Unit {0}) → Result Error W → Result Error W
first >> second = first >>= λ done. second

-- Where code with early returns gives a value, no step has returned early.
pub refuse_if-eq-ok :
    {Error W : Type 0} (refused : Bool) (e : Error) (rest : Result Error W) {w : W}
    → (refuse_if refused e >> rest) ≡ ok w
    → (refused ≡ false) × (rest ≡ ok w)
refuse_if-eq-ok false e rest h = (refl, h)
refuse_if-eq-ok true e rest h = cc

pub wrap-eq-ok :
    {Inner Outer Value : Type 0} (outer : Inner → Outer) (r : Result Inner Value) {v : Value}
    → wrap outer r ≡ ok v
    → r ≡ ok v
wrap-eq-ok outer (err e) h = cc
wrap-eq-ok outer (ok v) h = cc

pub >>=-eq-ok :
    {Error V W : Type 0} (first : Result Error V) (next : V → Result Error W) {w : W}
    → (first >>= next) ≡ ok w
    → (v : V) × (first ≡ ok v) × (next v ≡ ok w)
>>=-eq-ok (err e) next h = cc
>>=-eq-ok (ok v) next h = (v, refl, h)
