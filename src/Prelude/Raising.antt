-- ===== src/Prelude/Raising.antt =====
-- A Python call that may raise: a value, or the exception's class.
use mathlib.Core.Path.{◌≡◌, refl, ap}
use mathlib.Core.Bool.{Bool, true, false}

-- The classes of core/exceptions.py that the modelled code raises, and those of Python and SQLAlchemy.
pub data Error : Type 0 where
  invalid_transition conflict validation configuration not_found out_of_stock : Error
  insufficient_stock coupon_error permission_denied value_error type_error : Error
  integrity_error authentication rate_limited invalid_operation : Error

pub data Result {κ} (X : Type κ) : Type κ where
  err : Error → Result X
  ok : X → Result X

abbrev pub raise_if : Bool → Error → Result (Unit {0})
raise_if false e = ok tt
raise_if true e = err e

-- The code after a call runs when the call did not raise.
infixl 5 ◌>>=◌
abbrev pub ◌>>=◌ {ℓ κ} :
    {X : Type ℓ} {Y : Type κ} (call : Result X) (rest : X → Result Y) → Result Y
err e >>= rest = err e
ok x >>= rest = rest x

infixl 5 ◌>>◌
abbrev pub ◌>>◌ {κ} : {Y : Type κ} (call : Result (Unit {0})) (rest : Result Y) → Result Y
call >> rest = call >>= λ _. rest

pub >>=-eq-ok {ℓ κ} :
    {X : Type ℓ} {Y : Type κ} (call : Result X) (rest : X → Result Y) {y : Y}
    → (call >>= rest) ≡ ok y
    → (x : X) × (call ≡ ok x) × (rest x ≡ ok y)
>>=-eq-ok (err e) rest h = cc
>>=-eq-ok (ok x) rest h = (x, refl, h)

pub ok-injective {κ} : {X : Type κ} {x y : X} → ok x ≡ ok y → x ≡ y
ok-injective h = cc

-- The value that a call returns next to what does not depend on it.
pub >>=-eq-pair {ℓ κ} :
    {X : Type ℓ} {Y : Type κ} (call : Result X) (y z : Y) {x : X}
    → ◌>>=◌ {Y = Y × X} call (λ a. ok (y, a)) ≡ ok (z, x)
    → call ≡ ok x
>>=-eq-pair (err e) y z h = cc
>>=-eq-pair (ok a) y z h = ap (λ p. ok p.1) (ok-injective h)

pub raise_if-eq-ok : (b : Bool) (e : Error) {u : Unit {0}} → raise_if b e ≡ ok u → b ≡ false
raise_if-eq-ok true e h = cc
raise_if-eq-ok false e h = refl
