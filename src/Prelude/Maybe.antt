-- ===== src/Prelude/Maybe.antt =====
-- A call that may raise `DomainValidationError` is an `Option`: `none` is the raise, whose message
-- and field path are dropped.
use mathlib.Core.Bool.{Bool, true, false}
use mathlib.Core.Option.{Option, none, some}

infixl 5 ◌>>=◌ ◌>>◌
abbrev pub ◌>>=◌ {ℓ κ} : {A : Type ℓ} {B : Type κ} → Option A → (A → Option B) → Option B
none >>= f = none
some a >>= f = f a

abbrev pub ◌>>◌ {ℓ} : {B : Type ℓ} → Option (Unit {0}) → Option B → Option B
m >> k = m >>= λ _. k

-- `if not test: raise`
abbrev pub require : Bool → Option (Unit {0})
require true = some tt
require false = none
