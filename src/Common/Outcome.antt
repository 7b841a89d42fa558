-- ===== src/Common/Outcome.antt =====
-- What a C function that may fail does: it returns a value, it returns its error code, or an
-- `ASSERT_MSG` fires and the process aborts.
use mathlib.Core.Bool.{Bool, true, false}

pub data Outcome {ℓ} (A : Type ℓ) : Type ℓ where
  ok : A → Outcome A
  error : Outcome A
  abort : Outcome A

infixl 5 ◌>>=◌ ◌>>◌
abbrev pub ◌>>=◌ {ℓ κ} : {A : Type ℓ} {B : Type κ} → Outcome A → (A → Outcome B) → Outcome B
ok a >>= f = f a
error >>= f = error
abort >>= f = abort

abbrev pub ◌>>◌ {ℓ} : {B : Type ℓ} → Outcome (Unit {0}) → Outcome B → Outcome B
m >> k = m >>= λ _. k

-- `ASSERT_MSG(cond, …)`
abbrev pub assert : Bool → Outcome (Unit {0})
assert true = ok tt
assert false = abort

-- `if (!cond) return -1;`
abbrev pub require : Bool → Outcome (Unit {0})
require true = ok tt
require false = error
