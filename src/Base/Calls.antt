-- ===== src/Base/Calls.antt =====
-- How a call of a C function ends: it returns, it stops the program (`panic`, a failed `assert`), or
-- it does something that C does not define, such as an access outside of a buffer (`fault`).
use mathlib.Core.Bool.{Bool, true, false}

pub data Outcome {ℓ} (A : Type ℓ) : Type ℓ where
  ret : A → Outcome A
  panic : Outcome A
  fault : Outcome A

infixl 5 ◌>>=◌ ◌>>◌
abbrev pub ◌>>=◌ {ℓ κ} : {A : Type ℓ} {B : Type κ} → Outcome A → (A → Outcome B) → Outcome B
ret a >>= f = f a
panic >>= f = panic
fault >>= f = fault

abbrev pub ◌>>◌ {ℓ} : {B : Type ℓ} → Outcome (Unit {0}) → Outcome B → Outcome B
m >> k = m >>= λ _. k

-- `assert(test)`, as debug and safe builds check it.
abbrev pub assert : Bool → Outcome (Unit {0})
assert true = ret tt
assert false = panic

-- A condition without which the behaviour is not defined.
abbrev pub defined : Bool → Outcome (Unit {0})
defined true = ret tt
defined false = fault
