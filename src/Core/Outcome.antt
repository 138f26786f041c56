-- ===== src/Core/Outcome.antt =====
-- How a piece of the program ends: it returns, it stops in `platform::fail_fast` (platform/trap.hpp),
-- it throws, or the language gives it no meaning, as for a read of a union member that is not alive.
use jmpxx.Prelude.{Bool, true, false}

pub data Outcome (A : Type 0) : Type 0 where
  done : A → Outcome A
  trap : Outcome A
  threw : Outcome A
  undefined : Outcome A

infixl 5 ◌>>=◌ ◌>>◌
abbrev pub ◌>>=◌ : {A B : Type 0} → Outcome A → (A → Outcome B) → Outcome B
done a >>= f = f a
trap >>= f = trap
threw >>= f = threw
undefined >>= f = undefined

abbrev pub ◌>>◌ : {B : Type 0} → Outcome (Unit {0}) → Outcome B → Outcome B
m >> k = m >>= λ _. k

-- `platform::fail_fast` unless the test passes.
abbrev pub require : Bool → Outcome (Unit {0})
require true = done tt
require false = trap
