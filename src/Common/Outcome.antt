-- ===== src/Common/Outcome.antt =====
-- The outcome of a member function: a value, an exception that the source throws, an assertion
-- that fails, or an access that C++ leaves undefined.
use mathlib.Core.Bool.{Bool, true, false}
use mathlib.Core.Option.{Option, none, some}

pub data Error : Type 0 where
  out_of_range bad_alloc assertion fault : Error

pub data Result {ℓ} (T : Type ℓ) : Type ℓ where
  ok : T → Result T
  err : Error → Result T

-- One step after another: the first that does not return a value ends the call.
infixl 5 ◌>>=◌
abbrev pub ◌>>=◌ {ℓ κ} : {S : Type ℓ} {T : Type κ} → Result S → (S → Result T) → Result T
ok value >>= next = next value
err reason >>= next = err reason

infixl 5 ◌>>◌
abbrev pub ◌>>◌ {ℓ} : {T : Type ℓ} → Result (Unit {0}) → Result T → Result T
step >> next = step >>= λ _. next

-- `require c e` goes on when the condition holds, and ends with the error otherwise.
abbrev pub require : Bool → Error → Result (Unit {0})
require condition reason = elim condition [ true ↦ ok tt | false ↦ err reason ]

abbrev pub from_option {ℓ} : {T : Type ℓ} → Error → Option T → Result T
from_option reason none = err reason
from_option reason (some value) = ok value
