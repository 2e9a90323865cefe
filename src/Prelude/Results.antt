-- ===== src/Prelude/Results.antt =====
-- A computation that may raise. An exception leaves the method at once: no method that is modelled
-- catches one, so the state at the raise is not kept.
use mathlib.Core.Bool.{Bool, true, false}
use mathlib.Core.Option.{Option, none, some}

-- `IndexError`, `TypeError` (a subscript of `None`, a wrong keyword), torch's `RuntimeError` for
-- shapes that do not match, `ValueError`, `AssertionError`, `ZeroDivisionError`, `AttributeError`,
-- `KeyError`, `StopIteration` and `FileNotFoundError`.
pub data Error : Type 0 where
  index_error type_error runtime_error value_error assertion_error zero_division_error
        attribute_error key_error stop_iteration file_not_found :
      Error

pub data Result {ℓ} (A : Type ℓ) : Type ℓ where
  ok : A → Result A
  err : Error → Result A

infixl 5 ◌>>=◌ ◌>>◌
abbrev pub ◌>>=◌ {ℓ κ} : {A : Type ℓ} {B : Type κ} → Result A → (A → Result B) → Result B
ok a >>= f = f a
err e >>= f = err e

abbrev pub ◌>>◌ {ℓ κ} : {A : Type ℓ} {B : Type κ} → Result A → Result B → Result B
m >> k = m >>= λ _. k

abbrev pub ok_or {ℓ} : {A : Type ℓ} → Error → Option A → Result A
ok_or e none = err e
ok_or e (some a) = ok a

abbrev pub guard : Bool → Error → Result (Unit {0})
guard true e = ok tt
guard false e = err e
