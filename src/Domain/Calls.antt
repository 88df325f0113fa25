-- ===== src/Domain/Calls.antt =====
-- Calls that may fail and change a state, in sequence: the rest of a function after an error is not
-- run.
use go_commerce.Domain.Errors.{Error, Result, ok, err}

abbrev pub Call : Type 0 → Type 0 → Type 0
Call S A = S → Result A × S

module _ {S A B : Type 0} where
  abbrev pub given : Result A × S → (A → Call S B) → Result B × S
  given (ok a, s) f = f a s
  given (err e, s) f = (err e, s)

  abbrev pub and_then : Call S A → (A → Call S B) → Call S B
  and_then m f s = given (m s) f

module _ {S A : Type 0} where
  abbrev pub return : A → Call S A
  return a s = (ok a, s)

  abbrev pub fails : Error → Call S A
  fails e s = (err e, s)

  abbrev pub attempt : Call S A → Call S (Result A)
  attempt m s = (ok (m s).0, (m s).1)
