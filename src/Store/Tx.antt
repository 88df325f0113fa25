-- ===== src/Store/Tx.antt =====
-- Statements and transactions (gorm's `db.Transaction`). Each statement may fail for a reason
-- outside the program, such as a lost connection: the list of faults, read one to a statement,
-- says which do. A transaction that returns an error leaves the database as it was.
use go_commerce.Base.{Bool, true, false, Option, none, some, List, [], ◌∷◌}
use go_commerce.Domain.Errors.{Error, internal, Result, ok, err}
use go_commerce.Store.Models.{Db}

abbrev pub Faults : Type 0
Faults = List Bool

pub data Outcome (A : Type 0) : Type 0 where
  done : A → Db → Faults → Outcome A
  abort : Error → Faults → Outcome A

abbrev pub Tx : Type 0 → Type 0
Tx A = Db → Faults → Outcome A

module _ {A : Type 0} where
  abbrev pub pure : A → Tx A
  pure a db fs = done a db fs

  abbrev pub raise : Error → Tx A
  raise e db fs = abort e fs

  -- What a statement does when it reaches the database; `none` is a violated constraint.
  abbrev pub settle : Option (A × Db) → Faults → Outcome A
  settle none fs = abort internal fs
  settle (some (a, db)) fs = done a db fs

  abbrev pub attempt : Option (A × Db) → Faults → Outcome A
  attempt r [] = settle r []
  attempt r (true ∷ fs) = abort internal fs
  attempt r (false ∷ fs) = settle r fs

  unfoldable pub statement : (Db → Option (A × Db)) → Tx A
  statement f db fs = attempt (f db) fs

  unfoldable pub query : (Db → A) → Tx A
  unfolding statement
  query f = statement (λ db. some (f db, db))

  -- The commit of the transaction is one more statement.
  abbrev pub finish : A → Db → Db → Faults → Result A × Db × Faults
  finish a old new [] = (ok a, new, [])
  finish a old new (true ∷ fs) = (err internal, old, fs)
  finish a old new (false ∷ fs) = (ok a, new, fs)

  unfoldable pub transaction : Tx A → Db → Faults → Result A × Db × Faults
  transaction m db fs = elim (m db fs) [
    | done a db' fs' ↦ finish a db db' fs'
    | abort e fs' ↦ (err e, db, fs')
  ]

unfoldable pub exec : (Db → Db) → Tx (Unit {0})
unfolding statement
exec f = statement (λ db. some (tt, f db))

infixl 5 ◌>>=◌ ◌>>◌
abbrev pub ◌>>=◌ : {A B : Type 0} → Tx A → (A → Tx B) → Tx B
◌>>=◌ m f db fs = elim (m db fs) [ done a db' fs' ↦ f a db' fs' | abort e fs' ↦ abort e fs' ]

abbrev pub ◌>>◌ : {A B : Type 0} → Tx A → Tx B → Tx B
m >> k = m >>= λ _. k

-- A value that may be an error: `if err != nil { return err }`.
abbrev pub lift : {A : Type 0} → Result A → Tx A
lift (ok a) = pure a
lift (err e) = raise e

-- `errors.Is(err, gorm.ErrRecordNotFound)`
abbrev pub found : {A : Type 0} → Option A → Error → Tx A
found none e = raise e
found (some a) e = pure a
