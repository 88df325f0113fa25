-- ===== src/Store/Call.antt =====
-- Calls of the repositories by the services: each is a transaction, or statements outside one, of
-- which each is committed by itself. After a call that failed the service may go on.
use go_commerce.Domain.Errors.{Error, Result, ok, err}
use go_commerce.Store.Models.{Db}
use go_commerce.Store.Tx.{Tx, Faults, done, abort}

abbrev pub Call : Type 0 → Type 0
Call A = Db → Faults → Result A × Db × Faults

module _ {A : Type 0} where
  -- Statements that write nothing, outside a transaction.
  unfoldable pub reading : Tx A → Call A
  reading m db fs = elim (m db fs) [
    | done a db' fs' ↦ (ok a, db', fs')
    | abort e fs' ↦ (err e, db, fs')
  ]

  abbrev pub returns : A → Call A
  returns a db fs = (ok a, db, fs)

  abbrev pub refuses : Error → Call A
  refuses e db fs = (err e, db, fs)

module _ {A B : Type 0} where
  abbrev pub given : Result A → (A → Call B) → (Error → Call B) → Call B
  given (ok a) f g = f a
  given (err e) f g = g e

  -- A call, with what follows its result and what follows its error.
  abbrev pub call : Call A → (A → Call B) → (Error → Call B) → Call B
  call m f g db fs = given (m db fs).0 f g (m db fs).1 (m db fs).2

  -- `if err != nil { return err }`
  abbrev pub and_then : Call A → (A → Call B) → Call B
  and_then m f = call m f refuses
