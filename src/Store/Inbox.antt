-- ===== src/Store/Inbox.antt =====
-- internal/platform/inbox: `MarkProcessed`, the claim of an event outside a transaction.
use go_commerce.Base.{ℕ}
use go_commerce.Base.Text.{Text}
use go_commerce.Domain.Order.{EventType}
use go_commerce.Store.Models.{Consumer}
use go_commerce.Store.Tx.{Tx, exec}
use go_commerce.Store.Rows.{already_processed, claimed_db, try_claim}

-- The insert of `Claim`, whose number of rows is not looked at.
unfoldable pub mark_processed : ℕ → Consumer → Text → EventType → Tx (Unit {0})
unfolding exec already_processed claimed_db
mark_processed now c id type = exec (λ db. (try_claim now c id type db).1)
