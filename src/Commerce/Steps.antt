-- ===== src/Commerce/Steps.antt =====
-- One step is one transaction on an order, of the API process (a creation, cancellation, payment,
-- fulfilment or expiry) or of the worker process (a delivery to the payment or the inventory
-- handler), with any clock, any new UUID and any statements failing. Messages of the event stream
-- may arrive in any order, any number of times, and with any payload. The writes to products
-- (internal/http/product), which set the stock to what the seller says, are not steps.
use go_commerce.Base.{ℕ, List}
use go_commerce.Base.Text.{Text}
use go_commerce.Store.Models.{Db}
use go_commerce.Store.Tx.{Faults, transaction}
use go_commerce.Store.Rows.{Env}
use go_commerce.Orders.Create.{CreateItem, create_order}
use go_commerce.Orders.Change.{PayOutcome, cancel, cancel_system, pay, fulfill}
use go_commerce.Workers.Payload.{Message}
use go_commerce.Workers.Payment.{handle_order_created}
use go_commerce.Workers.Inventory.{handle_stock}

pub data Operation : Type 0 where
  creates : ℕ → List CreateItem → Operation
  cancels : ℕ → ℕ → Operation
  expires : ℕ → Operation
  pays : ℕ → ℕ → PayOutcome → Text → Operation
  fulfills : ℕ → Operation
  charges : Message → Operation
  restocks : Message → Operation

unfoldable pub perform : Env → Faults → Operation → Db → Db
perform env fs (creates user its) db = (transaction (create_order env user its) db fs).1
perform env fs (cancels user id) db = (transaction (cancel env user id) db fs).1
perform env fs (expires id) db = (transaction (cancel_system env id) db fs).1
perform env fs (pays user id outcome key) db = (transaction (pay env user id outcome key) db fs).1
perform env fs (fulfills id) db = (transaction (fulfill env id) db fs).1
perform env fs (charges msg) db = (handle_order_created env msg db fs).1
perform env fs (restocks msg) db = (handle_stock env msg db fs).1

pub data Reach (start : Db) : Db → Type 0 where
  here : Reach start start
  next :
      {db : Db}
      → Reach start db
      → (env : Env) (fs : Faults) (op : Operation) → Reach start (perform env fs op db)
