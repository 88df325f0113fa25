-- ===== src/Commerce/Stock.antt =====
-- Conservation of stock over whole histories.
use go_commerce.Base.{ℕ}
use go_commerce.Store.Models.{Db}
use go_commerce.Store.Tx.{Faults}
use go_commerce.Store.Ensures.{Keeps-transaction}
use go_commerce.Store.Rows.{Env}
use go_commerce.Orders.Units.{Stocked}
use go_commerce.Orders.StockRules.{StockInvariant, On, StockRules}
use go_commerce.Orders.Balance.{Balanced, Balanced-StockRules}
use go_commerce.Orders.Stocking.{Stocked-StockRules}
use go_commerce.Orders.Conserve.{cancel-On, cancel_system-On, pay-On, fulfill-On}
use go_commerce.Workers.Conserve.{handle_order_created-On, handle_stock-On}
use go_commerce.Commerce.Steps.{
  Operation, creates, cancels, expires, pays, fulfills, charges, restocks, perform, Reach, here,
  next,
}

module _ {P : StockInvariant} (R : StockRules P) where
  perform-On :
      (env : Env) (fs : Faults) (op : Operation) (db : Db) → On P db → On P (perform env fs op db)
  unfolding perform
  perform-On env fs (creates user its) db h = Keeps-transaction _ db fs (R.creates env user its) h
  perform-On env fs (cancels user id) db h = Keeps-transaction _ db fs (cancel-On R env user id) h
  perform-On env fs (expires id) db h = Keeps-transaction _ db fs (cancel_system-On R env id) h
  perform-On env fs (pays user id outcome key) db h =
      Keeps-transaction _ db fs (pay-On R env user id outcome key) h
  perform-On env fs (fulfills id) db h = Keeps-transaction _ db fs (fulfill-On R env id) h
  perform-On env fs (charges msg) db h = handle_order_created-On R env msg db fs h
  perform-On env fs (restocks msg) db h = handle_stock-On R env msg db fs h

  pub history_keeps_stock : {start db : Db} → Reach start db → On P start → On P db
  history_keeps_stock here h = h
  history_keeps_stock (next {db} r env fs op) h = perform-On env fs op db (history_keeps_stock r h)

-- From a database whose reservation ids are unique, below the sequence, and name products, any
-- history of operations on orders (creations, cancellations, payments, fulfilments, expiries and
-- deliveries to the workers, but no writes to products by their sellers), whatever statements fail
-- in it, keeps that, keeps the product `p`, and leaves the sum of its stock and of its units in reservations that are not
-- released at the number `n` it began with.
pub history_conserves :
    (p n : ℕ) {start db : Db} → Reach start db → Stocked p n start → Stocked p n db
history_conserves p n r h = history_keeps_stock (Stocked-StockRules p n) r h

-- From a database with the product `p` whose stock is `base` plus the deltas of the ledger's
-- entries for `p`, any history of operations on orders (creations, cancellations, payments,
-- fulfilments, expiries and deliveries to the workers, but no writes to products by their sellers),
-- whatever statements fail in it, leads to one where that holds again: every unit that an order took
-- or gave back is entered. (The
-- deltas are added up as what they take and what they give.)
pub history_balances :
    (p base : ℕ) {start db : Db} → Reach start db → Balanced p base start → Balanced p base db
history_balances p base r h = history_keeps_stock (Balanced-StockRules p base) r h
