-- ===== src/Commerce/Histories.antt =====
-- Invariants of orders and payments over whole histories.
use go_commerce.Base.{ℕ, ◌+◌, ◌≤◌, ◌≡◌, refl, ◌⊎◌, inl, some, arith}
use go_commerce.Domain.Order.{paid, fulfilled}
use go_commerce.Domain.Graph.{here, life_bounded, paid_stays}
use go_commerce.Store.Table.{lookup}
use go_commerce.Store.Models.{OrderModel, Db}
use go_commerce.Store.Tx.{Faults}
use go_commerce.Store.Ensures.{Keeps-transaction}
use go_commerce.Store.Rows.{Env}
use go_commerce.Orders.Frame.{Ledgered}
use go_commerce.Orders.Rules.{Invariant, Rules}
use go_commerce.Orders.Moves.{cancel-Keeps, cancel_system-Keeps, fulfill-Keeps}
use go_commerce.Orders.Payments.{create_order-Keeps, pay-Keeps}
use go_commerce.Orders.Charged.{ChargedOnce, ChargedOnce-Rules}
use go_commerce.Orders.Evolution.{Evolved, Evolves-Rules}
use go_commerce.Workers.Invariants.{handle_order_created-Keeps, handle_stock-Keeps}
use go_commerce.Commerce.Steps.{
  Operation, creates, cancels, expires, pays, fulfills, charges, restocks, perform, Reach,
}

module _ {P : Invariant} (R : Rules P) where
  perform-Keeps :
      (env : Env) (fs : Faults) (op : Operation) (db : Db)
      → Ledgered P db
      → Ledgered P (perform env fs op db)
  unfolding perform
  perform-Keeps env fs (creates user its) db h =
      Keeps-transaction _ db fs (create_order-Keeps R env user its) h
  perform-Keeps env fs (cancels user id) db h =
      Keeps-transaction _ db fs (cancel-Keeps R env user id) h
  perform-Keeps env fs (expires id) db h =
      Keeps-transaction _ db fs (cancel_system-Keeps R env id) h
  perform-Keeps env fs (pays user id outcome key) db h =
      Keeps-transaction _ db fs (pay-Keeps R env user id outcome key) h
  perform-Keeps env fs (fulfills id) db h = Keeps-transaction _ db fs (fulfill-Keeps R env id) h
  perform-Keeps env fs (charges msg) db h = handle_order_created-Keeps R env msg db fs h
  perform-Keeps env fs (restocks msg) db h = handle_stock-Keeps R env msg db fs h

  pub history_keeps : {start db : Db} → Reach start db → Ledgered P start → Ledgered P db
  history_keeps Reach.here h = h
  history_keeps (Reach.next {db} r env fs op) h = perform-Keeps env fs op db (history_keeps r h)

-- From a database whose order ids are below the sequence and in which the succeeded payments of
-- each order measure what its total does if it is paid or fulfilled, and 0 otherwise, any history
-- of requests about orders, expiries and deliveries, whatever statements fail in it, leads to one where that
-- holds again. The measure `f` of amounts is any function: one that counts 1 shows that an order is
-- charged at most once, the identity that it is charged its total.
pub history_charges_once :
    (f : ℕ → ℕ) {start db : Db}
    → Reach start db
    → Ledgered (ChargedOnce f) start
    → Ledgered (ChargedOnce f) db
history_charges_once f r h = history_keeps (ChargedOnce-Rules f) r h

-- An order of the database that a history begins with is never removed. Whatever the history, its
-- status is reached along the edges of the state machine, its version has grown by the number of
-- edges taken, and its buyer, its total and its creation time are what they were.
pub history_follows_graph :
    {start db : Db} (id : ℕ) (first : OrderModel)
    → Reach start db
    → lookup id start.orders ≡ some first
    → Evolved first id db.orders
history_follows_graph id first r e = history_keeps (Evolves-Rules first id) r record {
  now = first;
  stored = e;
  buyer = refl;
  total = refl;
  created = refl;
  path = here;
  version = omega arith;
}

-- An order that is paid when a history begins is there and is paid or fulfilled when it ends: it
-- is not cancelled, failed or made payable again. Its version has grown by at most 3.
pub history_keeps_paid :
    {start db : Db} (id : ℕ) (first : OrderModel)
    → Reach start db
    → lookup id start.orders ≡ some first
    → first.status ≡ paid
    → (now : OrderModel) × (lookup id db.orders ≡ some now)
      × ((now.status ≡ paid) ⊎ (now.status ≡ fulfilled))
      × (now.version ≤ first.version + 3)
history_keeps_paid id first r e h =
    let v = history_follows_graph id first r e in
    (v.now, v.stored, paid_stays v.path (inl h), omega (arith, v.version, life_bounded v.path))
