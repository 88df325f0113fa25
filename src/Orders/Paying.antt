-- ===== src/Orders/Paying.antt =====
-- internal/http/order/repository.go: a payment of the API process that succeeds.
use go_commerce.Base.{
  ℕ, ◌≡◌, refl, ap, ◌∙◌, false, ◌||◌, none, some, List, [], ◌∷◌, ◌++◌, where_rows, ==_refl,
}
use go_commerce.Base.Text.{Text}
use go_commerce.Domain.Errors.{ok}
use go_commerce.Domain.Order.{
  OrderStatus, pending_payment, paid, payment_failed, cancelled, fulfilled, succeeded, order_paid,
  transition, is_status,
}
use go_commerce.Store.Table.{lookup, adjust, lookup-adjust}
use go_commerce.Store.Models.{OrderModel, PaymentModel, ReservationModel, Entry, sim_ok, Db}
use go_commerce.Store.Tx.{Tx, pure, done, lift, query, exec, statement, transaction}
use go_commerce.Store.Rows.{Env, append_entry, enqueue, new_event}
use go_commerce.Orders.Stock.{held_for, mark_committed, commit_entries, commit_reservations}
use go_commerce.Orders.Create.{order_payload}
use go_commerce.Orders.Change.{
  success, moved, load_owned, save_order, find_payment, new_payment, insert_payment, with_payment,
  settle_payment, pay_success, charge, pay_loaded, pay,
}
use go_commerce.Orders.Returns.{bind-done, lift-done, load_owned-returns, transaction-runs}

commit_entries-run :
    (now order : ℕ) (rows : List ReservationModel) (db : Db)
    → (l : List Entry) × (commit_entries now order rows db []
        ≡ done tt (record db { ledger = l }) [])
unfolding commit_entries append_entry exec statement
commit_entries-run now order [] db = (db.ledger, refl)
commit_entries-run now order (r ∷ rows) db = commit_entries-run now order rows _

abbrev pub committed_db : ℕ → ℕ → List Entry → Db → Db
unfolding mark_committed
committed_db now order l db = record db {
  ledger = l;
  reservations = mark_committed now order db.reservations;
}

pub commit_reservations-run :
    (now order : ℕ) (db : Db)
    → (l : List Entry) × (commit_reservations now order db []
        ≡ done tt (committed_db now order l db) [])
unfolding commit_reservations query exec statement
commit_reservations-run now order db =
    let rows = where_rows (held_for order) db.reservations in
    let entries = commit_entries-run now order rows db in
    (entries.0, bind-done (commit_entries now order rows) _ entries.1 refl)

pub insert_payment-run :
    (pay : PaymentModel) (db : Db)
    → find_payment pay.order_id pay.idempotency_key db ≡ none
    → insert_payment pay db [] ≡ done tt (with_payment pay db) []
unfolding insert_payment statement
insert_payment-run pay db h = rw h refl

-- The database `d` is `db` after the payment of the order `id` under the key.
pub record Paid (env : Env) (id : ℕ) (o : OrderModel) (key : Text) (db d : Db) : Type 0 where
  pub order : lookup id d.orders ≡ some (moved env.now paid o)
  pub payment_made : d.payments ≡ db.payments ++ new_payment env.now id o key succeeded sim_ok ∷ []
  pub stock_committed : d.reservations ≡ mark_committed env.now id db.reservations
  pub products : d.products ≡ db.products
  pub announced :
      d.outbox
      ≡ db.outbox
        ++ new_event env id order_paid
            (order_payload id (moved env.now paid o) (some o.total))
            db.outbox
          ∷ []

payable-open :
    (s : OrderStatus)
    → transition s paid ≡ ok paid
    → (is_status s paid || is_status s fulfilled) ≡ false
unfolding transition is_status
payable-open pending_payment h = refl
payable-open payment_failed h = refl
payable-open paid h = absurd (cc)
payable-open cancelled h = absurd (cc)
payable-open fulfilled h = absurd (cc)

module _ (env : Env) (id : ℕ) (o : OrderModel) (key : Text) (db : Db) where
  abbrev pub payment_of : PaymentModel
  payment_of = new_payment env.now id o key succeeded sim_ok

  abbrev written_db : Db
  written_db = record db {
    payments = db.payments ++ payment_of ∷ [];
    orders = adjust id (λ _. moved env.now paid o) db.orders;
  }

  abbrev paid_db : List Entry → Db
  unfolding mark_committed
  paid_db l = record (committed_db env.now id l written_db) {
    outbox =
        db.outbox
        ++ new_event env id order_paid (order_payload id (moved env.now paid o) (some o.total))
            db.outbox
          ∷ [];
  }

  abbrev settling : Tx (Unit {0})
  unfolding settle_payment save_order
  settling =
      settle_payment env id payment_of (save_order id (moved env.now paid o))
        (commit_reservations env.now id) order_paid
        (order_payload id (moved env.now paid o) (some o.total))

  settling-run :
      find_payment id key db ≡ none → (l : List Entry) × (settling db [] ≡ done tt (paid_db l) [])
  unfolding settle_payment insert_payment save_order enqueue exec statement paid_db
  settling-run fresh =
      let stock = commit_reservations-run env.now id written_db in
      (
        stock.0,
        bind-done (insert_payment payment_of) _ (insert_payment-run payment_of db fresh)
            (bind-done (commit_reservations env.now id) _ stock.1 refl),
      )

  pay_success-run :
      transition o.status paid ≡ ok paid
      → find_payment id key db ≡ none
      → (l : List Entry) × (pay_success env id o key db []
          ≡ done (moved env.now paid o, some payment_of) (paid_db l) [])
  unfolding pay_success settle_payment save_order
  pay_success-run may fresh =
      let settled = settling-run fresh in
      (
        settled.0,
        bind-done (lift (transition o.status paid)) _
            (lift-done (transition o.status paid) paid db may)
            (bind-done settling (λ _. pure (moved env.now paid o, some payment_of)) settled.1 refl),
      )

  pay-run :
      (user : ℕ)
      → lookup id db.orders ≡ some o
      → o.user_id ≡ user
      → transition o.status paid ≡ ok paid
      → find_payment id key db ≡ none
      → pay env user id success key db [] ≡ pay_success env id o key db []
  unfolding pay pay_loaded charge query statement
  pay-run user exists owned may fresh =
      bind-done (load_owned user id) _ (load_owned-returns user id o db exists owned) (
        ap (λ p. pay_loaded env id o success key p db []) fresh
        ∙ rw (payable-open o.status may) refl)

  paid_db-Paid : (l : List Entry) → lookup id db.orders ≡ some o → Paid env id o key db (paid_db l)
  unfolding mark_committed paid_db
  paid_db-Paid l exists = record {
    order = lookup-adjust id id _ db.orders ∙ rw (==_refl id, exists) refl;
    payment_made = refl;
    stock_committed = refl;
    products = refl;
    announced = refl;
  }

-- When no statement fails, the payment with the outcome "success" of a buyer's order whose status may
-- become paid, under a key that the order has no payment of, succeeds: it answers the order, paid and
-- in its next version, and the new payment. The order is stored like that, its total is recorded as a
-- succeeded payment, its held reservations are committed while the stock stays, and the payment is
-- announced in the outbox.
pub payment_settles :
    (env : Env) (user id : ℕ) (o : OrderModel) (key : Text) (db : Db)
    → lookup id db.orders ≡ some o
    → o.user_id ≡ user
    → transition o.status paid ≡ ok paid
    → find_payment id key db ≡ none
    → (d : Db) × (transaction (pay env user id success key) db []
        ≡ (ok (moved env.now paid o, some (payment_of env id o key db)), d, []))
      × Paid env id o key db d
payment_settles env user id o key db exists owned may fresh =
    let run = pay_success-run env id o key db may fresh in
    (
      paid_db env id o key db run.0,
      transaction-runs (moved env.now paid o, some (payment_of env id o key db))
          (paid_db env id o key db run.0) db (pay env user id success key)
          (pay-run env id o key db user exists owned may fresh ∙ run.1),
      paid_db-Paid env id o key db run.0 exists,
    )
