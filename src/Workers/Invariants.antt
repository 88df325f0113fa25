-- ===== src/Workers/Invariants.antt =====
-- The workers keep every invariant of orders and payments that obeys the rules, whatever messages
-- are delivered to them.
use go_commerce.Base.{ℕ, ◌≡◌, refl, true, false, Bool, Option, none, some, inl, inr, Bool-cases}
use go_commerce.Base.Text.{Text}
use go_commerce.Domain.Errors.{Result, ok, err}
use go_commerce.Domain.Order.{
  OrderStatus, EventType, order_paid, order_payment_failed, order_cancelled, order_fulfilled, paid,
  payment_failed, succeeded, failed, transition,
}
use go_commerce.Store.Table.{lookup}
use go_commerce.Store.Models.{
  OrderModel, PaymentModel, Consumer, worker_sim_ok, worker_sim_fail, Db,
}
use go_commerce.Store.Tx.{Tx, Faults}
use go_commerce.Store.Ensures.{
  Ensures, Ensures-pure, Ensures-read, Ensures-if, Keeps, Keeps-pure, Keeps-bind, Keeps-always,
  Keeps-transaction,
}
use go_commerce.Store.Rows.{Env, already_processed, claimed_db, try_claim, claim}
use go_commerce.Orders.Change.{new_payment}
use go_commerce.Orders.Frame.{Ledgered, release_reservations-Ledgered, commit_reservations-Ledgered}
use go_commerce.Orders.Rules.{Invariant, Rules}
use go_commerce.Orders.Moves.{settle_payment-Keeps}
use go_commerce.Workers.Payload.{Message, order_id_of, for_order}
use go_commerce.Workers.Payment.{
  update_status, release_held, commit_held, charge_fail, charge_success, charge_order,
  charge_unless_paid, charge_found, charge_claimed, charge_event, handle_order_created,
  simulates_failure, is_done, attempt_key,
}
use go_commerce.Workers.Inventory.{
  commit_tx, release_tx, apply_event, apply_claimed, stock_event, moves_stock, handle_stock,
}

module _ {P : Invariant} (R : Rules P) where
  try_claim-Keeps :
      (now : ℕ) (c : Consumer) (id : Text) (t : EventType) (db : Db)
      → Ledgered P db
      → Ledgered P (try_claim now c id t db).1
  unfolding claimed_db
  try_claim-Keeps now c id t db h = elim (Bool-cases (already_processed c id db)) [
    | inl e ↦ rw e h
    | inr e ↦ rw e h
  ]

  claim-Keeps :
      (now : ℕ) (c : Consumer) (id : Text) (t : EventType) → Keeps (Ledgered P) (claim now c id t)
  unfolding claim
  claim-Keeps now c id t = Keeps-always _ (try_claim-Keeps now c id t)

  charge_fail-Keeps :
      (env : Env) (id : ℕ) (o : OrderModel) (key : Text) (r : Result OrderStatus) (db : Db)
      → transition o.status payment_failed ≡ r
      → lookup id db.orders ≡ some o
      → Ledgered P db
      → Ensures db (charge_fail env id o key r) (λ _ d. Ledgered P d)
  unfolding charge_fail update_status release_held
  charge_fail-Keeps env id o key (err x) db t e h = Ensures-pure tt h
  charge_fail-Keeps env id o key (ok next) db t e h =
      settle_payment-Keeps R env id (new_payment env.now id o key failed worker_sim_fail) _ _
        order_payment_failed _ db
        (R.fails db.orders db.order_serial db.payments id _ o
          (new_payment env.now id o key failed worker_sim_fail)
          (record { now = env.now; next = next; loaded = e; legal = t; effect = refl }) refl refl h)
        (release_reservations-Ledgered P env.now id)

  charge_success-Keeps :
      (env : Env) (id : ℕ) (o : OrderModel) (key : Text) (r : Result OrderStatus) (db : Db)
      → transition o.status paid ≡ r
      → lookup id db.orders ≡ some o
      → Ledgered P db
      → Ensures db (charge_success env id o key r) (λ _ d. Ledgered P d)
  unfolding charge_success update_status commit_held
  charge_success-Keeps env id o key (err x) db t e h = Ensures-pure tt h
  charge_success-Keeps env id o key (ok next) db t e h =
      settle_payment-Keeps R env id (new_payment env.now id o key succeeded worker_sim_ok) _ _
        order_paid _ db
        (R.pays db.orders db.order_serial db.payments id _ o
          (new_payment env.now id o key succeeded worker_sim_ok)
          (record { now = env.now; next = next; loaded = e; legal = t; effect = refl }) refl refl
          refl h)
        (commit_reservations-Ledgered P env.now id)

  charge_order-Keeps :
      (env : Env) (id : ℕ) (msg : Message) (o : OrderModel) (db : Db)
      → lookup id db.orders ≡ some o
      → Ledgered P db
      → Ensures db (charge_order env id msg o) (λ _ d. Ledgered P d)
  unfolding charge_order
  charge_order-Keeps env id msg o db e h =
      let key = attempt_key msg.event_id in
      Ensures-if (is_done o.status) _ _ (λ _. Ensures-pure tt h)
        λ _.
          Ensures-if (simulates_failure msg.payload.simulate_outcome) _ _
            (λ _. charge_fail-Keeps env id o key (transition o.status payment_failed) db refl e h)
            (λ _. charge_success-Keeps env id o key (transition o.status paid) db refl e h)

  charge_unless_paid-Keeps :
      (env : Env) (id : ℕ) (msg : Message) (o : OrderModel) (p : Option PaymentModel) (db : Db)
      → lookup id db.orders ≡ some o
      → Ledgered P db
      → Ensures db (charge_unless_paid env id msg o p) (λ _ d. Ledgered P d)
  unfolding charge_unless_paid
  charge_unless_paid-Keeps env id msg o (some p) db e h = Ensures-pure tt h
  charge_unless_paid-Keeps env id msg o none db e h = charge_order-Keeps env id msg o db e h

  charge_found-Keeps :
      (env : Env) (id : ℕ) (msg : Message) (row : Option OrderModel) (db : Db)
      → lookup id db.orders ≡ row
      → Ledgered P db
      → Ensures db (charge_found env id msg row) (λ _ d. Ledgered P d)
  unfolding charge_found
  charge_found-Keeps env id msg none db e h = Ensures-pure tt h
  charge_found-Keeps env id msg (some o) db e h =
      Ensures-read _ _ (charge_unless_paid-Keeps env id msg o _ db e h)

  charge_claimed-Keeps :
      (env : Env) (id : ℕ) (msg : Message) (b : Bool)
      → Keeps (Ledgered P) (charge_claimed env id msg b)
  unfolding charge_claimed
  charge_claimed-Keeps env id msg false = Keeps-pure tt
  charge_claimed-Keeps env id msg true = record {
    at = λ db h. Ensures-read _ _ (charge_found-Keeps env id msg (lookup id db.orders) db refl h);
  }

  charge_event-Keeps :
      (env : Env) (id : ℕ) (msg : Message) → Keeps (Ledgered P) (charge_event env id msg)
  unfolding charge_event
  charge_event-Keeps env id msg =
      Keeps-bind _ _ (claim-Keeps _ _ _ _) (charge_claimed-Keeps env id msg)

  apply_event-Keeps :
      (env : Env) (id : ℕ) (t : EventType) → Keeps (Ledgered P) (apply_event env id t)
  unfolding apply_event commit_tx release_tx
  apply_event-Keeps env id order_cancelled = release_reservations-Ledgered P _ _
  apply_event-Keeps env id order_payment_failed = release_reservations-Ledgered P _ _
  apply_event-Keeps env id order_paid =
      Keeps-bind _ _ (commit_reservations-Ledgered P _ _) (λ _. Keeps-pure _)
  apply_event-Keeps env id order_fulfilled =
      Keeps-bind _ _ (commit_reservations-Ledgered P _ _) (λ _. Keeps-pure _)
  apply_event-Keeps env id _ = Keeps-pure _

  apply_claimed-Keeps :
      (env : Env) (id : ℕ) (t : EventType) (b : Bool)
      → Keeps (Ledgered P) (apply_claimed env id t b)
  unfolding apply_claimed
  apply_claimed-Keeps env id t false = Keeps-pure _
  apply_claimed-Keeps env id t true = apply_event-Keeps env id t

  stock_event-Keeps :
      (env : Env) (id : ℕ) (msg : Message) → Keeps (Ledgered P) (stock_event env id msg)
  unfolding stock_event
  stock_event-Keeps env id msg =
      Keeps-bind _ _ (claim-Keeps _ _ _ _) (apply_claimed-Keeps env id msg.event_type)

  for_order-Keeps :
      {A : Type 0} (o : Option ℕ) (m : ℕ → Tx A) (db : Db) (fs : Faults)
      → ((id : ℕ) → Keeps (Ledgered P) (m id))
      → Ledgered P db
      → Ledgered P (for_order o m db fs).1
  for_order-Keeps none m db fs k h = h
  for_order-Keeps (some id) m db fs k h = Keeps-transaction (m id) db fs (k id) h

  pub handle_order_created-Keeps :
      (env : Env) (msg : Message) (db : Db) (fs : Faults)
      → Ledgered P db
      → Ledgered P (handle_order_created env msg db fs).1
  unfolding handle_order_created
  handle_order_created-Keeps env msg db fs h =
      for_order-Keeps (order_id_of msg) _ db fs (λ id. charge_event-Keeps env id msg) h

  pub handle_stock-Keeps :
      (env : Env) (msg : Message) (db : Db) (fs : Faults)
      → Ledgered P db
      → Ledgered P (handle_stock env msg db fs).1
  unfolding handle_stock
  handle_stock-Keeps env msg db fs h = elim (Bool-cases (moves_stock msg.event_type)) [
    | inl e ↦
        rw e (for_order-Keeps (order_id_of msg) _ db fs (λ id. stock_event-Keeps env id msg) h)
    | inr e ↦ rw e h
  ]
