-- ===== src/Workers/Conserve.antt =====
-- The payment and inventory workers keep an invariant of the stock that obeys the rules.
use go_commerce.Base.{ℕ, true, false, Bool, inl, inr, Bool-cases, Option, none, some}
use go_commerce.Base.Text.{Text}
use go_commerce.Domain.Errors.{Result, ok, err}
use go_commerce.Domain.Order.{
  OrderStatus, EventType, order_paid, order_payment_failed, order_cancelled, order_fulfilled, paid,
  payment_failed, transition,
}
use go_commerce.Store.Models.{OrderModel, PaymentModel, Consumer, Payload, Db}
use go_commerce.Store.Tx.{Tx, Faults}
use go_commerce.Store.Ensures.{
  Ensures-always, Keeps, Keeps-pure, Keeps-query, Keeps-if, Keeps-bind, Keeps-exec,
  Keeps-transaction, keeps_rules,
}
use go_commerce.Store.Rows.{Env, already_processed, claimed_db, try_claim, claim}
use go_commerce.Orders.Stock.{release_reservations, commit_reservations}
use go_commerce.Orders.Change.{settle_payment}
use go_commerce.Orders.StockRules.{StockInvariant, On, StockRules}
use go_commerce.Orders.Conserve.{settle_payment-On}
use go_commerce.Workers.Payload.{Message, order_id_of, for_order}
use go_commerce.Workers.Payment.{
  update_status, charge_fail, charge_success, charge_order, charge_unless_paid, charge_found,
  charge_claimed, charge_event, handle_order_created, simulates_failure, is_done, attempt_key,
}
use go_commerce.Workers.Inventory.{
  commit_tx, release_tx, apply_event, apply_claimed, stock_event, moves_stock, handle_stock,
}

module _ {P : StockInvariant} (R : StockRules P) where
  try_claim-On :
      (now : ℕ) (c : Consumer) (id : Text) (t : EventType) (db : Db)
      → On P db
      → On P (try_claim now c id t db).1
  unfolding claimed_db
  try_claim-On now c id t db h = elim (Bool-cases (already_processed c id db)) [
    | inl e ↦ rw e h
    | inr e ↦ rw e h
  ]

  claim-On : (now : ℕ) (c : Consumer) (id : Text) (t : EventType) → Keeps (On P) (claim now c id t)
  unfolding claim
  claim-On now c id t = record { at = λ db h. Ensures-always _ (try_claim-On now c id t db h) }

  update_status-On :
      (now id : ℕ) (next : OrderStatus) (v : ℕ) → Keeps (On P) (update_status now id next v)
  unfolding update_status
  update_status-On now id next v = Keeps-exec _ (λ db h. h)

  settle-On :
      {A : Type 0} (env : Env) (id : ℕ) (pay : PaymentModel) (write : Tx (Unit {0})) (stock : Tx A)
      (t : EventType) (pl : Payload)
      → Keeps (On P) write
      → Keeps (On P) stock
      → Keeps (On P) (settle_payment env id pay write stock t pl)
  settle-On env id pay write stock t pl hw hs =
      settle_payment-On R env id pay write stock t pl hw hs

  release-On : (now order : ℕ) → Keeps (On P) (release_reservations now order)
  release-On now order = R.releases now order

  commit-On : (now order : ℕ) → Keeps (On P) (commit_reservations now order)
  commit-On now order = R.commits now order

  ruleset worker_rules = (keeps_rules, claim-On, update_status-On, settle-On, release-On, commit-On)

  charge_fail-On :
      (env : Env) (id : ℕ) (o : OrderModel) (key : Text) (r : Result OrderStatus)
      → Keeps (On P) (charge_fail env id o key r)
  unfolding charge_fail
  charge_fail-On env id o key (err e) = Keeps-pure tt
  charge_fail-On env id o key (ok next) = search worker_rules

  charge_success-On :
      (env : Env) (id : ℕ) (o : OrderModel) (key : Text) (r : Result OrderStatus)
      → Keeps (On P) (charge_success env id o key r)
  unfolding charge_success
  charge_success-On env id o key (err e) = Keeps-pure tt
  charge_success-On env id o key (ok next) = search worker_rules

  charge_order-On :
      (env : Env) (id : ℕ) (msg : Message) (o : OrderModel)
      → Keeps (On P) (charge_order env id msg o)
  unfolding charge_order
  charge_order-On env id msg o = Keeps-if (is_done o.status) _ _ (Keeps-pure tt) (
      Keeps-if (simulates_failure msg.payload.simulate_outcome) _ _
        (charge_fail-On env id o (attempt_key msg.event_id) (transition o.status payment_failed))
        (charge_success-On env id o (attempt_key msg.event_id) (transition o.status paid)))

  charge_unless_paid-On :
      (env : Env) (id : ℕ) (msg : Message) (o : OrderModel) (e : Option PaymentModel)
      → Keeps (On P) (charge_unless_paid env id msg o e)
  unfolding charge_unless_paid
  charge_unless_paid-On env id msg o (some e) = Keeps-pure tt
  charge_unless_paid-On env id msg o none = charge_order-On env id msg o

  charge_found-On :
      (env : Env) (id : ℕ) (msg : Message) (o : Option OrderModel)
      → Keeps (On P) (charge_found env id msg o)
  unfolding charge_found
  charge_found-On env id msg none = Keeps-pure tt
  charge_found-On env id msg (some o) =
      Keeps-bind _ _ (Keeps-query _) (charge_unless_paid-On env id msg o)

  charge_claimed-On :
      (env : Env) (id : ℕ) (msg : Message) (b : Bool) → Keeps (On P) (charge_claimed env id msg b)
  unfolding charge_claimed
  charge_claimed-On env id msg false = Keeps-pure tt
  charge_claimed-On env id msg true = Keeps-bind _ _ (Keeps-query _) (charge_found-On env id msg)

  pub charge_event-On :
      (env : Env) (id : ℕ) (msg : Message) → Keeps (On P) (charge_event env id msg)
  unfolding charge_event
  charge_event-On env id msg = Keeps-bind _ _ (claim-On _ _ _ _) (charge_claimed-On env id msg)

  commit_tx-On : (now id : ℕ) → Keeps (On P) (commit_tx now id)
  unfolding commit_tx
  commit_tx-On now id = R.commits now id

  release_tx-On : (now id : ℕ) → Keeps (On P) (release_tx now id)
  unfolding release_tx
  release_tx-On now id = R.releases now id

  apply_event-On : (env : Env) (id : ℕ) (t : EventType) → Keeps (On P) (apply_event env id t)
  unfolding apply_event
  apply_event-On env id order_cancelled = release_tx-On _ _
  apply_event-On env id order_payment_failed = release_tx-On _ _
  apply_event-On env id order_paid = Keeps-bind _ _ (commit_tx-On _ _) (λ _. Keeps-pure _)
  apply_event-On env id order_fulfilled = Keeps-bind _ _ (commit_tx-On _ _) (λ _. Keeps-pure _)
  apply_event-On env id _ = Keeps-pure _

  apply_claimed-On :
      (env : Env) (id : ℕ) (t : EventType) (b : Bool) → Keeps (On P) (apply_claimed env id t b)
  unfolding apply_claimed
  apply_claimed-On env id t false = Keeps-pure _
  apply_claimed-On env id t true = apply_event-On env id t

  pub stock_event-On : (env : Env) (id : ℕ) (msg : Message) → Keeps (On P) (stock_event env id msg)
  unfolding stock_event
  stock_event-On env id msg =
      Keeps-bind _ _ (claim-On _ _ _ _) (apply_claimed-On env id msg.event_type)

  for_order-On :
      {A : Type 0} (o : Option ℕ) (f : ℕ → Tx A) (db : Db) (fs : Faults)
      → ((id : ℕ) → Keeps (On P) (f id))
      → On P db
      → On P (for_order o f db fs).1
  for_order-On none f db fs k h = h
  for_order-On (some id) f db fs k h = Keeps-transaction (f id) db fs (k id) h

  pub handle_order_created-On :
      (env : Env) (msg : Message) (db : Db) (fs : Faults)
      → On P db
      → On P (handle_order_created env msg db fs).1
  unfolding handle_order_created
  handle_order_created-On env msg db fs h =
      for_order-On (order_id_of msg) _ db fs (λ id. charge_event-On env id msg) h

  pub handle_stock-On :
      (env : Env) (msg : Message) (db : Db) (fs : Faults)
      → On P db
      → On P (handle_stock env msg db fs).1
  unfolding handle_stock
  handle_stock-On env msg db fs h = elim (Bool-cases (moves_stock msg.event_type)) [
    | inl e ↦ rw e (for_order-On (order_id_of msg) _ db fs (λ id. stock_event-On env id msg) h)
    | inr e ↦ rw e h
  ]
