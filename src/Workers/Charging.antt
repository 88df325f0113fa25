-- ===== src/Workers/Charging.antt =====
-- The payment worker charges an order whose event it is given.
use go_commerce.Base.{
  ℕ, ◌≡◌, refl, ap, ◌∙◌, true, false, ◌+◌, none, some, List, [], ◌∷◌, ◌++◌, ==_refl,
}
use go_commerce.Base.Text.{Text, text_eq_refl}
use go_commerce.Domain.Errors.{ok}
use go_commerce.Domain.Order.{
  OrderStatus, pending_payment, paid, succeeded, order_created, order_paid, EventType, transition,
  is_status,
}
use go_commerce.Store.Table.{lookup, adjust, lookup-adjust}
use go_commerce.Store.Models.{
  OrderModel, PaymentModel, Entry, payment, worker_sim_ok, AnyValue, nil, Db,
}
use go_commerce.Store.Tx.{done, query, exec, statement}
use go_commerce.Store.Rows.{Env, already_processed, claims, claimed_db, claim, enqueue, new_event}
use go_commerce.Orders.Stock.{mark_committed, commit_reservations}
use go_commerce.Orders.Create.{order_payload}
use go_commerce.Orders.Change.{moved, find_payment, new_payment, insert_payment, settle_payment}
use go_commerce.Orders.Returns.{bind-done, transaction-runs}
use go_commerce.Orders.Paying.{committed_db, commit_reservations-run, insert_payment-run}
use go_commerce.Workers.Payload.{Message, for_order}
use go_commerce.Workers.Recorded.{is_some-append}
use go_commerce.Workers.Payment.{
  attempt_key, update_status, commit_held, simulates_failure, charge_success, is_done, charge_order,
  charge_unless_paid, charge_found, charge_claimed, charge_event, handle_order_created,
}
use go_commerce.Relay.Wire.{IsAbout}

-- The database `d` is `db` after the charge of the order `id` on the message.
pub record Charged (env : Env) (id : ℕ) (o : OrderModel) (m : Message) (db d : Db) : Type 0 where
  pub order : lookup id d.orders ≡ some (moved env.now paid o)
  pub payment_made :
      d.payments
      ≡ db.payments
        ++ new_payment env.now id o (attempt_key m.event_id) succeeded worker_sim_ok ∷ []
  pub stock_committed : d.reservations ≡ mark_committed env.now id db.reservations
  pub products : d.products ≡ db.products
  pub announced :
      d.outbox
      ≡ db.outbox
        ++ new_event env id order_paid
            (order_payload id (moved env.now paid o) (some o.total))
            db.outbox
          ∷ []
  pub handled : already_processed payment m.event_id d ≡ true

claim-run :
    (now : ℕ) (id : Text) (type : EventType) (db : Db)
    → already_processed payment id db ≡ false
    → claim now payment id type db [] ≡ done true (claimed_db now payment id type db) []
unfolding claim statement
claim-run now id type db h = rw h refl

not_done : (s : OrderStatus) → s ≡ pending_payment → is_done s ≡ false
unfolding is_done is_status
not_done s h = rw h refl

may_pay : (s : OrderStatus) → s ≡ pending_payment → transition s paid ≡ ok paid
unfolding transition
may_pay s h = rw h refl

not_simulated : (v : AnyValue) → v ≡ nil → simulates_failure v ≡ false
unfolding simulates_failure
not_simulated v h = rw h refl

module _ (env : Env) (id : ℕ) (o : OrderModel) (m : Message) (db : Db) where
  abbrev claimed : Db
  unfolding claimed_db
  claimed = claimed_db env.now payment m.event_id m.event_type db

  abbrev payment_of : PaymentModel
  payment_of = new_payment env.now id o (attempt_key m.event_id) succeeded worker_sim_ok

  abbrev paid_db : List Entry → Db
  unfolding claimed_db mark_committed
  paid_db l = record (committed_db env.now id l claimed) {
    payments = db.payments ++ payment_of ∷ [];
    orders =
        adjust id (λ x. record x { status = paid; version = o.version + 1; updated_at = env.now })
          db.orders;
    outbox =
        db.outbox
        ++ new_event env id order_paid (order_payload id (moved env.now paid o) (some o.total))
            db.outbox
          ∷ [];
  }

  charge_success-run :
      find_payment id (attempt_key m.event_id) db ≡ none
      → (l : List Entry) × (charge_success env id o (attempt_key m.event_id) (ok paid) claimed []
          ≡ done tt (paid_db l) [])
  unfolding charge_success settle_payment insert_payment update_status commit_held enqueue exec
      statement find_payment claimed_db
  charge_success-run fresh =
      let stock = commit_reservations-run env.now id (record claimed {
        payments = db.payments ++ payment_of ∷ [];
        orders =
            adjust id
              (λ x. record x { status = paid; version = o.version + 1; updated_at = env.now })
              db.orders;
      }) in
      (
        stock.0,
        bind-done (insert_payment payment_of) _ (insert_payment-run payment_of claimed fresh)
            (bind-done (commit_reservations env.now id) _ stock.1 refl),
      )

  found-run :
      lookup id db.orders ≡ some o
      → find_payment id (attempt_key m.event_id) db ≡ none
      → charge_claimed env id m true claimed [] ≡ charge_order env id m o claimed []
  unfolding charge_claimed charge_found charge_unless_paid query statement find_payment claimed_db
  found-run exists fresh =
      ap (λ r. charge_found env id m r claimed []) exists
      ∙ ap (λ p. charge_unless_paid env id m o p claimed []) fresh

  order-run :
      o.status ≡ pending_payment
      → m.payload.simulate_outcome ≡ nil
      → charge_order env id m o claimed []
        ≡ charge_success env id o (attempt_key m.event_id) (ok paid) claimed []
  unfolding charge_order
  order-run pending real =
      let open_order : is_done o.status ≡ false = not_done o.status pending in
      let real_charge : simulates_failure m.payload.simulate_outcome ≡ false =
        not_simulated m.payload.simulate_outcome real in
      let step : transition o.status paid ≡ ok paid = may_pay o.status pending in
      rw (open_order, real_charge, step) refl

  charge_event-run :
      already_processed payment m.event_id db ≡ false
      → lookup id db.orders ≡ some o
      → o.status ≡ pending_payment
      → find_payment id (attempt_key m.event_id) db ≡ none
      → m.payload.simulate_outcome ≡ nil
      → (l : List Entry) × (charge_event env id m db [] ≡ done tt (paid_db l) [])
  unfolding charge_event
  charge_event-run new exists pending fresh real =
      let settled = charge_success-run fresh in
      (
        settled.0,
        bind-done (claim env.now payment m.event_id m.event_type) (charge_claimed env id m)
            (claim-run env.now m.event_id m.event_type db new)
            (found-run exists fresh ∙ order-run pending real ∙ settled.1),
      )

  paid_db-Charged :
      (l : List Entry) → lookup id db.orders ≡ some o → Charged env id o m db (paid_db l)
  unfolding already_processed claims claimed_db mark_committed paid_db
  paid_db-Charged l exists = record {
    order = lookup-adjust id id _ db.orders ∙ rw (==_refl id, exists) refl;
    payment_made = refl;
    stock_committed = refl;
    products = refl;
    announced = refl;
    handled =
        is_some-append (claims payment m.event_id) db.inbox
          record {
            event_id = m.event_id;
            consumer = payment;
            event_type = m.event_type;
            processed_at = env.now;
          }
          (rw (text_eq_refl m.event_id) refl);
  }

-- When no statement fails, a message about the created order `id` that the payment worker has not
-- handled, of an order that waits for its payment and has no payment of the message's key, is
-- handled with success: the order is paid in its next version, its total is recorded as a succeeded
-- payment, its held reservations are committed while the stock stays, the payment is announced in
-- the outbox, and the message counts as handled.
pub created_order_pays :
    (env before : Env) (id : ℕ) (o : OrderModel) (m : Message) (db : Db)
    → IsAbout before id order_created m
    → already_processed payment m.event_id db ≡ false
    → lookup id db.orders ≡ some o
    → o.status ≡ pending_payment
    → find_payment id (attempt_key m.event_id) db ≡ none
    → (d : Db) × (handle_order_created env m db [] ≡ (ok tt, d, [])) × Charged env id o m db d
unfolding handle_order_created
created_order_pays env before id o m db about new exists pending fresh =
    let run = charge_event-run env id o m db new exists pending fresh about.simulate_outcome in
    (
      paid_db env id o m db run.0,
      ap (λ n. for_order n (λ i. charge_event env i m) db []) about.order_id
          ∙ transaction-runs tt (paid_db env id o m db run.0) db (charge_event env id m) run.1,
      paid_db-Charged env id o m db run.0 exists,
    )
