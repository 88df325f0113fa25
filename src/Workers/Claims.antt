-- ===== src/Workers/Claims.antt =====
-- No statement of a handler but its claim touches the inbox.
use go_commerce.Base.{ℕ, Bool, true, false, Option, none, some, List, [], ◌∷◌}
use go_commerce.Base.Int.{ℤ}
use go_commerce.Base.Text.{Text}
use go_commerce.Domain.Errors.{Result, ok, err}
use go_commerce.Domain.Order.{
  OrderStatus, EventType, order_paid, order_payment_failed, order_cancelled, order_fulfilled, paid,
  payment_failed, transition,
}
use go_commerce.Store.Models.{
  OrderModel, PaymentModel, ReservationModel, Payload, Reason, InboxRow, Db,
}
use go_commerce.Store.Tx.{Tx}
use go_commerce.Store.Ensures.{
  Keeps, Keeps-pure, Keeps-query, Keeps-if, Keeps-bind, Keeps-exec, Keeps-insert,
}
use go_commerce.Store.Rows.{Env, append_entry, enqueue}
use go_commerce.Orders.Stock.{
  restock, release_row, release_rows, release_reservations, commit_entries, commit_reservations,
}
use go_commerce.Orders.Change.{insert_payment, settle_payment}
use go_commerce.Workers.Payload.{Message}
use go_commerce.Workers.Payment.{
  update_status, release_held, commit_held, charge_fail, charge_success, charge_order,
  charge_unless_paid, charge_found, charge_claimed, simulates_failure, is_done, attempt_key,
}
use go_commerce.Workers.Inventory.{commit_tx, release_tx, apply_event, apply_claimed}

module _ (P : List InboxRow → Type 0) where
  abbrev pub Inboxed : Db → Type 0
  Inboxed db = P db.inbox

  append_entry-Inboxed :
      (now product : ℕ) (order : Option ℕ) (delta : ℤ) (reason : Reason) (bal : Option ℕ)
      → Keeps Inboxed (append_entry now product order delta reason bal)
  unfolding append_entry
  append_entry-Inboxed now product order delta reason bal = Keeps-exec _ (λ db h. h)

  release_row-Inboxed :
      (now order : ℕ) (r : ReservationModel) → Keeps Inboxed (release_row now order r)
  unfolding release_row restock
  release_row-Inboxed now order r = Keeps-bind _ _ (Keeps-exec _ (λ db h. h)) λ _.
      Keeps-bind _ _ (Keeps-query _)
        λ bal. Keeps-bind _ _ (append_entry-Inboxed _ _ _ _ _ _) (λ _. Keeps-exec _ (λ db h. h))

  release_rows-Inboxed :
      (now order : ℕ) (rows : List ReservationModel) → Keeps Inboxed (release_rows now order rows)
  unfolding release_rows
  release_rows-Inboxed now order [] = Keeps-pure _
  release_rows-Inboxed now order (r ∷ rows) =
      Keeps-bind _ _ (release_row-Inboxed now order r)
        λ _. Keeps-bind _ _ (release_rows-Inboxed now order rows) (λ ids. Keeps-pure _)

  release_reservations-Inboxed : (now order : ℕ) → Keeps Inboxed (release_reservations now order)
  unfolding release_reservations
  release_reservations-Inboxed now order =
      Keeps-bind _ _ (Keeps-query _) (release_rows-Inboxed now order)

  commit_entries-Inboxed :
      (now order : ℕ) (rows : List ReservationModel) → Keeps Inboxed (commit_entries now order rows)
  unfolding commit_entries
  commit_entries-Inboxed now order [] = Keeps-pure _
  commit_entries-Inboxed now order (r ∷ rows) =
      Keeps-bind _ _ (append_entry-Inboxed _ _ _ _ _ _) (λ _. commit_entries-Inboxed now order rows)

  commit_reservations-Inboxed : (now order : ℕ) → Keeps Inboxed (commit_reservations now order)
  unfolding commit_reservations
  commit_reservations-Inboxed now order =
      Keeps-bind _ _ (Keeps-query _) λ rows.
        Keeps-bind _ _ (commit_entries-Inboxed now order rows) (λ _. Keeps-exec _ (λ db h. h))

  settle_payment-Inboxed :
      {A : Type 0} (env : Env) (id : ℕ) (pay : PaymentModel) (write : Tx (Unit {0})) (stock : Tx A)
      (t : EventType) (pl : Payload)
      → Keeps Inboxed write
      → Keeps Inboxed stock
      → Keeps Inboxed (settle_payment env id pay write stock t pl)
  unfolding settle_payment insert_payment enqueue
  settle_payment-Inboxed env id pay write stock t pl hw hs =
      Keeps-bind _ _ (Keeps-insert _ _ (λ db h. h))
        λ _. Keeps-bind _ _ hw λ _. Keeps-bind _ _ hs (λ _. Keeps-exec _ (λ db h. h))

  charge_fail-Inboxed :
      (env : Env) (id : ℕ) (o : OrderModel) (key : Text) (r : Result OrderStatus)
      → Keeps Inboxed (charge_fail env id o key r)
  unfolding charge_fail update_status release_held
  charge_fail-Inboxed env id o key (err e) = Keeps-pure tt
  charge_fail-Inboxed env id o key (ok next) =
      settle_payment-Inboxed env id _ _ _ order_payment_failed _ (Keeps-exec _ (λ db h. h))
        (release_reservations-Inboxed env.now id)

  charge_success-Inboxed :
      (env : Env) (id : ℕ) (o : OrderModel) (key : Text) (r : Result OrderStatus)
      → Keeps Inboxed (charge_success env id o key r)
  unfolding charge_success update_status commit_held
  charge_success-Inboxed env id o key (err e) = Keeps-pure tt
  charge_success-Inboxed env id o key (ok next) =
      settle_payment-Inboxed env id _ _ _ order_paid _ (Keeps-exec _ (λ db h. h))
        (commit_reservations-Inboxed env.now id)

  charge_order-Inboxed :
      (env : Env) (id : ℕ) (msg : Message) (o : OrderModel)
      → Keeps Inboxed (charge_order env id msg o)
  unfolding charge_order
  charge_order-Inboxed env id msg o =
      let key = attempt_key msg.event_id in
      Keeps-if (is_done o.status) _ _ (Keeps-pure tt) (
        Keeps-if (simulates_failure msg.payload.simulate_outcome) _ _
          (charge_fail-Inboxed env id o key (transition o.status payment_failed))
          (charge_success-Inboxed env id o key (transition o.status paid)))

  charge_found-Inboxed :
      (env : Env) (id : ℕ) (msg : Message) (row : Option OrderModel)
      → Keeps Inboxed (charge_found env id msg row)
  unfolding charge_found charge_unless_paid
  charge_found-Inboxed env id msg none = Keeps-pure tt
  charge_found-Inboxed env id msg (some o) =
      Keeps-bind _ _ (Keeps-query _)
        (elim [ some p ↦ Keeps-pure tt | none ↦ charge_order-Inboxed env id msg o ])

  pub charge_claimed-Inboxed :
      (env : Env) (id : ℕ) (msg : Message) (b : Bool) → Keeps Inboxed (charge_claimed env id msg b)
  unfolding charge_claimed
  charge_claimed-Inboxed env id msg false = Keeps-pure tt
  charge_claimed-Inboxed env id msg true =
      Keeps-bind _ _ (Keeps-query _) (charge_found-Inboxed env id msg)

  pub apply_claimed-Inboxed :
      (env : Env) (id : ℕ) (t : EventType) (b : Bool) → Keeps Inboxed (apply_claimed env id t b)
  unfolding apply_claimed apply_event commit_tx release_tx
  apply_claimed-Inboxed env id t false = Keeps-pure _
  apply_claimed-Inboxed env id order_cancelled true = release_reservations-Inboxed _ _
  apply_claimed-Inboxed env id order_payment_failed true = release_reservations-Inboxed _ _
  apply_claimed-Inboxed env id order_paid true =
      Keeps-bind _ _ (commit_reservations-Inboxed _ _) (λ _. Keeps-pure _)
  apply_claimed-Inboxed env id order_fulfilled true =
      Keeps-bind _ _ (commit_reservations-Inboxed _ _) (λ _. Keeps-pure _)
  apply_claimed-Inboxed env id _ true = Keeps-pure _
